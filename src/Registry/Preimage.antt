-- ===== src/Registry/Preimage.antt =====
-- internal/definition/registry.go: source sets that draftDigest does not tell apart.
use tailapps.Prelude.{
  ℕ, ◌≡◌, refl, ap, sym, ◌∙◌, String, false, none, some, List, [], ◌∷◌, ◌++◌, str_eq, str_ltb,
  eq_iff, if◌then◌else◌,
}
use mathlib.Core.List.{append-nil}
use tailapps.Registry.Tables.{Sources, Host, App, Registry}
use tailapps.Registry.Digest.{
  lookup, insert_key, sort_strings, keys, written, preimage, digest_text, draft_digest,
}
use tailapps.Registry.Drafts.{sources, sources_of, find_app}
use tailapps.Registry.Consistent.{find_app_lem, find_app-All}
use tailapps.Registry.Reach.{Reach, Reach-Formed}

-- Two files, and one file that holds the first, a NUL, the second's path, a NUL, and the second.
abbrev pub two_files : String → String → List ℕ → List ℕ → Sources
two_files k l c d = (k, c) ∷ (l, d) ∷ []

abbrev pub one_file : Host → String → String → List ℕ → List ℕ → Sources
one_file h k l c d = (k, c ++ 0 ∷ (h.bytes l ++ 0 ∷ d)) ∷ []

module _ (h : Host) (k l : String) (c d : List ℕ) where
  sort_two : str_ltb l k ≡ false → sort_strings (k ∷ l ∷ []) ≡ k ∷ l ∷ []
  unfolding sort_strings insert_key
  sort_two ordered = ap (λ b. if b then l ∷ k ∷ [] else k ∷ l ∷ []) ordered

  lookup_first : lookup k (two_files k l c d) ≡ some c
  unfolding lookup
  lookup_first =
      ap (λ b. if b then some c else (if str_eq l k then some d else none)) ((eq_iff k k).1 refl)

  lookup_second : str_eq k l ≡ false → lookup l (two_files k l c d) ≡ some d
  unfolding lookup
  lookup_second apart =
      ap (λ b. if b then some c else (if str_eq l l then some d else none)) apart
      ∙ ap (λ b. if b then some d else none) ((eq_iff l l).1 refl)

  preimage_two :
      str_ltb l k ≡ false
      → str_eq k l ≡ false
      → preimage h (two_files k l c d) ≡ 0 ∷ (h.bytes k ++ 0 ∷ (c ++ 0 ∷ (h.bytes l ++ 0 ∷ d)))
  unfolding preimage written keys
  preimage_two ordered apart =
      rw (sort_two ordered, lookup_first, lookup_second apart, append-nil d) refl

  preimage_one :
      preimage h (one_file h k l c d) ≡ 0 ∷ (h.bytes k ++ 0 ∷ (c ++ 0 ∷ (h.bytes l ++ 0 ∷ d)))
  unfolding preimage written keys sort_strings insert_key lookup
  preimage_one = rw ((eq_iff k k).1 refl, append-nil (c ++ 0 ∷ (h.bytes l ++ 0 ∷ d))) refl

  same_digest :
      str_ltb l k ≡ false
      → str_eq k l ≡ false
      → draft_digest h (two_files k l c d) ≡ draft_digest h (one_file h k l c d)
  unfolding draft_digest
  same_digest ordered apart = ap (digest_text h) (preimage_two ordered apart ∙ sym preimage_one)

  one_lacks : str_eq k l ≡ false → lookup l (one_file h k l c d) ≡ none
  unfolding lookup
  one_lacks apart = ap (λ b. if b then some (c ++ 0 ∷ (h.bytes l ++ 0 ∷ d)) else none) apart

-- The draft revision of an app that a reachable registry holds.
revision_is :
    (h : Host) (r : Registry) (name : String) (app : App)
    → Reach h r
    → find_app name r.tailapps ≡ some app
    → app.draft_revision ≡ draft_digest h (sources r name)
unfolding sources
revision_is h r name app reached found =
    let formed = Reach-Formed h r reached in
    find_app-All (λ (a : App). a.draft_revision ≡ draft_digest h (sources_of a.name r.elements))
      name r.tailapps app found formed.drafts
    ∙ ap (λ n. draft_digest h (sources_of n r.elements)) (find_app_lem name r.tailapps app found).1

-- In two registries that the methods bring about, an app has the same draft revision where the one
-- holds two files and the other only the first, extended by a NUL, the second's path, a NUL and the
-- second's content; the second file is then there in the one and missing in the other.
pub draft_revision-collides :
    (h : Host) (k l : String) (c d : List ℕ) (name : String) (r r' : Registry) (app app' : App)
    → str_ltb l k ≡ false
    → str_eq k l ≡ false
    → Reach h r
    → Reach h r'
    → find_app name r.tailapps ≡ some app
    → find_app name r'.tailapps ≡ some app'
    → sources r name ≡ two_files k l c d
    → sources r' name ≡ one_file h k l c d
    → (app.draft_revision ≡ app'.draft_revision)
      × (lookup l (sources r name) ≡ some d)
      × (lookup l (sources r' name) ≡ none)
draft_revision-collides h k l c d name r r' app app' ordered apart reached reached' found found' is
      two =
    (
      revision_is h r name app reached found
          ∙ ap (draft_digest h) is
          ∙ same_digest h k l c d ordered apart
          ∙ ap (draft_digest h) (sym two)
          ∙ sym (revision_is h r' name app' reached' found'),
      ap (lookup l) is ∙ lookup_second h k l c d apart,
      ap (lookup l) two ∙ one_lacks h k l c d apart,
    )
