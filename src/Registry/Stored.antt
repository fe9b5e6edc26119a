-- ===== src/Registry/Stored.antt =====
-- internal/definition/registry.go: what Put and DeleteElement make of an app and of the others.
use tailapps.Prelude.{
  ℕ, ◌≡◌, refl, ap, sym, ◌∙◌, ◌≢◌, String, true, false, Option, none, some, List, [], ◌∷◌, Result,
  ok, str_eq, eq_iff, if◌then◌else◌, map, Bool-cases, arith, inl, inr,
}
use tailapps.Registry.Tables.{Sources, Host, App, Element, Registry, Error}
use tailapps.Registry.Digest.{lookup, assign, remove, draft_digest}
use tailapps.Registry.Drafts.{
  sources_of, sources, find_app, with_draft, put, delete_element, dropped, drop_path,
}
use tailapps.Registry.Rows.{sources_of-stored}
use tailapps.Registry.Consistent.{find_app_lem}
use tailapps.Registry.Changes.{
  Changed, mutate-Changed, redrafted, redrafted-name, redrafted-hit, redrafted-miss,
}

lookup-assign :
    (p path : String) (content : List ℕ) (s : Sources)
    → lookup p (assign path content s) ≡ (if str_eq path p then some content else lookup p s)
unfolding lookup assign
lookup-assign p path content [] = ground arith
lookup-assign p path content ((key, old) ∷ rest) =
    ground (arith, lookup-assign p path content rest, eq_iff key path, eq_iff key p, eq_iff path p)

lookup-remove :
    (p path : String) (s : Sources)
    → lookup p (remove path s) ≡ (if str_eq path p then none else lookup p s)
unfolding lookup remove
lookup-remove p path [] = ground arith
lookup-remove p path ((key, old) ∷ rest) =
    ground (arith, lookup-remove p path rest, eq_iff key path, eq_iff key p, eq_iff path p)

find_app-redrafted :
    (name expected next : String) (apps : List App) (row : App)
    → find_app name apps ≡ some row
    → find_app name (map (redrafted name expected next) apps)
      ≡ some (redrafted name expected next row)
unfolding find_app
find_app-redrafted name expected next [] row found = cc
find_app-redrafted name expected next (x ∷ xs) row found = elim (Bool-cases (str_eq x.name name)) [
  | inl e ↦
      let same : x ≡ row = ground (arith, found, e) in
      let hit : str_eq (redrafted name expected next x).name name ≡ true =
        ap (λ m. str_eq m name) (redrafted-name name expected next x) ∙ e in
      ap
        (λ b.
          if b
          then some (redrafted name expected next x)
          else find_app name (map (redrafted name expected next) xs))
        hit
      ∙ ap (λ a. some (redrafted name expected next a)) same
  | inr e ↦
      rw (redrafted-name name expected next x, e)
        (find_app-redrafted name expected next xs row (ground (arith, found, e)))
]

find_app-other :
    (n name expected next : String) (apps : List App)
    → str_eq name n ≡ false
    → find_app n (map (redrafted name expected next) apps) ≡ find_app n apps
unfolding find_app
find_app-other n name expected next [] other = refl
find_app-other n name expected next (x ∷ xs) other = elim (Bool-cases (str_eq x.name name)) [
  | inl e ↦
      let p : x.name ≡ name = ground (arith, e, eq_iff x.name name) in
      let miss : str_eq x.name n ≡ false = ap (λ m. str_eq m n) p ∙ other in
      rw (redrafted-name name expected next x, miss) (find_app-other n name expected next xs other)
  | inr e ↦
      rw (redrafted-miss name expected next x e, find_app-other n name expected next xs other) refl
]

-- A change of one app's draft: it was made on the revision that the caller expected; the answer is
-- the stored row, with the digest of the new sources, which hold `after`; other apps are untouched.
pub record Edited (h : Host) (r : Registry) (name expected : String)
    (after : String → Option (List ℕ)) (app : App) (r' : Registry) : Type 0 where
  pub row : App
  pub found : find_app name r.tailapps ≡ some row
  pub current : row.draft_revision ≡ expected
  pub answer : find_app name r'.tailapps ≡ some app
  pub revision : app ≡ with_draft (draft_digest h (sources r' name)) row
  pub content : (p : String) → lookup p (sources r' name) ≡ after p
  pub others :
      (n : String)
      → str_eq name n ≡ false
      → (sources r' n ≡ sources r n) × (find_app n r'.tailapps ≡ find_app n r.tailapps)

Changed-Edited :
    (h : Host) (r r' : Registry) (name expected : String) (change : Sources → Result Error Sources)
    (after : String → Option (List ℕ)) (app : App)
    → (c : Changed h r name expected change app r') → ((p : String) → lookup p c.s' ≡ after p)
    → Edited h r name expected after app r'
unfolding sources
Changed-Edited h r r' name expected change after app c holds =
    let row : App = c.row in
    let es : List Element = c.es in
    let s' : Sources = c.s' in
    let next = draft_digest h s' in
    let current : row.draft_revision ≡ expected =
      (eq_iff row.draft_revision expected).0 c.current in
    let apps' : r'.tailapps ≡ map (redrafted name expected next) r.tailapps =
      ap (λ (q : Registry). q.tailapps) c.stored in
    let es' : r'.elements ≡ es = ap (λ (q : Registry). q.elements) c.stored in
    let same_name : str_eq row.name name ≡ true =
      (eq_iff row.name name).1 (find_app_lem name r.tailapps row c.found).1 in
    let stored : (n : String)
        → sources_of n r'.elements ≡ (if str_eq name n then s' else sources_of n r.elements) =
      λ n. ap (sources_of n) es' ∙ sources_of-stored h n name s' r.elements es c.inserted in
    let own : sources_of name r'.elements ≡ s' =
      stored name
      ∙ ap (λ b. if b then s' else sources_of name r.elements) ((eq_iff name name).1 refl) in
    let redone : find_app name r'.tailapps ≡ some (with_draft next row) =
      ap (find_app name) apps'
      ∙ find_app-redrafted name expected next r.tailapps row c.found
      ∙ ap (λ a. some a) (redrafted-hit name expected next row same_name current) in
    let both : some app ≡ some (with_draft next row) = sym c.answer ∙ redone in
    let same : app ≡ with_draft next row = cc in
    record {
      row = row;
      found = c.found;
      current = current;
      answer = c.answer;
      revision = same ∙ ap (λ s. with_draft (draft_digest h s) row) (sym own);
      content = λ p. ap (lookup p) own ∙ holds p;
      others = λ n other. (
        stored n ∙ ap (λ b. if b then s' else sources_of n r.elements) other,
        ap (find_app n) apps' ∙ find_app-other n name expected next r.tailapps other,
      );
    }

-- A Put that succeeds was made on the current draft revision; the app then holds the content under
-- the path and all else as before, its row has the digest of that as the draft revision and is
-- otherwise unchanged, and no other app changes.
pub put-Edited :
    (h : Host) (r r' : Registry) (name path : String) (content : List ℕ) (expected : String)
    (app : App)
    → put h r name path content expected ≡ ok (app, r')
    → Edited h r name expected
        (λ p. if str_eq path p then some content else lookup p (sources r name))
        app
        r'
unfolding put sources
put-Edited h r r' name path content expected app done =
    let change : Sources → Result Error Sources = λ s. ok (assign path content s) in
    let c = mutate-Changed h r r' name expected change app done in
    let s' : Sources = c.s' in
    let same : assign path content (sources_of name r.elements) ≡ s' = cc in
    Changed-Edited h r r' name expected change
      (λ p. if str_eq path p then some content else lookup p (sources_of name r.elements)) app c
      (λ p. ap (lookup p) (sym same) ∙ lookup-assign p path content (sources_of name r.elements))

dropped_lem :
    (path : String) (s s' : Sources) (found : Option (List ℕ))
    → dropped path s found ≡ ok s'
    → (s' ≡ remove path s) × (found ≢ none)
dropped_lem path s s' none done = cc
dropped_lem path s s' (some old) done = ((let e : remove path s ≡ s' = cc in sym e), λ e. cc)

drop_path_lem :
    (path : String) (s s' : Sources)
    → drop_path path s ≡ ok s'
    → (s' ≡ remove path s) × (lookup path s ≢ none)
unfolding drop_path
drop_path_lem path s s' done = dropped_lem path s s' (lookup path s) done

-- A DeleteElement that succeeds was made on the current draft revision, of a path that the app had;
-- the app then holds nothing under the path and all else as before, its row has the digest of that
-- as the draft revision and is otherwise unchanged, and no other app changes.
pub delete_element-Edited :
    (h : Host) (r r' : Registry) (name path expected : String) (app : App)
    → delete_element h r name path expected ≡ ok (app, r')
    → (lookup path (sources r name) ≢ none)
      × Edited h r name expected
          (λ p. if str_eq path p then none else lookup p (sources r name))
          app
          r'
unfolding delete_element sources
delete_element-Edited h r r' name path expected app done =
    let c = mutate-Changed h r r' name expected (drop_path path) app done in
    let s' : Sources = c.s' in
    let (same, had) = drop_path_lem path (sources_of name r.elements) s' c.changed in
    (
      had,
      Changed-Edited h r r' name expected (drop_path path)
          (λ p. if str_eq path p then none else lookup p (sources_of name r.elements)) app c
          (λ p. ap (lookup p) same ∙ lookup-remove p path (sources_of name r.elements)),
    )
