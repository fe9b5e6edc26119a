-- ===== src/Registry/Consistent.antt =====
-- internal/definition/registry.go: what Create, mutate, Activate and Delete keep of the rows.
use tailapps.Prelude.{
  ◌≡◌, refl, ap, sym, subst, ◌∙◌, String, Bool, true, false, not, ◌||◌, Option, none, some, List,
  [], ◌∷◌, ◌++◌, ok, ◌>>=◌, >>=-eq-ok, guard-eq-ok, str_eq, eq_iff, if◌then◌else◌, map, any,
  any-append, Bool-cases, arith, inl, inr, All, All-append, All-map,
}
use mathlib.Core.List.{append-nil}
use tailapps.Registry.Tables.{Sources, Host, App, Element, Registry, Answer, constraint}
use tailapps.Registry.Digest.{draft_digest}
use tailapps.Registry.Drafts.{
  is_named, sources_of, element_row, insert_elements, find_app, row_of, get, new_app, create,
}
use tailapps.Registry.Rows.{
  insert_elements_lem, sources_of-new, sources_of-append, Owned, Owned-none, Owned-new,
}

abbrev pub Drafted : Host → List App → List Element → Type 0
Drafted h apps es =
    All (λ (app : App). app.draft_revision ≡ draft_digest h (sources_of app.name es)) apps

-- Names are unique, as the primary key of the table makes them.
abbrev pub Distinct : List App → Type 0
Distinct [] = Unit
Distinct (app ∷ apps) = (any (is_named app.name) apps ≡ false) × Distinct apps

-- Every draft revision is the digest of the sources that are stored, every element has its app, and
-- names are unique.
pub record Formed (h : Host) (r : Registry) : Type 0 where
  pub drafts :
      All
        (λ (app : App). app.draft_revision ≡ draft_digest h (sources_of app.name r.elements))
        r.tailapps
  pub owned : Owned r.tailapps r.elements
  pub names : Distinct r.tailapps

module _ (f : App → App) (named : (app : App) → (f app).name ≡ app.name) where
  pub any-map :
      (n : String) (apps : List App) → any (is_named n) (map f apps) ≡ any (is_named n) apps
  any-map n [] = refl
  any-map n (app ∷ apps) = rw (named app, any-map n apps) refl

  pub Distinct-map : (apps : List App) → Distinct apps → Distinct (map f apps)
  Distinct-map [] d = tt
  Distinct-map (app ∷ apps) d = (rw (named app, any-map app.name apps) d.0, Distinct-map apps d.1)

  pub Owned-map : (apps : List App) (es : List Element) → Owned apps es → Owned (map f apps) es
  Owned-map apps es o = All-map (λ (e : Element) k. any-map e.tailapp apps ∙ k) es o

any-false :
    (n : String) (apps : List App)
    → any (is_named n) apps ≡ false
    → All (λ (app : App). str_eq app.name n ≡ false) apps
any-false n [] h = tt
any-false n (app ∷ apps) h = (ground (arith, h), any-false n apps (ground (arith, h)))

Distinct-append :
    (apps : List App) (app : App)
    → any (is_named app.name) apps ≡ false
    → Distinct apps
    → Distinct (apps ++ app ∷ [])
Distinct-append [] app h d = (refl, tt)
Distinct-append (x ∷ xs) app h d = (
  any-append (is_named x.name) xs (app ∷ [])
      ∙ ground (arith, h, d.0, eq_iff x.name app.name, eq_iff app.name x.name),
  Distinct-append xs app (ground (arith, h)) d.1,
)

pub false-of_not : (b : Bool) → not b ≡ true → b ≡ false
false-of_not b h = ground arith

pub str_eq_comm : (a b : String) → str_eq a b ≡ str_eq b a
str_eq_comm a b = ground (arith, eq_iff a b, eq_iff b a)

str_eq_refl : (a : String) → str_eq a a ≡ true
str_eq_refl a = ground (arith, eq_iff a a)

-- Apps of other names keep their digests where they keep their sources.
Drafted-others :
    (h : Host) (name : String) (apps : List App) (es es' : List Element)
    → ((n : String) → str_eq n name ≡ false → sources_of n es' ≡ sources_of n es)
    → All (λ (app : App). str_eq app.name name ≡ false) apps
    → Drafted h apps es
    → Drafted h apps es'
Drafted-others h name [] es es' same other d = tt
Drafted-others h name (app ∷ apps) es es' same other d = (
  d.0 ∙ ap (λ s. draft_digest h s) (sym (same app.name other.0)),
  Drafted-others h name apps es es' same other.1 d.1,
)

-- The steps of a successful Create.
create_lem :
    (h : Host) (r r' : Registry) (name : String) (s : Sources) (app : App)
    → create h r name s ≡ ok (app, r')
    → (any (is_named name) r.tailapps ≡ false)
      × ((es : List Element) × (insert_elements h name s r.elements ≡ ok es)
          × (r' ≡ record r {
            tailapps = r.tailapps ++ new_app name (draft_digest h s) ∷ [];
            elements = es;
          }))
unfolding create
create_lem h r r' name s app done =
    let made = new_app name (draft_digest h s) in
    let last : List Element → Answer App =
      λ es. ok (made, record r { tailapps = r.tailapps ++ made ∷ []; elements = es }) in
    let (fresh, rest) =
      guard-eq-ok (not (any (is_named name) r.tailapps)) constraint
        (insert_elements h name s r.elements >>= last) done in
    let (es, inserted, end) = >>=-eq-ok (insert_elements h name s r.elements) last rest in
    (false-of_not (any (is_named name) r.tailapps) fresh, (es, inserted, cc))

pub create-Formed :
    (h : Host) (r r' : Registry) (name : String) (s : Sources) (app : App)
    → create h r name s ≡ ok (app, r')
    → Formed h r
    → Formed h r'
create-Formed h r r' name s app done formed =
    let (fresh, (es, inserted, e)) = create_lem h r r' name s app done in
    let made = new_app name (draft_digest h s) in
    let rows = insert_elements_lem h name s r.elements es inserted in
    let holds : (n : String)
        → sources_of n es ≡ sources_of n r.elements ++ (if str_eq name n then s else []) =
      λ n.
        ap (λ l. sources_of n l) rows
        ∙ sources_of-append n r.elements (map (element_row h name) s)
        ∙ ap (λ l. sources_of n r.elements ++ l) (sources_of-new h n name s) in
    let all_named : any (is_named name) (r.tailapps ++ made ∷ []) ≡ true =
      any-append (is_named name) r.tailapps (made ∷ [])
      ∙ unfold new_app in ground (arith, str_eq_refl name) in
    let others : (n : String) → str_eq n name ≡ false → sources_of n es ≡ sources_of n r.elements =
      λ n other.
        holds n
        ∙ ap (λ b. sources_of n r.elements ++ (if b then s else [])) (str_eq_comm name n ∙ other)
        ∙ append-nil (sources_of n r.elements) in
    let own : sources_of name es ≡ s =
      holds name
      ∙ ap (λ l. l ++ (if str_eq name name then s else []))
          (Owned-none name r.tailapps r.elements formed.owned fresh)
      ∙ ap (λ b. if b then s else []) (str_eq_refl name) in
    rw e (record {
      drafts =
          All-append _ r.tailapps (made ∷ [])
            (Drafted-others h name r.tailapps r.elements es others (any-false name r.tailapps fresh)
              formed.drafts)
            (unfold new_app in ap (λ l. draft_digest h l) (sym own), tt);
      owned = subst (Owned (r.tailapps ++ made ∷ [])) (sym rows) (
          All-append _ r.elements (map (element_row h name) s)
            (All-map
              (λ (x : Element) k.
                any-append (is_named x.tailapp) r.tailapps (made ∷ [])
                ∙ ap (λ b. b || any (is_named x.tailapp) (made ∷ [])) k)
              r.elements formed.owned)
            (Owned-new h name (r.tailapps ++ made ∷ []) s all_named));
      names = Distinct-append r.tailapps made (unfold new_app in fresh) formed.names;
    })

-- The found row.
pub find_app_lem :
    (name : String) (apps : List App) (app : App)
    → find_app name apps ≡ some app
    → (any (is_named name) apps ≡ true) × (app.name ≡ name)
unfolding find_app
find_app_lem name [] app found = cc
find_app_lem name (x ∷ xs) app found = elim (Bool-cases (is_named name x)) [
  | inl e ↦
      let same : x ≡ app = ground (arith, found, e) in
      (rw e refl, ap (λ (a : App). a.name) (sym same) ∙ ground (arith, e, eq_iff x.name name))
  | inr e ↦ let rest = find_app_lem name xs app (ground (arith, found, e)) in (rw e rest.0, rest.1)
]

pub find_app-All {ℓ} :
    (P : App → Type ℓ) (name : String) (apps : List App) (app : App)
    → find_app name apps ≡ some app
    → All P apps
    → P app
unfolding find_app
find_app-All P name [] app found h = cc
find_app-All P name (x ∷ xs) app found h = elim (Bool-cases (is_named name x)) [
  | inl e ↦ let same : x ≡ app = ground (arith, found, e) in subst P same h.0
  | inr e ↦ find_app-All P name xs app (ground (arith, found, e)) h.1
]

row_of_lem : (found : Option App) (app : App) → row_of found ≡ ok app → found ≡ some app
row_of_lem none app h = cc
row_of_lem (some x) app h = (let e : x ≡ app = cc in ap (λ a. some a) e)

pub get_lem :
    (r : Registry) (name : String) (app : App)
    → get r name ≡ ok app
    → find_app name r.tailapps ≡ some app
unfolding get
get_lem r name app h = row_of_lem (find_app name r.tailapps) app h
