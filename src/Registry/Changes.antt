-- ===== src/Registry/Changes.antt =====
-- internal/definition/registry.go: what a change of a draft, an activation and a deletion keep.
use tailapps.Prelude.{
  ◌≡◌, ap, sym, subst, ◌∙◌, String, true, false, not, some, List, [], ◌∷◌, ◌++◌, Result, ok, ◌>>=◌,
  ◌>>◌, guard, >>=-eq-ok, guard-eq-ok, str_eq, eq_iff, if◌then◌else◌, map, filter, length, ◌==◌,
  Bool-cases, arith, inl, inr, All-append, All-filter,
}
use tailapps.Prelude.Int.{ℤ}
use tailapps.Registry.Tables.{
  Sources, Host, App, Element, Registry, Error, Answer, revision_changed,
}
use tailapps.Registry.Digest.{draft_digest}
use tailapps.Registry.Drafts.{
  belongs, sources_of, element_row, insert_elements, find_app, get, is_drafted, with_draft,
  store_draft, mutate,
}
use tailapps.Registry.Activation.{activate, with_active}
use tailapps.Registry.Rows.{insert_elements_lem, sources_of-stored, Owned, Owned-new}
use tailapps.Registry.Consistent.{
  Drafted, Formed, Distinct-map, Owned-map, str_eq_comm, find_app_lem, find_app-All, get_lem,
}

-- The UPDATE of mutate.
abbrev pub redrafted : String → String → String → App → App
redrafted name expected next app = if is_drafted name expected app then with_draft next app else app

-- A change that succeeded: the row that was found, the new sources, and the rows that were stored.
pub record Changed (h : Host) (r : Registry) (name expected : String)
    (change : Sources → Result Error Sources) (app : App) (r' : Registry) : Type 0 where
  pub row : App
  pub found : find_app name r.tailapps ≡ some row
  pub current : str_eq row.draft_revision expected ≡ true
  pub s' : Sources
  pub changed : change (sources_of name r.elements) ≡ ok s'
  pub es : List Element
  pub inserted : insert_elements h name s' (filter (λ e. not (belongs name e)) r.elements) ≡ ok es
  pub stored : r' ≡ record r {
    tailapps = map (redrafted name expected (draft_digest h s')) r.tailapps;
    elements = es;
  }
  pub answer : find_app name r'.tailapps ≡ some app

store_draft_lem :
    (h : Host) (r r' : Registry) (name expected : String) (s' : Sources) (app : App)
    → store_draft h r name expected s' ≡ ok (app, r')
    → (es : List Element) × (insert_elements h name s'
          (filter (λ e. not (belongs name e)) r.elements)
        ≡ ok es)
      × (r' ≡ record r {
        tailapps = map (redrafted name expected (draft_digest h s')) r.tailapps;
        elements = es;
      })
      × (get r' name ≡ ok app)
unfolding store_draft
store_draft_lem h r r' name expected s' app done =
    let stored : List Element → Registry = λ es. record r {
      tailapps = map (redrafted name expected (draft_digest h s')) r.tailapps;
      elements = es;
    } in
    let read : List Element → App → Answer App = λ es a. ok (a, stored es) in
    let last : List Element → Answer App = λ es.
      guard (length (filter (is_drafted name expected) r.tailapps) == 1) revision_changed
      >> (get (stored es) name >>= read es) in
    let (es, inserted, rest) =
      >>=-eq-ok (insert_elements h name s' (filter (λ e. not (belongs name e)) r.elements)) last
        done in
    let (one, tail) =
      guard-eq-ok (length (filter (is_drafted name expected) r.tailapps) == 1) revision_changed
        (get (stored es) name >>= read es) rest in
    let (a, got, end) = >>=-eq-ok (get (stored es) name) (read es) tail in
    let same : stored es ≡ r' = cc in
    let same_app : a ≡ app = cc in
    (es, inserted, sym same, subst (λ q. get q name ≡ ok app) same (got ∙ ap (λ x. ok x) same_app))

pub mutate-Changed :
    (h : Host) (r r' : Registry) (name expected : String) (change : Sources → Result Error Sources)
    (app : App)
    → mutate h r name expected change ≡ ok (app, r')
    → Changed h r name expected change app r'
unfolding mutate
mutate-Changed h r r' name expected change app done =
    let store : Sources → Answer App = λ s'. store_draft h r name expected s' in
    let next : App → Answer App = λ row.
      guard (str_eq row.draft_revision expected) revision_changed
      >> (change (sources_of name r.elements) >>= store) in
    let (row, got, rest) = >>=-eq-ok (get r name) next done in
    let (current, tail) =
      guard-eq-ok (str_eq row.draft_revision expected) revision_changed
        (change (sources_of name r.elements) >>= store) rest in
    let (s', changed, end) = >>=-eq-ok (change (sources_of name r.elements)) store tail in
    let (es, inserted, stored, answered) = store_draft_lem h r r' name expected s' app end in
    record {
      row = row;
      found = get_lem r name row got;
      current = current;
      s' = s';
      changed = changed;
      es = es;
      inserted = inserted;
      stored = stored;
      answer = get_lem r' name app answered;
    }

pub redrafted-name :
    (name expected next : String) (app : App) → (redrafted name expected next app).name ≡ app.name
redrafted-name name expected next app = ground arith

module _ (name expected next : String) (app : App) where
  pub redrafted-hit :
      str_eq app.name name ≡ true
      → app.draft_revision ≡ expected
      → redrafted name expected next app ≡ with_draft next app
  redrafted-hit e q =
      let hit : is_drafted name expected app ≡ true =
        ground (arith, e, q, eq_iff app.draft_revision expected) in
      ap (λ b. if b then with_draft next app else app) hit

  pub redrafted-miss : str_eq app.name name ≡ false → redrafted name expected next app ≡ app
  redrafted-miss e =
      let miss : is_drafted name expected app ≡ false = ground (arith, e) in
      ap (λ b. if b then with_draft next app else app) miss

Drafted-redrafted :
    (h : Host) (name expected : String) (s' : Sources) (es es' : List Element) (apps : List App)
    → ((n : String) → sources_of n es' ≡ (if str_eq name n then s' else sources_of n es))
    → expected ≡ draft_digest h (sources_of name es)
    → Drafted h apps es
    → Drafted h (map (redrafted name expected (draft_digest h s')) apps) es'
Drafted-redrafted h name expected s' es es' [] stored known d = tt
Drafted-redrafted h name expected s' es es' (app ∷ apps) stored known d = (
  elim (Bool-cases (str_eq app.name name)) [
    | inl e ↦
        let p : app.name ≡ name = ground (arith, e, eq_iff app.name name) in
        let q : app.draft_revision ≡ expected =
          d.0 ∙ ap (λ n. draft_digest h (sources_of n es)) p ∙ sym known in
        rw (redrafted-hit name expected (draft_digest h s') app e q) (
          ap (λ l. draft_digest h l)
            (sym (
              stored app.name
              ∙ ap (λ b. if b then s' else sources_of app.name es)
                  (str_eq_comm name app.name ∙ e))))
    | inr e ↦ rw (redrafted-miss name expected (draft_digest h s') app e) (
        d.0
        ∙ ap (λ l. draft_digest h l)
            (sym (
              stored app.name
              ∙ ap (λ b. if b then s' else sources_of app.name es)
                  (str_eq_comm name app.name ∙ e))))
  ],
  Drafted-redrafted h name expected s' es es' apps stored known d.1,
)

pub mutate-Formed :
    (h : Host) (r r' : Registry) (name expected : String) (change : Sources → Result Error Sources)
    (app : App)
    → mutate h r name expected change ≡ ok (app, r')
    → Formed h r
    → Formed h r'
mutate-Formed h r r' name expected change app done formed =
    let c = mutate-Changed h r r' name expected change app done in
    let f = redrafted name expected (draft_digest h c.s') in
    let keeps = redrafted-name name expected (draft_digest h c.s') in
    let kept = filter (λ (e : Element). not (belongs name e)) r.elements in
    let row : App = c.row in
    let digest : row.draft_revision ≡ draft_digest h (sources_of row.name r.elements) =
      find_app-All (λ (a : App). a.draft_revision ≡ draft_digest h (sources_of a.name r.elements))
        name r.tailapps row c.found formed.drafts in
    let current : row.draft_revision ≡ expected =
      (eq_iff row.draft_revision expected).0 c.current in
    let known : expected ≡ draft_digest h (sources_of name r.elements) =
      sym current
      ∙ digest
      ∙ ap (λ n. draft_digest h (sources_of n r.elements))
          (find_app_lem name r.tailapps row c.found).1 in
    rw c.stored (record {
      drafts =
          Drafted-redrafted h name expected c.s' r.elements c.es r.tailapps
            (λ n. sources_of-stored h n name c.s' r.elements c.es c.inserted) known formed.drafts;
      owned =
          subst (Owned (map f r.tailapps))
            (sym (insert_elements_lem h name c.s' kept c.es c.inserted))
            (Owned-map f keeps r.tailapps (kept ++ map (element_row h name) c.s') (
              All-append _ kept (map (element_row h name) c.s')
                (All-filter _ _ r.elements formed.owned)
                (Owned-new h name r.tailapps c.s' (find_app_lem name r.tailapps c.row c.found).0)));
      names = Distinct-map f keeps r.tailapps formed.names;
    })

-- The UPDATE of an activation.
abbrev pub reactivated : String → String → String → String → String → ℤ → App → App
reactivated name expected digest runtime mode boundary app =
    if is_drafted name expected app then with_active digest runtime mode boundary app else app

pub activate_lem :
    (r r' : Registry) (name digest runtime mode : String) (boundary : ℤ) (expected : String)
    → activate r name digest runtime mode boundary expected ≡ ok (tt, r')
    → (length (filter (is_drafted name expected) r.tailapps) == 1 ≡ true)
      × (r' ≡ record r {
        tailapps = map (reactivated name expected digest runtime mode boundary) r.tailapps;
      })
unfolding activate
activate_lem r r' name digest runtime mode boundary expected done =
    let next : Registry = record r {
      tailapps = map (reactivated name expected digest runtime mode boundary) r.tailapps;
    } in
    let (one, end) =
      guard-eq-ok (length (filter (is_drafted name expected) r.tailapps) == 1) revision_changed
        (ok (tt, next)) done in
    (one, cc)

pub reactivated-same :
    (name expected digest runtime mode : String) (boundary : ℤ) (app : App)
    → ((reactivated name expected digest runtime mode boundary app).name ≡ app.name)
      × ((reactivated name expected digest runtime mode boundary app).draft_revision
          ≡ app.draft_revision)
reactivated-same name expected digest runtime mode boundary app = (ground arith, ground arith)

Drafted-map :
    (h : Host) (f : App → App) (es : List Element)
    → ((app : App) → ((f app).name ≡ app.name) × ((f app).draft_revision ≡ app.draft_revision))
    → (apps : List App) → Drafted h apps es
    → Drafted h (map f apps) es
Drafted-map h f es same [] d = tt
Drafted-map h f es same (app ∷ apps) d = (
  (same app).1 ∙ d.0 ∙ ap (λ n. draft_digest h (sources_of n es)) (sym (same app).0),
  Drafted-map h f es same apps d.1,
)

pub activate-Formed :
    (h : Host) (r r' : Registry) (name digest runtime mode : String) (boundary : ℤ)
    (expected : String)
    → activate r name digest runtime mode boundary expected ≡ ok (tt, r')
    → Formed h r
    → Formed h r'
activate-Formed h r r' name digest runtime mode boundary expected done formed =
    let same = reactivated-same name expected digest runtime mode boundary in
    let f = reactivated name expected digest runtime mode boundary in
    let keeps : (app : App) → (f app).name ≡ app.name = λ app. (same app).0 in
    rw (activate_lem r r' name digest runtime mode boundary expected done).1 (record {
      drafts = Drafted-map h f r.elements same r.tailapps formed.drafts;
      owned = Owned-map f keeps r.tailapps r.elements formed.owned;
      names = Distinct-map f keeps r.tailapps formed.names;
    })
