-- ===== src/Registry/Finished.antt =====
-- internal/definition/registry.go: what FinishActivation does on each of its branches.
use tailapps.Prelude.{
  ℕ, ◌≡◌, ◌≢◌, refl, ap, sym, ◌∙◌, String, Bool, true, false, not, Option-cases, none, some, List,
  [], ◌∷◌, ok, err, str_eq, eq_iff, if◌then◌else◌, map, filter, any, length, Bool-cases, arith, inl,
  inr,
}
use tailapps.Registry.Tables.{Host, App, ActivationJournal, Registry, Answer, revision_changed}
use tailapps.Registry.Drafts.{is_named, find_app, is_drafted}
use tailapps.Registry.Activation.{
  activate, with_active, is_entry, abort_activation, finish_activation,
}
use tailapps.Registry.Consistent.{Distinct, find_app_lem}
use tailapps.Registry.Changes.{reactivated, reactivated-same}
use tailapps.Registry.Reach.{Reach, Reach-Formed}

-- How many rows the UPDATE meets.
abbrev met : String → String → List App → ℕ
met name expected apps = length (filter (is_drafted name expected) apps)

met_none :
    (name expected : String) (apps : List App)
    → any (is_named name) apps ≡ false
    → met name expected apps ≡ 0
met_none name expected [] h = refl
met_none name expected (x ∷ xs) h = ground (arith, h, met_none name expected xs)

find_app-none :
    (name : String) (apps : List App) → find_app name apps ≡ none → any (is_named name) apps ≡ false
unfolding find_app
find_app-none name [] h = refl
find_app-none name (x ∷ xs) h = ground (arith, h, find_app-none name xs)

one_or :
    (b : Bool) (x : App) (l : List App)
    → length l ≡ 0
    → length (if b then x ∷ l else l) ≡ (if b then 1 else 0)
one_or true x l h = omega (arith, h)
one_or false x l h = h

met_one :
    (name expected : String) (apps : List App) (row : App)
    → Distinct apps
    → find_app name apps ≡ some row
    → met name expected apps ≡ (if str_eq row.draft_revision expected then 1 else 0)
unfolding find_app
met_one name expected [] row d found = cc
met_one name expected (x ∷ xs) row d found = elim (Bool-cases (str_eq x.name name)) [
  | inl e ↦
      let same : x ≡ row = ground (arith, found, e) in
      let p : x.name ≡ name = (eq_iff x.name name).0 e in
      let zero : met name expected xs ≡ 0 =
        met_none name expected xs (ap (λ n. any (is_named n) xs) (sym p) ∙ d.0) in
      rw e (
        one_or (str_eq x.draft_revision expected) x (filter (is_drafted name expected) xs) zero
        ∙ ap (λ (a : App). if str_eq a.draft_revision expected then 1 else 0) same)
  | inr e ↦ rw e (met_one name expected xs row d.1 (ground (arith, found, e)))
]

module _ (f : App → App) (named : (app : App) → (f app).name ≡ app.name) where
  find_app-map :
      (name : String) (apps : List App) (row : App)
      → find_app name apps ≡ some row
      → find_app name (map f apps) ≡ some (f row)
  unfolding find_app
  find_app-map name [] row found = cc
  find_app-map name (x ∷ xs) row found = elim (Bool-cases (str_eq x.name name)) [
    | inl e ↦
        let same : x ≡ row = ground (arith, found, e) in
        ap (λ b. if b then some (f x) else find_app name (map f xs))
          (ap (λ n. str_eq n name) (named x) ∙ e)
        ∙ ap (λ a. some (f a)) same
    | inr e ↦
        ap (λ b. if b then some (f x) else find_app name (map f xs))
          (ap (λ n. str_eq n name) (named x) ∙ e)
        ∙ find_app-map name xs row (ground (arith, found, e))
  ]

  find_app-map_other :
      (n name : String)
      → str_eq name n ≡ false
      → ((app : App) → str_eq app.name name ≡ false → f app ≡ app)
      → (apps : List App) → find_app n (map f apps) ≡ find_app n apps
  unfolding find_app
  find_app-map_other n name other fixed [] = refl
  find_app-map_other n name other fixed (x ∷ xs) = elim (Bool-cases (str_eq x.name name)) [
    | inl e ↦
        let miss : str_eq x.name n ≡ false =
          ap (λ m. str_eq m n) ((eq_iff x.name name).0 e) ∙ other in
        rw (named x, miss) (find_app-map_other n name other fixed xs)
    | inr e ↦ rw (fixed x e, find_app-map_other n name other fixed xs) refl
  ]

-- The active row of the journal's app, the other apps, and the journal without the entry.
pub record Activated (r : Registry) (j : ActivationJournal) (r' : Registry) : Type 0 where
  pub row : App
  pub found : find_app j.name r.tailapps ≡ some row
  pub current : row.draft_revision ≡ j.expected_draft
  pub active :
      find_app j.name r'.tailapps
      ≡ some (with_active j.new_revision j.runtime j.mode j.boundary row)
  pub others :
      (n : String) → str_eq j.name n ≡ false → find_app n r'.tailapps ≡ find_app n r.tailapps
  pub elements : r'.elements ≡ r.elements
  pub revisions : r'.revisions ≡ r.revisions
  pub mutations : r'.mutations ≡ r.mutations
  pub journal :
      r'.journal
      ≡ filter (λ (x : ActivationJournal). not (is_entry j.name j.new_revision x)) r.journal

-- What FinishActivation promises of its answer.
abbrev pub Finishes : Registry → ActivationJournal → Answer (Unit {0}) → Type 0
Finishes r j (err e) =
    (e ≡ revision_changed)
    × ((row : App) → find_app j.name r.tailapps ≡ some row → row.draft_revision ≢ j.expected_draft)
Finishes r j (ok (done, r')) = Activated r j r'

-- The registry after both statements.
abbrev finished : Registry → ActivationJournal → Registry
finished r j = record r {
  tailapps =
      map (reactivated j.name j.expected_draft j.new_revision j.runtime j.mode j.boundary)
        r.tailapps;
  journal = filter (λ (x : ActivationJournal). not (is_entry j.name j.new_revision x)) r.journal;
}

finish_hit :
    (r : Registry) (j : ActivationJournal)
    → met j.name j.expected_draft r.tailapps ≡ 1
    → finish_activation r j ≡ ok (tt, finished r j)
unfolding finish_activation activate abort_activation
finish_hit r j one = rw one refl

finish_miss :
    (r : Registry) (j : ActivationJournal)
    → met j.name j.expected_draft r.tailapps ≡ 0
    → finish_activation r j ≡ err revision_changed
unfolding finish_activation activate abort_activation
finish_miss r j none_met = rw none_met refl

undrafted :
    (name expected : String) (app : App)
    → str_eq app.name name ≡ false
    → is_drafted name expected app ≡ false
undrafted name expected app miss = ground (arith, miss)

drafted_lem :
    (name expected : String) (app : App)
    → str_eq app.name name ≡ true
    → str_eq app.draft_revision expected ≡ true
    → is_drafted name expected app ≡ true
drafted_lem name expected app e q = ground (arith, e, q)

finished-Activated :
    (r : Registry) (j : ActivationJournal) (row : App)
    → find_app j.name r.tailapps ≡ some row
    → str_eq row.draft_revision j.expected_draft ≡ true
    → Activated r j (finished r j)
finished-Activated r j row found current =
    let f = reactivated j.name j.expected_draft j.new_revision j.runtime j.mode j.boundary in
    let named : (app : App) → (f app).name ≡ app.name = λ app.
      (reactivated-same j.name j.expected_draft j.new_revision j.runtime j.mode j.boundary app).0 in
    let drafted : is_drafted j.name j.expected_draft row ≡ true =
      drafted_lem j.name j.expected_draft row
        ((eq_iff row.name j.name).1 (find_app_lem j.name r.tailapps row found).1) current in
    record {
      row = row;
      found = found;
      current = (eq_iff row.draft_revision j.expected_draft).0 current;
      active =
          find_app-map f named j.name r.tailapps row found
          ∙ ap (λ a. some a)
              (ap
                (λ b. if b then with_active j.new_revision j.runtime j.mode j.boundary row else row)
                drafted);
      others = λ n other.
          find_app-map_other f named n j.name other
            (λ app miss.
              ap
                (λ b. if b then with_active j.new_revision j.runtime j.mode j.boundary app else app)
                (undrafted j.name j.expected_draft app miss))
            r.tailapps;
      elements = refl;
      revisions = refl;
      mutations = refl;
      journal = refl;
    }

changed :
    (r : Registry) (j : ActivationJournal) (row other : App)
    → find_app j.name r.tailapps ≡ some row
    → find_app j.name r.tailapps ≡ some other
    → str_eq row.draft_revision j.expected_draft ≡ false
    → other.draft_revision ≢ j.expected_draft
changed r j row other found found' miss current =
    let both : some row ≡ some other = sym found ∙ found' in
    let same : row ≡ other = cc in
    let hit : str_eq row.draft_revision j.expected_draft ≡ true =
      (eq_iff row.draft_revision j.expected_draft).1
        (ap (λ (a : App). a.draft_revision) same ∙ current) in
    let bad : true ≡ false = sym hit ∙ miss in cc

-- In a registry that the methods bring about, FinishActivation succeeds exactly where the app is
-- there with the draft that the journal expects. Then the app's row has the journal's revision,
-- runtime, mode and boundary and keeps its draft, the entry has left the journal, and the other apps,
-- all sources, the recorded revisions and the ledger of mutations are as before. Else the error is that the revision has changed.
pub finish_activation-Finishes :
    (h : Host) (r : Registry) (j : ActivationJournal)
    → Reach h r
    → Finishes r j (finish_activation r j)
finish_activation-Finishes h r j reached =
    let formed = Reach-Formed h r reached in
    elim (Option-cases (find_app j.name r.tailapps)) [
      | inl absent ↦
          let miss = finish_miss r j (
            met_none j.name j.expected_draft r.tailapps (find_app-none j.name r.tailapps absent)) in
          rw miss (refl, λ row found current. let bad : none ≡ some row = sym absent ∙ found in cc)
      | inr (row, found) ↦
          let count = met_one j.name j.expected_draft r.tailapps row formed.names found in
          elim (Bool-cases (str_eq row.draft_revision j.expected_draft)) [
            | inl e ↦
                rw (finish_hit r j (count ∙ ap (λ b. if b then 1 else 0) e))
                  (finished-Activated r j row found e)
            | inr e ↦
                rw (finish_miss r j (count ∙ ap (λ b. if b then 1 else 0) e))
                  (refl, λ other found' current. changed r j row other found found' e current)
          ]
    ]
