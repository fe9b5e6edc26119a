-- ===== src/Jsonataddl/Denied.antt =====
-- jsonataddl/authorizer.go: the callback of ReadAuthorizer denies by default.
use tailapps.Prelude.{
  ℕ, ◌≡◌, refl, ap, sym, ◌∙◌, ◌⊎◌, inl, inr, String, Bool, true, false, not, ◌&&◌, ◌||◌, List, [],
  ◌∷◌, map, Option, none, some, str_eq, eq_iff, if◌then◌else◌, All, Bool-cases, arith,
}
use tailapps.Jsonataddl.Types.{Column, Table, View, Read, Program}
use tailapps.Jsonataddl.Names.{to_lower, same_codes}
use tailapps.Jsonataddl.Views.{Schema, find_key, on_stack}
use tailapps.Jsonataddl.Backing.{same_codes_iff}
use tailapps.Jsonataddl.Authorizer.{
  Columns, find_admitted, and_then, admit_reads, Action, auth_select, auth_read, auth_other,
  ReturnCode, auth_ok, auth_deny, column_code, relation_code, authorize, find_program,
  read_authorizer,
}
use tailapps.Jsonataddl.Allowlist.{
  Planned, named, Granted, Form, and_then-some, admit_reads-Granted,
}

find_admitted-All :
    (a : Schema) (reads : List Read) (key : List ℕ) (columns : Columns)
    (admitted : List (List ℕ × Columns))
    → All (Granted a reads) admitted
    → find_admitted key admitted ≡ some columns
    → Granted a reads (key, columns)
unfolding find_admitted
find_admitted-All a reads key columns [] all h = cc
find_admitted-All a reads key columns ((k, cs) ∷ rest) all h =
    elim (Bool-cases (same_codes k key)) [
      | inl e ↦
          let value : some cs ≡ some columns =
            (sym (ap (λ b. if b then some cs else find_admitted key rest) e) ∙ h) in
          let same : cs ≡ columns = cc in rw (sym ((same_codes_iff k key).0 e), sym same) all.0
      | inr e ↦
          find_admitted-All a reads key columns rest all.1
            (sym (ap (λ b. if b then some cs else find_admitted key rest) e) ∙ h)
    ]

-- A column of a table as it is declared, no column, or any column of a view.
abbrev Exposed : Schema → String → String → Type 0
Exposed a name column =
    ((t : Table) × (find_key name a.tables ≡ some t)
      × ((column ≡ "")
          ⊎ (on_stack (to_lower column) (map (λ (c : Column). to_lower c.name) t.columns) ≡ true)))
    ⊎ ((view : View) × (find_key name a.tables ≡ none) × (find_key name a.views ≡ some view))

-- What an action may touch: nothing, if it is neither a SELECT nor a read.
abbrev pub Permits : Schema → List Read → Action → String → String → String → Type 0
Permits a reads auth_select relation column schema = Unit
Permits a reads auth_read relation column schema =
    ((schema ≡ "") ⊎ (schema ≡ "main"))
    × (name : String) × Planned a reads name
    × (to_lower name ≡ to_lower relation)
    × Exposed a name column
Permits a reads auth_other relation column schema = ◌≡◌ {A = Bool} false true

main_schema :
    (s : String) → not (str_eq s "") && not (str_eq s "main") ≡ false → (s ≡ "") ⊎ (s ≡ "main")
main_schema s h = elim (Bool-cases (str_eq s "")) [
  | inl e ↦ inl ((eq_iff s "").0 e)
  | inr e ↦ inr ((eq_iff s "main").0 (ground (arith, e, h)))
]

module _ (a : Schema) (reads : List Read) where
  exposed :
      (name column : String) (columns : Columns)
      → Form a reads name columns
      → column_code column columns ≡ auth_ok
      → Exposed a name column
  exposed name column none (view, e, f) h = inr (view, e, f)
  exposed name column (some keys) (t, e, f) h =
      inl (t, e, column_in (str_eq column "") refl (on_stack (to_lower column) keys) refl h)
    where
      column_in :
          (b : Bool)
          → str_eq column "" ≡ b
          → (c : Bool) → on_stack (to_lower column) keys ≡ c
          → (if b || c then auth_ok else auth_deny) ≡ auth_ok
          → (column ≡ "")
            ⊎ (on_stack (to_lower column) (map (λ (c : Column). to_lower c.name) t.columns) ≡ true)
      column_in true d c g k = inl ((eq_iff column "").0 d)
      column_in false d true g k = inr (rw (sym f) g)
      column_in false d false g k = cc

  authorize-Permits :
      (admitted : List (List ℕ × Columns)) (action : Action) (relation column schema : String)
      → All (Granted a reads) admitted
      → authorize admitted action relation column schema ≡ auth_ok
      → Permits a reads action relation column schema
  unfolding authorize
  authorize-Permits admitted auth_select relation column schema all h = tt
  authorize-Permits admitted auth_other relation column schema all h = cc
  authorize-Permits admitted auth_read relation column schema all h =
      inside (not (str_eq schema "") && not (str_eq schema "main")) refl
        (find_admitted (to_lower relation) admitted) refl h
    where
      inside :
          (b : Bool)
          → not (str_eq schema "") && not (str_eq schema "main") ≡ b
          → (o : Option Columns) → find_admitted (to_lower relation) admitted ≡ o
          → (if b then auth_deny else relation_code column o) ≡ auth_ok
          → Permits a reads auth_read relation column schema
      inside true e o f k = cc
      inside false e none f k = cc
      inside false e (some columns) f k =
          let g = find_admitted-All a reads (to_lower relation) columns admitted all f in
          (main_schema schema e, g.name, g.planned, g.key, exposed g.name column columns g.form k)

-- The callback for a program lets through SELECT, and reads in the main schema of relations that the
-- program's read plan names or on which its views depend - of a table only declared columns, by
-- lower case - and nothing else.
pub read_authorizer-Permits :
    (a : Schema) (normalizer program : Program) (folds : List Program) (name : String)
    (callback : (Action → String → String → String → ReturnCode)) (action : Action)
    (relation column schema : String)
    → find_program normalizer folds name ≡ some program
    → read_authorizer a normalizer folds name ≡ some callback
    → callback action relation column schema ≡ auth_ok
    → Permits a program.reads action relation column schema
unfolding read_authorizer
read_authorizer-Permits a normalizer program folds name callback action relation column schema found
      made h =
    let for_program : Program → Option (Action → String → String → String → ReturnCode) = λ program.
      and_then (admit_reads a program.reads []) (λ admitted. some (authorize admitted)) in
    let (other, e, then1) = and_then-some (find_program normalizer folds name) for_program made in
    let same : other ≡ program = cc in
    let (admitted, run, end) =
      and_then-some (admit_reads a other.reads []) (λ admitted. some (authorize admitted)) then1 in
    let all = admit_reads-Granted a other.reads other.reads [] admitted (λ n p. named p) tt run in
    let is_callback : authorize admitted ≡ callback = cc in
    let answers : authorize admitted action relation column schema ≡ auth_ok =
      (ap (λ (f : Action → String → String → String → ReturnCode). f action relation column schema)
          is_callback
        ∙ h) in
    rw (sym same)
      (authorize-Permits a other.reads admitted action relation column schema all answers)
