-- ===== src/Jsonataddl/Authorizer.antt =====
-- jsonataddl/authorizer.go: admitRelation and the callback that ReadAuthorizer returns;
-- jsonataddl/application.go: lookup.
use tailapps.Prelude.{
  ℕ, zero, suc, String, not, ◌&&◌, ◌||◌, List, [], ◌∷◌, map, Option, none, some, str_eq, length,
  if◌then◌else◌,
}
use tailapps.Jsonataddl.Types.{Column, Table, View, Read, Program}
use tailapps.Jsonataddl.Names.{to_lower, same_codes}
use tailapps.Jsonataddl.Views.{Schema, find_key, on_stack}

-- The columns that a relation admits; `none` is Go's nil set, which admits any.
abbrev pub Columns : Type 0
Columns = Option (List (List ℕ))

-- The map of the admitted relations, by lower case, the last assignment first; and the seen set.
pub record Admission : Type 0 where
  pub admitted : List (List ℕ × Columns)
  pub seen : List (List ℕ)

unfoldable pub find_admitted : List ℕ → List (List ℕ × Columns) → Option Columns
find_admitted key [] = none
find_admitted key ((k, columns) ∷ rest) =
    let later = find_admitted key rest in if same_codes k key then some columns else later

abbrev pub admit : String → Columns → Admission → Admission
admit name columns s = record s { admitted = (to_lower name, columns) ∷ s.admitted }

abbrev pub and_then {ℓ κ} : {A : Type ℓ} {B : Type κ} → Option A → (A → Option B) → Option B
and_then none next = none
and_then (some x) next = next x

-- The loop over the dependencies of a view.
unfoldable pub admit_all :
    (String → Admission → Option Admission) → List String → Admission → Option Admission
admit_all recur [] s = some s
admit_all recur (dependency ∷ rest) s = and_then (recur dependency s) (admit_all recur rest)

abbrev pub admit_found :
    (String → Admission → Option Admission)
    → String
    → Option Table
    → Option View
    → Admission
    → Option Admission
admit_found recur name (some t) v s =
    some (admit name (some (map (λ (column : Column). to_lower column.name) t.columns)) s)
admit_found recur name none none s = some s
admit_found recur name none (some view) s = admit_all recur view.dependencies (admit name none s)

-- The recursion on fuel, with `none` where there is not enough: each call within a call has one
-- more view in its seen set.
unfoldable pub admit_relation : ℕ → Schema → String → Admission → Option Admission
admit_relation zero a name s = none
admit_relation (suc fuel) a name s =
    if on_stack (to_lower name) s.seen
    then some s
    else admit_found (admit_relation fuel a) name (find_key name a.tables) (find_key name a.views)
        (record s { seen = to_lower name ∷ s.seen })

-- The map, if the call returned.
abbrev pub admitted_by : Option Admission → Option (List (List ℕ × Columns))
admitted_by none = none
admitted_by (some s) = some s.admitted

-- The loop over the reads of a program; each has a seen set of its own.
unfoldable pub admit_reads :
    Schema → List Read → List (List ℕ × Columns) → Option (List (List ℕ × Columns))
admit_reads a [] admitted = some admitted
admit_reads a (read ∷ reads) admitted =
    and_then
      (admitted_by (
        admit_relation (suc (length a.views)) a read.table
          (record { admitted = admitted; seen = [] })))
      (admit_reads a reads)

pub data Action : Type 0 where
  auth_select auth_read auth_other : Action

pub data ReturnCode : Type 0 where
  auth_ok auth_deny : ReturnCode

-- `column == "" || columns == nil || columns[strings.ToLower(column)]`
abbrev pub column_code : String → Columns → ReturnCode
column_code column none = auth_ok
column_code column (some keys) =
    if str_eq column "" || on_stack (to_lower column) keys then auth_ok else auth_deny

abbrev pub relation_code : String → Option Columns → ReturnCode
relation_code column none = auth_deny
relation_code column (some columns) = column_code column columns

-- The callback.
unfoldable pub authorize : List (List ℕ × Columns) → Action → String → String → String → ReturnCode
authorize admitted auth_select relation column schema = auth_ok
authorize admitted auth_read relation column schema =
    if not (str_eq schema "") && not (str_eq schema "main")
    then auth_deny
    else relation_code column (find_admitted (to_lower relation) admitted)
authorize admitted auth_other relation column schema = auth_deny

unfoldable pub find_fold : String → List Program → Option Program
find_fold name [] = none
find_fold name (fold ∷ folds) =
    let later = find_fold name folds in if str_eq fold.name name then some fold else later

-- `lookup`
unfoldable pub find_program : Program → List Program → String → Option Program
find_program normalizer folds name =
    if str_eq normalizer.name name then some normalizer else find_fold name folds

-- The allowlist of the authorizer, where the program is found.
unfoldable pub read_authorizer :
    Schema
    → Program
    → List Program
    → String
    → Option (Action → String → String → String → ReturnCode)
read_authorizer a normalizer folds name =
    and_then (find_program normalizer folds name)
      (λ program. and_then (admit_reads a program.reads []) (λ admitted. some (authorize admitted)))
