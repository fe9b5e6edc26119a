-- ===== src/Jsonataddl/Views.antt =====
-- jsonataddl/compile.go: resolveRelation and resolveView.
use tailapps.Prelude.{
  ℕ, zero, suc, String, Bool, List, [], ◌∷◌, ◌++◌, any, Option, none, some, Result, ok, err, ◌>>=◌,
  str_eq, if◌then◌else◌, length,
}
use tailapps.Jsonataddl.Types.{Table, View}
use tailapps.Jsonataddl.Names.{to_lower, same_codes}

-- The maps of an application, by the declared names.
pub record Schema : Type 0 where
  pub tables : List (String × Table)
  pub views : List (String × View)

unfoldable pub find_key {ℓ} : {A : Type ℓ} → String → List (String × A) → Option A
find_key name [] = none
find_key name ((key, a) ∷ rest) =
    let later = find_key name rest in if str_eq key name then some a else later

pub data RelationError : Type 0 where
  undeclared cycle : String → RelationError
  in_view : String → RelationError → RelationError
  out_of_fuel : RelationError

-- `stack[key]`
abbrev pub on_stack : List ℕ → List (List ℕ) → Bool
on_stack key stack = any (λ k. same_codes k key) stack

-- A table unless one of its name, by lower case, is there.
abbrev pub add_table : Table → List Table → List Table
add_table t seen =
    if any (λ s. same_codes (to_lower s.name) (to_lower t.name)) seen then seen else seen ++ t ∷ []

abbrev pub add_tables : List Table → List Table → List Table
add_tables [] seen = seen
add_tables (t ∷ ts) seen = add_tables ts (add_table t seen)

abbrev pub within_view {ℓ} : {A : Type ℓ} → String → Result RelationError A → Result RelationError A
within_view name (ok a) = ok a
within_view name (err e) = err (in_view name e)

-- A dependency: a table, or what the recursive call makes of a view.
abbrev pub dependency_tables :
    String
    → (String → Result RelationError (List Table))
    → String
    → Option Table
    → Result RelationError (List Table)
dependency_tables name resolve dependency (some t) = ok (t ∷ [])
dependency_tables name resolve dependency none = within_view name (resolve dependency)

-- The loop over the dependencies.
unfoldable pub collect :
    String
    → (String → Result RelationError (List Table))
    → List (String × Table)
    → List String
    → List Table
    → Result RelationError (List Table)
collect name resolve tables [] seen = ok seen
collect name resolve tables (dependency ∷ rest) seen =
    dependency_tables name resolve dependency (find_key dependency tables) >>= λ found.
    collect name resolve tables rest (add_tables found seen)

abbrev pub resolve_from :
    (List (List ℕ) → String → Result RelationError (List Table))
    → Schema
    → String
    → List (List ℕ)
    → Option View
    → Result RelationError (List Table)
resolve_from resolve a name stack none = err (undeclared name)
resolve_from resolve a name stack (some view) =
    if on_stack (to_lower name) stack
    then err (cycle name)
    else collect name (resolve (to_lower name ∷ stack)) a.tables view.dependencies []

-- The recursion on fuel: a call has one more view on its stack.
unfoldable pub resolve_view :
    ℕ → Schema → List (List ℕ) → String → Result RelationError (List Table)
resolve_view zero a stack name = err out_of_fuel
resolve_view (suc fuel) a stack name =
    resolve_from (resolve_view fuel a) a name stack (find_key name a.views)

abbrev pub relation_tables : Schema → String → Option Table → Result RelationError (List Table)
relation_tables a name (some t) = ok (t ∷ [])
relation_tables a name none = resolve_view (suc (length a.views)) a [] name

unfoldable pub resolve_relation : Schema → String → Result RelationError (List Table)
resolve_relation a name = relation_tables a name (find_key name a.tables)
