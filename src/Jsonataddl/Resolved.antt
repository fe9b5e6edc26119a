-- ===== src/Jsonataddl/Resolved.antt =====
-- jsonataddl/compile.go: what resolveRelation finds, as a relation between names and tables, and the
-- end of its recursion.
use tailapps.Prelude.{
  ℕ, zero, suc, ◌+◌, ◌≤◌, ◌<◌, ◌≡◌, refl, ap, sym, ◌∙◌, inl, inr, String, Bool, true, false, List,
  [], ◌∷◌, Option, none, some, Result, ok, err, ◌>>=◌, str_eq, eq_iff, if◌then◌else◌, length,
  Bool-cases, Option-cases, arith,
}
use tailapps.Jsonataddl.Types.{Table, View}
use tailapps.Jsonataddl.Names.{to_lower, same_codes}
use tailapps.Jsonataddl.Views.{
  Schema, find_key, RelationError, undeclared, cycle, in_view, out_of_fuel, on_stack, add_tables,
  within_view, dependency_tables, collect, resolve_view, relation_tables, resolve_relation,
}

-- Whether an error stems from the model's bound on the recursion.
abbrev exhausts : RelationError → Bool
exhausts (undeclared name) = false
exhausts (cycle name) = false
exhausts (in_view name e) = exhausts e
exhausts out_of_fuel = true

-- The code's own answer: tables, or one of its errors.
abbrev pub Returns {ℓ} : {A : Type ℓ} → Result RelationError A → Type 0
Returns (ok a) = Unit
Returns (err e) = exhausts e ≡ false

>>=-Returns {ℓ κ} :
    {A : Type ℓ} {B : Type κ} (step : Result RelationError A) (next : A → Result RelationError B)
    → Returns step
    → ((a : A) → Returns (next a))
    → Returns (step >>= next)
>>=-Returns (ok a) next h k = k a
>>=-Returns (err e) next h k = h

dependency_tables-Returns :
    (name : String) (resolve : String → Result RelationError (List Table)) (dependency : String)
    (o : Option Table)
    → Returns (resolve dependency)
    → Returns (dependency_tables name resolve dependency o)
dependency_tables-Returns name resolve dependency (some t) h = tt
dependency_tables-Returns name resolve dependency none h = within (resolve dependency) h
  where
    within : (r : Result RelationError (List Table)) → Returns r → Returns (within_view name r)
    within (ok ts) k = tt
    within (err e) k = k

collect-Returns :
    (name : String) (resolve : String → Result RelationError (List Table))
    (tables : List (String × Table)) (dependencies : List String) (seen : List Table)
    → ((dependency : String) → Returns (resolve dependency))
    → Returns (collect name resolve tables dependencies seen)
unfolding collect
collect-Returns name resolve tables [] seen h = tt
collect-Returns name resolve tables (dependency ∷ rest) seen h =
    >>=-Returns (dependency_tables name resolve dependency (find_key dependency tables))
      (λ found. collect name resolve tables rest (add_tables found seen))
      (dependency_tables-Returns name resolve dependency (find_key dependency tables)
        (h dependency))
      (λ found. collect-Returns name resolve tables rest (add_tables found seen) h)

-- The views of which the name is not on a stack.
abbrev pub fresh : List (List ℕ) → List (String × View) → ℕ
fresh stack [] = 0
fresh stack ((key, view) ∷ rest) =
    (if on_stack (to_lower key) stack then 0 else 1) + fresh stack rest

same_codes_refl : (xs : List ℕ) → same_codes xs xs ≡ true
unfolding same_codes
same_codes_refl [] = refl
same_codes_refl (x ∷ xs) = ground (arith, same_codes_refl xs)

pub fresh_mono :
    (key : List ℕ) (stack : List (List ℕ)) (views : List (String × View))
    → fresh (key ∷ stack) views ≤ fresh stack views
fresh_mono key stack [] = omega arith
fresh_mono key stack ((name, view) ∷ rest) = ground (arith, fresh_mono key stack rest)

pub fresh_less :
    (name : String) (view : View) (stack : List (List ℕ)) (views : List (String × View))
    → find_key name views ≡ some view
    → on_stack (to_lower name) stack ≡ false
    → fresh (to_lower name ∷ stack) views < fresh stack views
unfolding find_key
fresh_less name view stack [] h k = cc
fresh_less name view stack ((key, v) ∷ rest) h k = elim (Bool-cases (str_eq key name)) [
  | inl e ↦
      rw ((eq_iff key name).0 e, k, same_codes_refl (to_lower name))
        (omega (arith, fresh_mono (to_lower name) stack rest))
  | inr e ↦
      let later : find_key name rest ≡ some view =
        (sym (ap (λ (b : Bool). if b then some v else find_key name rest) e) ∙ h) in
      ground (arith, fresh_less name view stack rest later k)
]

pub fresh-length : (views : List (String × View)) → fresh [] views ≡ length views
fresh-length [] = refl
fresh-length ((key, view) ∷ rest) = omega (arith, fresh-length rest)

resolve_view-Returns :
    (fuel : ℕ) (a : Schema) (stack : List (List ℕ)) (name : String)
    → fresh stack a.views < fuel
    → Returns (resolve_view fuel a stack name)
unfolding resolve_view
resolve_view-Returns zero a stack name h = ground (arith, h)
resolve_view-Returns (suc fuel) a stack name h = elim (Option-cases (find_key name a.views)) [
  | inl e ↦ rw e refl
  | inr (view, e) ↦ elim (Bool-cases (on_stack (to_lower name) stack)) [
    | inl on ↦ rw (e, on) refl
    | inr off ↦
        let less = fresh_less name view stack a.views e off in
        rw (e, off)
          (collect-Returns name (resolve_view fuel a (to_lower name ∷ stack)) a.tables
            view.dependencies []
            (λ dependency.
              resolve_view-Returns fuel a (to_lower name ∷ stack) dependency
                (omega (arith, less, h))))
  ]
]

relation_tables-Returns :
    (a : Schema) (name : String) (o : Option Table) → Returns (relation_tables a name o)
relation_tables-Returns a name (some t) = tt
relation_tables-Returns a name none =
    resolve_view-Returns (suc (length a.views)) a [] name (omega (arith, fresh-length a.views))

-- resolveRelation ends for every schema and name, with tables or with an error of its own, also
-- where views depend on each other in a cycle: the recursion is never deeper than the views are
-- many.
pub resolve_relation-Returns : (a : Schema) (name : String) → Returns (resolve_relation a name)
unfolding resolve_relation
resolve_relation-Returns a name = relation_tables-Returns a name (find_key name a.tables)
