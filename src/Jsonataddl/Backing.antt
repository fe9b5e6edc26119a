-- ===== src/Jsonataddl/Backing.antt =====
-- jsonataddl/compile.go: the tables that resolveRelation and resolveView find behind a relation.
use tailapps.Prelude.{
  ℕ, ◌≡◌, refl, ap, sym, ◌∙◌, inl, inr, ◌↔◌, String, Bool, true, ◌||◌, List, [], ◌∷◌, ◌++◌, any,
  any-append, none, some, Result, ok, >>=-eq-ok, str_eq, eq_iff, ==_iff, All, All-append,
  Bool-cases, arith,
}
use tailapps.Jsonataddl.Types.{Table, View}
use tailapps.Jsonataddl.Names.{to_lower, same_codes}
use tailapps.Jsonataddl.Views.{
  Schema, find_key, RelationError, add_table, add_tables, dependency_tables, collect,
}

-- A table stands behind a relation: it has that name, or it stands behind a dependency of the view
-- that has that name.
mutual
  pub data Backs (a : Schema) : String → Table → Type 0 where
    itself : {name : String} {t : Table} → find_key name a.tables ≡ some t → Backs a name t
    through :
        {name : String} {t : Table}
        → find_key name a.tables ≡ none
        → Behind a name t
        → Backs a name t

  pub data Behind (a : Schema) : String → Table → Type 0 where
    behind :
        {name dependency : String} {view : View} {t : Table}
        → find_key name a.views ≡ some view
        → any (λ d. str_eq d dependency) view.dependencies ≡ true
        → Backs a dependency t
        → Behind a name t

-- Whether a table of the name, by lower case, is among some.
abbrev pub is_among : Table → List Table → Bool
is_among t = any (λ s. same_codes (to_lower s.name) (to_lower t.name))

pub same_codes_iff : (xs ys : List ℕ) → (same_codes xs ys ≡ true) ↔ (xs ≡ ys)
unfolding same_codes
same_codes_iff [] [] = ((λ h. refl), λ h. refl)
same_codes_iff [] (y ∷ ys) = ((λ h. cc), λ h. cc)
same_codes_iff (x ∷ xs) [] = ((λ h. cc), λ h. cc)
same_codes_iff (x ∷ xs) (y ∷ ys) =
    let head = ==_iff x y in
    let tail = same_codes_iff xs ys in
    (
      (λ h.
          let e : x ≡ y = head.0 (ground (arith, h)) in
          let f : xs ≡ ys = tail.0 (ground (arith, h)) in rw (e, f) refl),
      λ h. let e : x ≡ y = cc in let f : xs ≡ ys = cc in rw (head.1 e, tail.1 f) refl,
    )

-- All the tables found have a property, if what each dependency gives has it.
module _ {κ} (P : Table → Type κ) where
  add_table-All : (t : Table) (seen : List Table) → P t → All P seen → All P (add_table t seen)
  add_table-All t seen h k = elim (Bool-cases (is_among t seen)) [
    | inl e ↦ rw e k
    | inr e ↦ rw e (All-append P seen (t ∷ []) k (h, tt))
  ]

  add_tables-All : (ts seen : List Table) → All P ts → All P seen → All P (add_tables ts seen)
  add_tables-All [] seen h k = k
  add_tables-All (t ∷ ts) seen h k =
      add_tables-All ts (add_table t seen) h.1 (add_table-All t seen h.0 k)

  pub collect-All :
      (name : String) (resolve : String → Result RelationError (List Table))
      (tables : List (String × Table)) (dependencies : List String) (seen found : List Table)
      → ((dependency : String) (ts : List Table)
          → any (λ d. str_eq d dependency) dependencies ≡ true
          → dependency_tables name resolve dependency (find_key dependency tables) ≡ ok ts
          → All P ts)
      → All P seen
      → collect name resolve tables dependencies seen ≡ ok found
      → All P found
  unfolding collect
  collect-All name resolve tables [] seen found each k h = let e : seen ≡ found = cc in rw (sym e) k
  collect-All name resolve tables (dependency ∷ rest) seen found each k h =
      let last : List Table → Result RelationError (List Table) =
        λ ts. collect name resolve tables rest (add_tables ts seen) in
      let (ts, read, then1) =
        >>=-eq-ok (dependency_tables name resolve dependency (find_key dependency tables)) last h in
      let first : str_eq dependency dependency ≡ true = (eq_iff dependency dependency).1 refl in
      collect-All name resolve tables rest (add_tables ts seen) found
        (λ d us e. each d us (ground (arith, e)))
        (add_tables-All ts seen (each dependency ts (ground (arith, first)) read) k) then1

-- A table that was found stays found.
is_among-append :
    (t : Table) (xs ys : List Table) → is_among t xs ≡ true → is_among t (xs ++ ys) ≡ true
is_among-append t xs ys h =
    any-append (λ s. same_codes (to_lower s.name) (to_lower t.name)) xs ys
    ∙ ap (λ b. b || is_among t ys) h

add_table-kept :
    (t u : Table) (seen : List Table)
    → is_among t seen ≡ true
    → is_among t (add_table u seen) ≡ true
add_table-kept t u seen h = elim (Bool-cases (is_among u seen)) [
  | inl e ↦ rw e h
  | inr e ↦ rw e (is_among-append t seen (u ∷ []) h)
]

pub add_tables-kept :
    (t : Table) (ts seen : List Table)
    → is_among t seen ≡ true
    → is_among t (add_tables ts seen) ≡ true
add_tables-kept t [] seen h = h
add_tables-kept t (u ∷ ts) seen h =
    add_tables-kept t ts (add_table u seen) (add_table-kept t u seen h)

pub collect-kept :
    (t : Table) (name : String) (resolve : String → Result RelationError (List Table))
    (tables : List (String × Table)) (dependencies : List String) (seen found : List Table)
    → is_among t seen ≡ true
    → collect name resolve tables dependencies seen ≡ ok found
    → is_among t found ≡ true
unfolding collect
collect-kept t name resolve tables [] seen found k h = let e : seen ≡ found = cc in rw (sym e) k
collect-kept t name resolve tables (dependency ∷ rest) seen found k h =
    let last : List Table → Result RelationError (List Table) =
      λ ts. collect name resolve tables rest (add_tables ts seen) in
    let (ts, read, then1) =
      >>=-eq-ok (dependency_tables name resolve dependency (find_key dependency tables)) last h in
    collect-kept t name resolve tables rest (add_tables ts seen) found (add_tables-kept t ts seen k)
      then1
