-- ===== src/Jsonataddl/Found.antt =====
-- jsonataddl/compile.go: resolveRelation finds what stands behind a relation, and nothing else.
use tailapps.Prelude.{
  ℕ, zero, suc, ◌≡◌, refl, ap, sym, ◌∙◌, inl, inr, String, Bool, true, false, List, [], ◌∷◌, ◌++◌,
  any, Option, none, some, Result, ok, err, >>=-eq-ok, str_eq, eq_iff, if◌then◌else◌, length, All,
  All-map, Bool-cases, arith, any-append,
}
use tailapps.Jsonataddl.Types.{Table, View}
use tailapps.Jsonataddl.Names.{to_lower, same_codes}
use tailapps.Jsonataddl.Views.{
  Schema, find_key, RelationError, cycle, on_stack, add_table, add_tables, within_view,
  dependency_tables, collect, resolve_from, resolve_view, relation_tables, resolve_relation,
}
use tailapps.Jsonataddl.Backing.{
  Backs, itself, through, Behind, behind, is_among, same_codes_iff, collect-All, add_tables-kept,
  collect-kept,
}

is_among_last :
    (t u : Table) (seen : List Table)
    → to_lower u.name ≡ to_lower t.name
    → is_among t (seen ++ u ∷ []) ≡ true
is_among_last t u seen e =
    let same = (same_codes_iff (to_lower u.name) (to_lower t.name)).1 e in
    let joined =
      any-append (λ (s : Table). same_codes (to_lower s.name) (to_lower t.name)) seen (u ∷ []) in
    rw joined (ground (arith, same))

add_table-same :
    (t u : Table) (seen : List Table)
    → to_lower u.name ≡ to_lower t.name
    → is_among t (add_table u seen) ≡ true
add_table-same t u seen e = elim (Bool-cases (is_among u seen)) [
  | inl on ↦
      rw on (ap (λ key. any (λ (s : Table). same_codes (to_lower s.name) key) seen) (sym e) ∙ on)
  | inr off ↦ rw off (is_among_last t u seen e)
]

add_tables-new :
    (t : Table) (ts seen : List Table)
    → is_among t ts ≡ true
    → is_among t (add_tables ts seen) ≡ true
add_tables-new t [] seen h = cc
add_tables-new t (u ∷ ts) seen h =
    elim (Bool-cases (same_codes (to_lower u.name) (to_lower t.name))) [
      | inl e ↦
          add_tables-kept t ts (add_table u seen)
            (add_table-same t u seen ((same_codes_iff (to_lower u.name) (to_lower t.name)).0 e))
      | inr e ↦ add_tables-new t ts (add_table u seen) (ground (arith, e, h))
    ]

-- What a dependency gives is found.
collect-new :
    (t : Table) (name : String) (resolve : String → Result RelationError (List Table))
    (tables : List (String × Table)) (dependencies : List String) (seen found : List Table)
    (dependency : String)
    → any (λ d. str_eq d dependency) dependencies ≡ true
    → ((ts : List Table)
        → dependency_tables name resolve dependency (find_key dependency tables) ≡ ok ts
        → is_among t ts ≡ true)
    → collect name resolve tables dependencies seen ≡ ok found
    → is_among t found ≡ true
unfolding collect
collect-new t name resolve tables [] seen found dependency e each h = cc
collect-new t name resolve tables (d ∷ rest) seen found dependency e each h =
    let last : List Table → Result RelationError (List Table) =
      λ ts. collect name resolve tables rest (add_tables ts seen) in
    let (ts, read, then1) =
      >>=-eq-ok (dependency_tables name resolve d (find_key d tables)) last h in
    elim (Bool-cases (str_eq d dependency)) [
      | inl same ↦
          let here : dependency_tables name resolve dependency (find_key dependency tables)
              ≡ ok ts =
            subst_name d dependency ((eq_iff d dependency).0 same) ts read in
          collect-kept t name resolve tables rest (add_tables ts seen) found
            (add_tables-new t ts seen (each ts here)) then1
      | inr other ↦
          collect-new t name resolve tables rest (add_tables ts seen) found dependency
            (ground (arith, other, e)) each then1
    ]
  where
    subst_name :
        (d e : String)
        → d ≡ e
        → (ts : List Table) → dependency_tables name resolve d (find_key d tables) ≡ ok ts
        → dependency_tables name resolve e (find_key e tables) ≡ ok ts
    subst_name d e same ts h =
        ap (λ x. dependency_tables name resolve x (find_key x tables)) (sym same) ∙ h

within_view_ok :
    (name : String) (r : Result RelationError (List Table)) (ts : List Table)
    → within_view name r ≡ ok ts
    → r ≡ ok ts
within_view_ok name (ok us) ts h = h
within_view_ok name (err e) ts h = cc

module _ (a : Schema) where
  abbrev next : List (List ℕ) → String → ℕ → String → Result RelationError (List Table)
  next stack name fuel = resolve_view fuel a (to_lower name ∷ stack)

  off_stack :
      (b : Bool) (name : String) (r : Result RelationError (List Table)) (ts : List Table)
      → (if b then err (cycle name) else r) ≡ ok ts
      → r ≡ ok ts
  off_stack true name r ts h = cc
  off_stack false name r ts h = h

  -- What a successful call has gone through.
  view_found :
      (fuel : ℕ) (stack : List (List ℕ)) (name : String) (ts : List Table) (o : Option View)
      → resolve_from (resolve_view fuel a) a name stack o ≡ ok ts
      → (view : View) × (o ≡ some view)
        × (collect name (next stack name fuel) a.tables view.dependencies [] ≡ ok ts)
  view_found fuel stack name ts none h = cc
  view_found fuel stack name ts (some view) h = (
    view,
    refl,
    off_stack (on_stack (to_lower name) stack) name
        (collect name (next stack name fuel) a.tables view.dependencies []) ts h,
  )

  -- The tables of a dependency stand behind it, if those of a view stand behind the view.
  dependency-Backs :
      (name dependency : String) (r : Result RelationError (List Table)) (us : List Table)
      (o : Option Table)
      → find_key dependency a.tables ≡ o
      → (r ≡ ok us → All (Behind a dependency) us)
      → dependency_tables name (λ d. r) dependency o ≡ ok us
      → All (Backs a dependency) us
  dependency-Backs name dependency r us (some t) e k h =
      let f : t ∷ [] ≡ us = cc in rw (sym f) (itself e, tt)
  dependency-Backs name dependency r us none e k h =
      All-map (λ t b. through e b) us (k (within_view_ok name r us h))

  resolve_view-Behind :
      (fuel : ℕ) (stack : List (List ℕ)) (name : String) (ts : List Table)
      → resolve_view fuel a stack name ≡ ok ts
      → All (Behind a name) ts
  unfolding resolve_view
  resolve_view-Behind zero stack name ts h = cc
  resolve_view-Behind (suc fuel) stack name ts h =
      let (view, e, run) = view_found fuel stack name ts (find_key name a.views) h in
      collect-All (Behind a name) name (next stack name fuel) a.tables view.dependencies [] ts
        (λ dependency us declared read.
          All-map (λ t b. behind e declared b) us
            (dependency-Backs name dependency (next stack name fuel dependency) us
              (find_key dependency a.tables) refl
              (resolve_view-Behind fuel (to_lower name ∷ stack) dependency us) read))
        tt run

  among_self : (t : Table) → is_among t (t ∷ []) ≡ true
  among_self t =
      let e = (same_codes_iff (to_lower t.name) (to_lower t.name)).1 refl in ground (arith, e)

  dependency-is_among :
      (name dependency : String) (r : Result RelationError (List Table)) (us : List Table)
      (t : Table) (o : Option Table)
      → find_key dependency a.tables ≡ o
      → Backs a dependency t
      → (Behind a dependency t → r ≡ ok us → is_among t us ≡ true)
      → dependency_tables name (λ d. r) dependency o ≡ ok us
      → is_among t us ≡ true
  dependency-is_among name dependency r us t (some u) e (itself f) k h =
      let same : u ≡ t = cc in let given : u ∷ [] ≡ us = cc in rw (sym given, same) (among_self t)
  dependency-is_among name dependency r us t (some u) e (through f b) k h = cc
  dependency-is_among name dependency r us t none e (itself f) k h = cc
  dependency-is_among name dependency r us t none e (through f b) k h =
      k b (within_view_ok name r us h)

  Behind-is_among :
      (fuel : ℕ) (stack : List (List ℕ)) (name : String) (t : Table) (ts : List Table)
      → Behind a name t
      → resolve_view fuel a stack name ≡ ok ts
      → is_among t ts ≡ true
  unfolding resolve_view
  Behind-is_among zero stack name t ts b h = cc
  Behind-is_among (suc fuel) stack name t ts (behind {dependency} {view = declared} e d b) h =
      let (view, f, run) = view_found fuel stack name ts (find_key name a.views) h in
      let same : declared ≡ view = cc in
      collect-new t name (next stack name fuel) a.tables view.dependencies [] ts dependency
        (rw (sym same) d)
        (λ us read.
          dependency-is_among name dependency (next stack name fuel dependency) us t
            (find_key dependency a.tables) refl b
            (Behind-is_among fuel (to_lower name ∷ stack) dependency t us) read)
        run

  relation_tables-Backs :
      (name : String) (ts : List Table) (o : Option Table)
      → find_key name a.tables ≡ o
      → relation_tables a name o ≡ ok ts
      → All (Backs a name) ts × ((t : Table) → Backs a name t → is_among t ts ≡ true)
  relation_tables-Backs name ts (some u) e h =
      let f : u ∷ [] ≡ ts = cc in
      let all : All (Backs a name) (u ∷ []) = (itself e, tt) in
      (rw (sym f) all, λ t b. rw (sym f) (only t b))
    where
      only : (t : Table) → Backs a name t → is_among t (u ∷ []) ≡ true
      only t (itself g) = let same : u ≡ t = cc in rw same (among_self t)
      only t (through g b) = cc
  relation_tables-Backs name ts none e h = (
    All-map (λ t b. through e b) ts (resolve_view-Behind (suc (length a.views)) [] name ts h),
    λ t b. only t b,
  )
    where
      only : (t : Table) → Backs a name t → is_among t ts ≡ true
      only t (itself g) = cc
      only t (through g b) = Behind-is_among (suc (length a.views)) [] name t ts b h

  -- Where resolveRelation gives tables, each of them stands behind the relation, and each table that
  -- stands behind the relation, through however many views, is among them by its lower-case name.
  pub resolve_relation-Backs :
      (name : String) (ts : List Table)
      → resolve_relation a name ≡ ok ts
      → All (Backs a name) ts × ((t : Table) → Backs a name t → is_among t ts ≡ true)
  unfolding resolve_relation
  resolve_relation-Backs name ts h = relation_tables-Backs name ts (find_key name a.tables) refl h
