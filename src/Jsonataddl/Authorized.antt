-- ===== src/Jsonataddl/Authorized.antt =====
-- jsonataddl/authorizer.go: ReadAuthorizer gives a callback, which denies by default.
use tailapps.Prelude.{
  ℕ, zero, suc, ◌≤◌, ◌<◌, ◌≡◌, refl, ap, inl, inr, String, false, List, [], ◌∷◌, map, Option, none,
  some, length, Bool-cases, arith,
}
use tailapps.Jsonataddl.Types.{Column, Table, View, Read, Program}
use tailapps.Jsonataddl.Names.{to_lower}
use tailapps.Jsonataddl.Views.{Schema, find_key, on_stack}
use tailapps.Jsonataddl.Resolved.{fresh, fresh_mono, fresh_less, fresh-length}
use tailapps.Jsonataddl.Authorizer.{
  Columns, Admission, admit, and_then, admit_all, admit_found, admit_relation, admit_reads, Action,
  ReturnCode, authorize, find_program, read_authorizer,
}

module _ (a : Schema) where
  -- A call that returns, with at least the names seen that were seen before.
  abbrev Ends : Option Admission → Admission → Type 0
  Ends o s = (s' : Admission) × (o ≡ some s') × (fresh s'.seen a.views ≤ fresh s.seen a.views)

  and_then-Ends :
      (o : Option Admission) (next : Admission → Option Admission) (s : Admission)
      → Ends o s
      → ((u : Admission) → fresh u.seen a.views ≤ fresh s.seen a.views → Ends (next u) u)
      → Ends (and_then o next) s
  and_then-Ends o next s (u, e, f) k = let (v, g, i) = k u f in rw e (v, g, omega (arith, f, i))

  admit_all-Ends :
      (fuel : ℕ) (recur : String → Admission → Option Admission) (dependencies : List String)
      (s : Admission)
      → ((d : String) (u : Admission) → fresh u.seen a.views < fuel → Ends (recur d u) u)
      → fresh s.seen a.views < fuel
      → Ends (admit_all recur dependencies s) s
  unfolding admit_all
  admit_all-Ends fuel recur [] s each h = (s, refl, omega arith)
  admit_all-Ends fuel recur (d ∷ rest) s each h =
      and_then-Ends (recur d s) (admit_all recur rest) s (each d s h)
        (λ u f. admit_all-Ends fuel recur rest u each (omega (arith, f, h)))

  admit_relation-Ends :
      (fuel : ℕ) (name : String) (s : Admission)
      → fresh s.seen a.views < fuel
      → Ends (admit_relation fuel a name s) s
  unfolding admit_relation
  admit_relation-Ends zero name s h = ground (arith, h)
  admit_relation-Ends (suc fuel) name s h = elim (Bool-cases (on_stack (to_lower name) s.seen)) [
    | inl on ↦ rw on (s, refl, omega arith)
    | inr off ↦
        let marked : Admission = record s { seen = to_lower name ∷ s.seen } in
        let (u, e, f) =
          found marked refl off (find_key name a.tables) (find_key name a.views) refl
            (λ d u less. admit_relation-Ends fuel d u less) in
        rw off (u, e, f)
  ]
    where
      found :
          (marked : Admission)
          → marked.seen ≡ to_lower name ∷ s.seen
          → on_stack (to_lower name) s.seen ≡ false
          → (o : Option Table) (v : Option View) → find_key name a.views ≡ v
          → ((d : String) (u : Admission)
              → fresh u.seen a.views < fuel
              → Ends (admit_relation fuel a d u) u)
          → Ends (admit_found (admit_relation fuel a) name o v marked) s
      found marked e off (some t) v k each = (
        admit name (some (map (λ (column : Column). to_lower column.name) t.columns)) marked,
        refl,
        rw e (fresh_mono (to_lower name) s.seen a.views),
      )
      found marked e off none none k each =
          (marked, refl, rw e (fresh_mono (to_lower name) s.seen a.views))
      found marked e off none (some view) k each =
          let less = fresh_less name view s.seen a.views k off in
          let start = admit name none marked in
          let same : fresh start.seen a.views ≡ fresh (to_lower name ∷ s.seen) a.views =
            ap (λ seen. fresh seen a.views) e in
          let (u, f, g) =
            admit_all-Ends fuel (admit_relation fuel a) view.dependencies start each
              (omega (arith, same, less, h)) in
          (u, f, omega (arith, g, same, less))

  admit_reads-total :
      (reads : List Read) (admitted : List (List ℕ × Columns))
      → (result : List (List ℕ × Columns)) × (admit_reads a reads admitted ≡ some result)
  unfolding admit_reads
  admit_reads-total [] admitted = (admitted, refl)
  admit_reads-total (read ∷ reads) admitted =
      let start : Admission = record { admitted = admitted; seen = [] } in
      let (s, e, f) =
        admit_relation-Ends (suc (length a.views)) read.table start
          (omega (arith, fresh-length a.views)) in
      let (result, g) = admit_reads-total reads s.admitted in (result, rw e g)

  -- ReadAuthorizer returns a callback for every program that the application has, whatever its views
  -- depend on: the walk over the views ends.
  pub read_authorizer-total :
      (normalizer program : Program) (folds : List Program) (name : String)
      → find_program normalizer folds name ≡ some program
      → (callback : (Action → String → String → String → ReturnCode)) × (read_authorizer a
            normalizer folds name
          ≡ some callback)
  unfolding read_authorizer
  read_authorizer-total normalizer program folds name h =
      let (admitted, e) = admit_reads-total program.reads [] in (authorize admitted, rw (h, e) refl)
