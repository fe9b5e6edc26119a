-- ===== src/Projection/Executed.antt =====
-- internal/projection/projection.go: the schema statements that `Continue` executes, in order.
use tailapps.Prelude.{
  String, Bool, true, false, ◌≡◌, List, [], ◌∷◌, map, ok, ◌>>=◌, >>=-eq-ok, if◌then◌else◌,
}
use tailapps.Projection.Types.{Table}
use tailapps.Projection.Host.{Host}
use tailapps.Projection.Evaluation.{member}
use tailapps.Projection.Process.{is_some}
use tailapps.Projection.Schema.{
  drop_statement, export_statement, create_tables, drop_objects, replace_schema, create_exports,
}

-- The statements that create the tables that the old revision has not.
abbrev pub additive : List (String × Table) → List (String × Table) → List String
additive old [] = []
additive old ((name, t) ∷ rest) =
    let later = additive old rest in if is_some (member name old) then later else t.sql ∷ later

module _ (host : Host) where
  open host use {Rows, exec, schema_objects, declared_type, marshal_table}

  -- The statements succeed one after another.
  abbrev pub Executes : List String → Rows → Rows → Type 0
  Executes [] r r' = r ≡ r'
  Executes (s ∷ ss) r r' = (m : Rows) × (exec s r ≡ ok m) × Executes ss m r'

  pub create_tables-Executes :
      (old next : List (String × Table)) (r r' : Rows)
      → create_tables host old next r ≡ ok r'
      → Executes (additive old next) r r'
  unfolding create_tables
  create_tables-Executes old [] r r' h = let e : r ≡ r' = cc in e
  create_tables-Executes old ((name, t) ∷ rest) r r' h =
      added (λ m. create_tables-Executes old rest m r') (is_some (member name old)) h
    where
      added :
          ((m : Rows) → create_tables host old rest m ≡ ok r' → Executes (additive old rest) m r')
          → (b : Bool)
          → ((if b then ok r else exec t.sql r) >>= create_tables host old rest) ≡ ok r'
          → Executes (if b then additive old rest else t.sql ∷ additive old rest) r r'
      added later true g = later r g
      added later false g =
          let (m, made, others) = >>=-eq-ok (exec t.sql r) (create_tables host old rest) g in
          (m, made, later m others)

  pub drop_objects-Executes :
      (objects : List (String × String)) (r r' : Rows)
      → drop_objects host objects r ≡ ok r'
      → Executes (map drop_statement objects) r r'
  unfolding drop_objects
  drop_objects-Executes [] r r' h = let e : r ≡ r' = cc in e
  drop_objects-Executes (object ∷ rest) r r' h =
      let (m, done, later) =
        >>=-eq-ok (exec (drop_statement object) r) (drop_objects host rest) h in
      (m, done, drop_objects-Executes rest m r' later)

  pub replace_schema-Executes :
      (statements : List String) (r r' : Rows)
      → replace_schema host statements r ≡ ok r'
      → Executes statements r r'
  unfolding replace_schema
  replace_schema-Executes [] r r' h = let e : r ≡ r' = cc in e
  replace_schema-Executes (s ∷ rest) r r' h =
      let (m, done, later) = >>=-eq-ok (exec s r) (replace_schema host rest) h in
      (m, done, replace_schema-Executes rest m r' later)

  pub create_exports-Executes :
      (es : List (String × String)) (r r' : Rows)
      → create_exports host es r ≡ ok r'
      → Executes (map export_statement es) r r'
  unfolding create_exports
  create_exports-Executes [] r r' h = let e : r ≡ r' = cc in e
  create_exports-Executes (e ∷ rest) r r' h =
      let (m, done, later) = >>=-eq-ok (exec (export_statement e) r) (create_exports host rest) h in
      (m, done, create_exports-Executes rest m r' later)
