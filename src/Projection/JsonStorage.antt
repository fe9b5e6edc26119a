-- ===== src/Projection/JsonStorage.antt =====
-- internal/projection/projection.go: what checkJSONStorage has found of the tables.
use tailapps.Prelude.{
  arith, String, Bool, true, false, ◌≡◌, List, [], ◌∷◌, ok, ◌>>=◌, guard, All, str_eq, >>=-eq-ok,
  if◌then◌else◌, str_ltb,
}
use tailapps.Projection.Types.{Column, Table, elements}
use tailapps.Projection.Host.{Host}
use tailapps.Projection.Evaluation.{sift, sort_from, by_key}
use tailapps.Projection.Compatible.{failure}
use tailapps.Projection.Schema.{
  is_json_text, check_column, check_columns, check_storage, check_json_storage,
}

sift-All :
    {V : Type 0} (P : String × V → Type 0) (x : String × V) (es : List (String × V))
    → All P (sift x es)
    → P x × All P es
sift-All P x [] h = h
sift-All P (k, v) ((j, w) ∷ rest) h = below (sift-All P (k, v) rest) (str_ltb k j) h
  where
    below :
        (All P (sift (k, v) rest) → P (k, v) × All P rest)
        → (b : Bool) → All P (if b then (k, v) ∷ (j, w) ∷ rest else (j, w) ∷ sift (k, v) rest)
        → P (k, v) × All P ((j, w) ∷ rest)
    below deeper true g = g
    below deeper false g = let (here, others) = deeper g.1 in (here, (g.0, others))

sort_from-All :
    {V : Type 0} (P : String × V → Type 0) (sorted es : List (String × V))
    → All P (sort_from sorted es)
    → All P sorted × All P es
sort_from-All P sorted [] h = (h, tt)
sort_from-All P sorted (x ∷ rest) h =
    let (before, later) = sort_from-All P (sift x sorted) rest h in
    let (here, others) = sift-All P x sorted before in (others, (here, later))

module _ (host : Host) where
  open host use {Rows, exec, schema_objects, declared_type, marshal_table}

  -- A column of type JSON is declared as such in the database.
  abbrev pub JsonDeclared : Rows → String → Column → Type 0
  JsonDeclared rows name column =
      (str_eq column.type "JSON" ≡ true)
      → (declared : String) × (declared_type rows name column.name ≡ ok declared)
        × (is_json_text declared ≡ true)

  abbrev pub JsonStored : Rows → String × Table → Type 0
  JsonStored rows entry = All (JsonDeclared rows entry.0) (elements entry.1.columns)

  check_column-JsonDeclared :
      (rows : Rows) (name : String) (column : Column)
      → check_column host rows name column ≡ ok tt
      → JsonDeclared rows name column
  check_column-JsonDeclared rows name column h json =
      let stale = failure "continuation cannot migrate existing JSON values" in
      let asked : (declared_type rows name column.name >>= λ d. guard (is_json_text d) stale)
          ≡ ok tt =
        ground (arith, h, json) in
      let (declared, found, checked) =
        >>=-eq-ok (declared_type rows name column.name) (λ d. guard (is_json_text d) stale) asked in
      (declared, found, ground (arith, checked))

  check_columns-All :
      (rows : Rows) (name : String) (columns : List Column)
      → check_columns host rows name columns ≡ ok tt
      → All (JsonDeclared rows name) columns
  unfolding check_columns
  check_columns-All rows name [] h = tt
  check_columns-All rows name (column ∷ rest) h =
      let (u, first, later) =
        >>=-eq-ok (check_column host rows name column) (λ u. check_columns host rows name rest) h in
      (check_column-JsonDeclared rows name column first, check_columns-All rows name rest later)

  check_storage-All :
      (rows : Rows) (tables : List (String × Table))
      → check_storage host rows tables ≡ ok tt
      → All (JsonStored rows) tables
  unfolding check_storage
  check_storage-All rows [] h = tt
  check_storage-All rows ((name, t) ∷ rest) h =
      let (u, first, later) =
        >>=-eq-ok (check_columns host rows name (elements t.columns))
          (λ u. check_storage host rows rest) h in
      (check_columns-All rows name (elements t.columns) first, check_storage-All rows rest later)

  pub check_json_storage-All :
      (tables : List (String × Table)) (rows : Rows)
      → check_json_storage host tables rows ≡ ok tt
      → All (JsonStored rows) tables
  check_json_storage-All tables rows h =
      (sort_from-All (JsonStored rows) [] tables (check_storage-All rows (by_key tables) h)).1
