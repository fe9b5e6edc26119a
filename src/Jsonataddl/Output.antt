-- ===== src/Jsonataddl/Output.antt =====
-- jsonataddl/evaluate.go: validateOutput and validateChangeRow.
use tailapps.Prelude.{
  ℕ, ◌+◌, String, Bool, true, false, not, ◌&&◌, ◌||◌, List, [], ◌∷◌, any, Option, none, some,
  Result, ok, err, ◌>>◌, ◌>>=◌, guard, str_eq, leb, ◌==◌, if◌then◌else◌, length,
}
use tailapps.Jsonataddl.Types.{Json, Codec, Column, Table, Program, Limits}
use tailapps.Jsonataddl.Names.{key_columns_of}
use tailapps.Jsonataddl.Values.{ValueError, validate_value}

-- A raw message, before it is decoded.
abbrev pub Raw : Type 0
Raw = List ℕ

pub record RawChanges : Type 0 where
  pub insert : List Raw
  pub upsert : List Raw
  pub delete : List Raw

-- The decoded top level of an output; `none` where a field is null or missing.
pub record RawResult : Type 0 where
  pub decision : String
  pub facts : Option (List Raw)
  pub events : List (String × List Raw)
  pub tables : Option (List (String × Raw))

abbrev pub Row : Type 0
Row = List (String × Json)

pub record TableChanges : Type 0 where
  pub insert : List Row
  pub upsert : List Row
  pub delete : List Row

pub record EvaluationResult : Type 0 where
  pub decision : String
  pub facts : List Row
  pub events : List (String × List Row)
  pub tables : List (String × TableChanges)

-- encoding/json: the strict decoding of an output (one value, no unknown fields), of a table's
-- changes, and of one object.
pub record Decoder : Type 0 where
  pub decode_result : List ℕ → Option RawResult
  pub decode_changes : Raw → Option RawChanges
  pub decode_object : Raw → Option Row

pub data OutputError : Type 0 where
  not_one_object invalid_decision facts_missing too_many_facts tables_missing : OutputError
  invalid_fact folds_cannot_emit too_many_events too_many_row_changes : OutputError
  undeclared_event undeclared_table : String → OutputError
  invalid_event : String → OutputError
  invalid_changes : String → OutputError
  invalid_row : String → OutputError
  undeclared_column missing_column : String → OutputError
  invalid_column : String → ValueError → OutputError
  ineffective_changes : OutputError

module _ (c : Codec) where
  -- `allowed[name]`: of columns of one name the last one is kept.
  unfoldable pub find_column : String → List Column → Option Column
  find_column name [] = none
  find_column name (column ∷ rest) =
      let later = find_column name rest in
      let here = if str_eq column.name name then some column else none in
      elim later [ none ↦ here | some found ↦ some found ]

  abbrev pub column_value : String → Result ValueError (Unit {0}) → Result OutputError (Unit {0})
  column_value name (ok done) = ok tt
  column_value name (err e) = err (invalid_column name e)

  abbrev pub check_entry : String → Json → Option Column → Result OutputError (Unit {0})
  check_entry name v none = err (undeclared_column name)
  check_entry name v (some column) =
      column_value name (validate_value c v column.type (column.not_null || column.primary_key))

  unfoldable pub check_entries : List Column → Row → Result OutputError (Unit {0})
  check_entries columns [] = ok tt
  check_entries columns (e ∷ es) =
      check_entry e.0 e.1 (find_column e.0 columns) >> check_entries columns es

  abbrev pub holds : Row → String → Bool
  holds row name = any (λ e. str_eq e.0 name) row

  unfoldable pub check_present : Bool → Row → List Column → Result OutputError (Unit {0})
  check_present complete row [] = ok tt
  check_present complete row (column ∷ rest) =
      guard
        (not ((complete || column.not_null || column.primary_key) && not (holds row column.name)))
        (missing_column column.name)
      >> check_present complete row rest

  unfoldable pub validate_change_row : Row → List Column → Bool → Result OutputError (Unit {0})
  validate_change_row row columns complete =
      check_entries columns row >> check_present complete row columns

abbrev pub decoded {ℓ} : {A : Type ℓ} → OutputError → Option A → Result OutputError A
decoded failure none = err failure
decoded failure (some a) = ok a

module _ (d : Decoder) where
  unfoldable pub decode_facts : List Raw → Result OutputError (List Row)
  decode_facts [] = ok []
  decode_facts (raw ∷ rest) = decoded invalid_fact (d.decode_object raw) >>= λ row.
      decode_facts rest >>= λ rows. ok (row ∷ rows)

-- The loop over encoded rows: each is decoded and checked.
module _ (c : Codec) (d : Decoder) where
  unfoldable pub decode_rows :
      OutputError → List Column → Bool → List Raw → Result OutputError (List Row)
  decode_rows failure columns complete [] = ok []
  decode_rows failure columns complete (raw ∷ rest) =
      decoded failure (d.decode_object raw) >>= λ row.
      validate_change_row c row columns complete
      >> (decode_rows failure columns complete rest >>= λ rows. ok (row ∷ rows))

-- A key of the result's map is made by its first row.
abbrev pub with_rows : String → List Row → List (String × List Row) → List (String × List Row)
with_rows name [] rest = rest
with_rows name rows rest = (name, rows) ∷ rest

-- What the validation reads of an application and its dialect.
pub record Plan : Type 0 where
  pub program : Program
  pub event_name : String
  pub event_columns : List Column
  pub tables : List (String × Table)
  pub limits : Limits

-- The zero value of a table, for a name that the application lacks.
abbrev no_table : Table
no_table = record {
  name = "";
  columns = [];
  primary_key = [];
  unique_keys = [];
  storage_shape = "";
  sql = "";
  writer = "";
}

unfoldable pub find_table : String → List (String × Table) → Table
find_table name [] = no_table
find_table name ((key, t) ∷ rest) =
    let later = find_table name rest in if str_eq key name then t else later

abbrev row_count : TableChanges → ℕ
row_count changes = length changes.insert + length changes.upsert + length changes.delete

module _ (c : Codec) (d : Decoder) (p : Plan) where
  unfoldable pub check_events :
      List (String × List Raw) → Result OutputError (List (String × List Row))
  check_events [] = ok []
  check_events ((name, payloads) ∷ rest) =
      guard (p.program.normalizer && str_eq name p.event_name) (undeclared_event name)
      >> (guard (leb (length payloads) p.limits.max_events) too_many_events
          >> (decode_rows c d (invalid_event name) p.event_columns true payloads >>= λ rows.
              check_events rest >>= λ later. ok (with_rows name rows later)))

  -- The operations of a table's change set.
  unfoldable pub check_changes : String → Table → RawChanges → Result OutputError TableChanges
  check_changes name t raw =
      decode_rows c d (invalid_row name) t.columns true raw.insert >>= λ inserts.
      decode_rows c d (invalid_row name) t.columns true raw.upsert >>= λ upserts.
      decode_rows c d (invalid_row name) (key_columns_of t) false raw.delete >>= λ deletes.
      ok (record { insert = inserts; upsert = upserts; delete = deletes })

  unfoldable pub check_tables :
      List (String × Raw) → Result OutputError (List (String × TableChanges))
  check_tables [] = ok []
  check_tables ((name, raw) ∷ rest) =
      guard (any (λ w. str_eq w name) p.program.writes) (undeclared_table name)
      >> (decoded (invalid_changes name) (d.decode_changes raw) >>= λ changes.
          check_changes name (find_table name p.tables) changes >>= λ checked.
          check_tables rest >>= λ later. ok ((name, checked) ∷ later))

  unfoldable pub row_changes : List (String × TableChanges) → ℕ
  row_changes [] = 0
  row_changes ((name, changes) ∷ rest) = row_count changes + row_changes rest

  abbrev pub is_empty {ℓ} : {A : Type ℓ} → List A → Bool
  is_empty [] = true
  is_empty (x ∷ xs) = false

  -- The last two tests, and the result.
  unfoldable pub finish_output :
      String
      → List Row
      → List (String × List Row)
      → List (String × TableChanges)
      → Result OutputError EvaluationResult
  finish_output decision facts events tables =
      guard (leb (row_changes tables) p.limits.max_row_changes) too_many_row_changes
      >> (guard
            (not (
              str_eq decision "ineffective"
              && (not (is_empty events) || not (row_changes tables == 0))))
            ineffective_changes
          >> ok (record { decision = decision; facts = facts; events = events; tables = tables }))

  unfoldable pub check_output : RawResult → Result OutputError EvaluationResult
  check_output raw =
      guard (str_eq raw.decision "effective" || str_eq raw.decision "ineffective") invalid_decision
      >> (decoded facts_missing raw.facts >>= λ facts.
          guard (leb (length facts) p.limits.max_facts) too_many_facts
          >> (decoded tables_missing raw.tables >>= λ tables. decode_facts d facts >>= λ rows.
              guard (p.program.normalizer || is_empty raw.events) folds_cannot_emit
              >> (check_events raw.events >>= λ events. check_tables tables >>= λ changes.
                  finish_output raw.decision rows events changes)))

  unfoldable pub validate_output : List ℕ → Result OutputError EvaluationResult
  validate_output output = decoded not_one_object (d.decode_result output) >>= check_output
