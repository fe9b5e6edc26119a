-- ===== src/Projection/Evaluation.antt =====
-- internal/projection/projection.go: the inputs of a program, its reads, and the changes that it
-- asks for.
use tailapps.Prelude.{
  ℕ, String, true, false, Option, none, some, List, [], ◌∷◌, Result, ok, err, ◌>>=◌, ◌>>◌, str_eq,
  str_ltb, codes, if◌then◌else◌,
}
use tailapps.Inbox.Tables.{EventId, Delivery}
use tailapps.Projection.Types.{
  Failure, application, Cardinality, one, optional_one, many, unknown, Read, Program,
}
use tailapps.Projection.Host.{Host, Object, Changes, Input}

abbrev pub refuse {ℓ} : {A : Type ℓ} → String → Result Failure A
refuse s = err (record { kind = application; message = codes s })

abbrev pub member {ℓ} : {V : Type ℓ} → String → List (String × V) → Option V
member k [] = none
member k ((j, v) ∷ rest) = if str_eq j k then some v else member k rest

-- `sortedKeys` with `slicesSort`: each element is moved down while it is less than the one before.
abbrev pub sift : {V : Type 0} → String × V → List (String × V) → List (String × V)
sift x [] = x ∷ []
sift (k, v) ((j, w) ∷ rest) =
    if str_ltb k j then (k, v) ∷ (j, w) ∷ rest else (j, w) ∷ sift (k, v) rest

abbrev pub sort_from : {V : Type 0} → List (String × V) → List (String × V) → List (String × V)
sort_from sorted [] = sorted
sort_from sorted (x ∷ rest) = sort_from (sift x sorted) rest

abbrev pub by_key : {V : Type 0} → List (String × V) → List (String × V)
by_key = sort_from []

module _ (host : Host) where
  open host use {
    Rows, Value, null, text, number, identity_text, object, array, decode, validate_program_input,
    select, insert_row, delete_row,
  }

  abbrev pub pointer_value : Option String → Value
  pointer_value none = null
  pointer_value (some s) = text s

  unfoldable pub delivery_event : Delivery → Result Failure (Object Value)
  delivery_event d = do
    record_value ← decode d.json
    ok (
        ("id", identity_text d.event_id)
        ∷ ("signal", text d.signal)
        ∷ ("name", text d.name)
        ∷ ("source", text d.source)
        ∷ ("time_unix_nano", pointer_value d.time_unix_nano)
        ∷ ("observed_unix_nano", pointer_value d.observed_unix_nano)
        ∷ ("trace_id", pointer_value d.trace_id)
        ∷ ("span_id", pointer_value d.span_id)
        ∷ ("content_digest", text d.content_digest)
        ∷ ("record", record_value)
        ∷ [])

  -- The arguments of a read are members of the event.
  unfoldable pub arguments : List String → Object Value → Result Failure (List Value)
  arguments [] event = ok []
  arguments (name ∷ rest) event = elim (member name event) [
    | none ↦ refuse "event parameter is absent"
    | some v ↦ do vs ← arguments rest event; ok (v ∷ vs)
  ]

  unfoldable pub check_cardinality : Cardinality → List (Object Value) → Result Failure Value
  check_cardinality one [] = refuse "ONE returned 0 rows"
  check_cardinality one (r ∷ []) = ok (object r)
  check_cardinality one (r ∷ s ∷ rest) = refuse "ONE returned several rows"
  check_cardinality optional_one [] = ok null
  check_cardinality optional_one (r ∷ []) = ok (object r)
  check_cardinality optional_one (r ∷ s ∷ rest) = refuse "OPTIONAL ONE returned several rows"
  check_cardinality many rows = ok (array rows)
  check_cardinality unknown rows = refuse "unknown read cardinality"

  unfoldable pub execute_read : Rows → Read → Object Value → Result Failure Value
  unfolding arguments check_cardinality
  execute_read rows read event = do
    args ← arguments read.parameters event
    values ← select rows read args
    check_cardinality read.cardinality values

  unfoldable pub read_all : Rows → List Read → Object Value → Result Failure (Object Value)
  unfolding execute_read
  read_all rows [] event = ok []
  read_all rows (read ∷ rest) event = do
    value ← execute_read rows read event
    others ← read_all rows rest event
    ok ((read.name, value) ∷ others)

  unfoldable pub evaluation_input :
      Rows → Program → ℕ → EventId → String → Object Value → Result Failure (Input Value)
  unfolding read_all
  evaluation_input rows program position event_id event_type event =
      let meta : Object Value =
        ("position", number position)
        ∷ ("event_id", identity_text event_id)
        ∷ ("event_type", text event_type)
        ∷ [] in
      do
        validate_program_input program.name meta event
        values ← read_all rows program.reads event
        ok (record { meta = meta; event = event; rows = values })

  unfoldable pub each_row :
      (Object Value → Rows → Result Failure Rows) → List (Object Value) → Rows → Result Failure Rows
  each_row f [] rows = ok rows
  each_row f (r ∷ rest) rows = do rows' ← f r rows; each_row f rest rows'

  -- The inserts of a table, then its upserts, then its deletes; the tables in the order of their names.
  unfoldable pub apply_sorted : List (String × Changes Value) → Rows → Result Failure Rows
  unfolding each_row
  apply_sorted [] rows = ok rows
  apply_sorted ((table, change) ∷ rest) rows = do
    r₁ ← each_row (λ r s. insert_row table r false s) change.insert rows
    r₂ ← each_row (λ r s. insert_row table r true s) change.upsert r₁
    r₃ ← each_row (λ r s. delete_row table r s) change.delete r₂
    apply_sorted rest r₃

  unfoldable pub apply_changes : List (String × Changes Value) → Rows → Result Failure Rows
  unfolding apply_sorted
  apply_changes changes rows = apply_sorted (by_key changes) rows
