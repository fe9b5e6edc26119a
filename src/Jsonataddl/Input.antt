-- ===== src/Jsonataddl/Input.antt =====
-- jsonataddl/input.go: validateInput and validateInputRows.
use tailapps.Prelude.{
  ℕ, String, Bool, true, false, not, List, [], ◌∷◌, ◌++◌, map, any, Option, none, some, Result, ok,
  err, ◌>>◌, ◌>>=◌, guard, str_eq, leb, if◌then◌else◌, length,
}
use tailapps.Jsonataddl.Types.{
  Json, null, object, array, items, entries, Codec, LogicalType, type_json, Column, Table,
  Cardinality, one, optional_one, many, unsupported, Read, Program, Limits,
}
use tailapps.Jsonataddl.Names.{equal_fold}
use tailapps.Jsonataddl.Depth.{input_depth}
use tailapps.Jsonataddl.Contract.{
  EnvelopeField, InputField, scalar, MemberError, scalar_input_fields, column_input_fields,
  find_entry, sort_entries, is_null, validate_input_object,
}

pub data InputError : Type 0 where
  too_many_bytes too_deep not_an_object : InputError
  in_meta in_event : MemberError → InputError
  rows_not_an_object : InputError
  read_is_required unknown_read not_so_many_rows unsupported_cardinality : String → InputError
  in_read : String → MemberError → InputError

-- What the validation reads of an application and its dialect.
pub record InputPlan : Type 0 where
  pub meta_fields : List InputField
  pub meta_nullable : Bool
  pub event_fields : List InputField
  pub event_nullable : Bool
  pub envelope : List EnvelopeField
  pub private_columns : List Column
  pub tables : List (String × Table)
  pub limits : Limits

-- A member of the decoded input; a missing one is nil.
abbrev pub or_null : Option Json → Json
or_null none = null
or_null (some v) = v

abbrev pub within :
    (MemberError → InputError) → Result MemberError (Unit {0}) → Result InputError (Unit {0})
within wrap (ok done) = ok tt
within wrap (err e) = err (wrap e)

unfoldable pub table_named : String → List (String × Table) → Option Table
table_named name [] = none
table_named name ((key, t) ∷ rest) =
    let later = table_named name rest in if str_eq key name then some t else later

abbrev read_field : String → LogicalType → Bool → InputField
read_field name type nullable = record {
  name = name;
  kind = scalar;
  type = type;
  optional = false;
  nullable = nullable;
  fields = [];
}

-- The first column of the table with the name gives its type.
unfoldable pub typed_field : String → List Column → InputField
typed_field name [] = read_field name type_json true
typed_field name (column ∷ rest) =
    let later = typed_field name rest in
    if equal_fold column.name name then read_field name column.type (not column.not_null) else later

abbrev columns_or_none : Option Table → List Column
columns_or_none none = []
columns_or_none (some t) = t.columns

unfoldable pub read_fields : List (String × Table) → Read → List InputField
read_fields tables read =
    let columns = columns_or_none (table_named read.table tables) in
    map (λ name. typed_field name columns) read.columns

module _ (c : Codec) where
  unfoldable pub check_row : List InputField → String → Json → Result InputError (Unit {0})
  check_row fields name v = within (in_read name) (validate_input_object c v fields false)

  unfoldable pub check_each : List InputField → String → List Json → Result InputError (Unit {0})
  check_each fields name [] = ok tt
  check_each fields name (v ∷ vs) = check_row fields name v >> check_each fields name vs

  abbrev pub check_many : List InputField → Read → Json → Result InputError (Unit {0})
  check_many fields read (array vs) =
      guard (leb (length (items vs)) read.limit) (not_so_many_rows read.name)
      >> check_each fields read.name (items vs)
  check_many fields read _ = err (not_so_many_rows read.name)

  -- The switch on the cardinality.
  unfoldable pub check_by :
      Cardinality → List InputField → Read → Json → Result InputError (Unit {0})
  check_by one fields read v = check_row fields read.name v
  check_by optional_one fields read v = if is_null v then ok tt else check_row fields read.name v
  check_by many fields read v = check_many fields read v
  check_by (unsupported text) fields read v = err (unsupported_cardinality read.name)

  abbrev pub check_read : List (String × Table) → Read → Option Json → Result InputError (Unit {0})
  check_read tables read none = err (read_is_required read.name)
  check_read tables read (some v) = check_by read.cardinality (read_fields tables read) read v

  unfoldable pub check_reads :
      List (String × Table) → List Read → List (String × Json) → Result InputError (Unit {0})
  check_reads tables [] rows = ok tt
  check_reads tables (read ∷ reads) rows =
      check_read tables read (find_entry read.name rows) >> check_reads tables reads rows

  unfoldable pub check_unknown : List Read → List (String × Json) → Result InputError (Unit {0})
  check_unknown reads [] = ok tt
  check_unknown reads (e ∷ es) =
      guard (any (λ r. str_eq r.name e.0) reads) (unknown_read e.0) >> check_unknown reads es

  unfoldable pub validate_input_rows : InputPlan → Program → Json → Result InputError (Unit {0})
  validate_input_rows p program (object m) =
      check_reads p.tables program.reads (entries m)
      >> check_unknown program.reads (sort_entries (entries m))
  validate_input_rows p program _ = err rows_not_an_object

  -- The fields and the null policy of the event, by the kind of the program.
  unfoldable pub event_contract : InputPlan → Program → List InputField × Bool
  event_contract p program =
      if program.normalizer
      then (scalar_input_fields p.envelope ++ p.event_fields, p.event_nullable)
      else (column_input_fields p.private_columns, false)

  abbrev pub object_or : Option Json → Result InputError (List (String × Json))
  object_or (some (object m)) = ok (entries m)
  object_or _ = err not_an_object

  abbrev pub check_parts :
      InputPlan → Program → Bool → List (String × Json) → Result InputError (Unit {0})
  check_parts p program with_rows input =
      within in_meta
        (validate_input_object c (or_null (find_entry "meta" input)) p.meta_fields p.meta_nullable)
      >> (let contract = event_contract p program in
          within in_event
            (validate_input_object c (or_null (find_entry "event" input)) contract.0 contract.1)
          >> (if with_rows
              then validate_input_rows p program (or_null (find_entry "rows" input))
              else ok tt))

  -- `decode` is the decoding of the encoded input.
  unfoldable pub validate_input :
      (List ℕ → Option Json) → InputPlan → Program → List ℕ → Bool → Result InputError (Unit {0})
  validate_input decode p program encoded with_rows =
      guard (leb (length encoded) p.limits.max_input_bytes) too_many_bytes
      >> (guard (input_depth encoded p.limits.max_input_depth) too_deep
          >> (object_or (decode encoded) >>= check_parts p program with_rows))
