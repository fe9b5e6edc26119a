-- ===== src/Jsonataddl/Tests.antt =====
-- The theorems on jsonataddl at one small application.
mod Values
mod Evaluations
use tailapps.Prelude.{
  ◌==◌, ◌||◌, ◌&&◌, leb, ltb, ℕ, ◌≡◌, refl, String, Bool, true, false, List, [], ◌∷◌, none, some,
  ok, ◌↔◌, str_eq, All, if◌then◌else◌,
}
use tailapps.Prelude.Int.{ℤ, pos}
use tailapps.Jsonataddl.Types.{
  null, array, no_items, Json, number, object, no_members, member, Codec, Column, Table, Read,
  Program, Limits, type_integer, Cardinality, one, many, own_and_normalizer_tables,
}
use tailapps.Jsonataddl.Values.{
  validate_value, validate_present, sqlite_bind_value, bound_int, is_exact, logical_column_value,
  stored_int, answer_int,
}
use tailapps.Jsonataddl.Depth.{input_depth, scan_bytes, scan_byte}
use tailapps.Jsonataddl.Names.{to_lower, same_codes, equal_fold, key_columns_of}
use tailapps.Jsonataddl.Contract.{
  find_entry, column_input_fields, check_object, check_fields, check_known, sort_fields,
  insert_field, sort_entries, insert_entry, validate_as, validate_scalar, InputField, scalar,
  validate_input_member, validate_input_object,
}
use tailapps.Jsonataddl.Output
use tailapps.Jsonataddl.Output.{
  check_output, check_events, check_tables, check_changes, find_table, decode_facts, decode_rows,
  validate_change_row, check_entries, check_present, find_column, finish_output, row_changes, Raw,
  RawChanges, RawResult, Row, TableChanges, EvaluationResult, Decoder, validate_output,
}
use tailapps.Jsonataddl.Views.{Schema, find_key, collect, resolve_view, resolve_relation}
use tailapps.Jsonataddl.Lookups.{All-find_key}
use tailapps.Jsonataddl.Topology
use tailapps.Jsonataddl.Topology.{
  validate_topology, claim_programs, claim_all, check_parameters, parameter_fields, event_fields,
  set_writer, check_claimed, check_written, check_views, check_programs, check_reads,
  check_read_visibility, visibility_of, order_ends_in_unique_key, fold_equal,
}
use tailapps.Jsonataddl.Authorizer.{
  Columns, find_fold, find_admitted, admit_relation, admit_all, Action, auth_read, ReturnCode,
  auth_ok, authorize, admit_reads, find_program, read_authorizer,
}
use tailapps.Jsonataddl.Nesting.{
  Text, text_end, quoted, nested, string_end, bare, text_bytes, nests, input_depth-nests,
}
use tailapps.Jsonataddl.Ddl.{Unicode, split_ddl_statements}
use tailapps.Jsonataddl.Input
use tailapps.Jsonataddl.Input.{
  validate_input, event_contract, validate_input_rows, check_by, check_row, check_each,
  check_unknown, read_fields, typed_field, table_named,
}
use tailapps.Jsonataddl.Evaluate.{
  Evaluator, Application, evaluate, evaluate_program, finish_evaluation,
}
use tailapps.Jsonataddl.Evaluated.{Evaluated, evaluate-Evaluated}
use tailapps.Jsonataddl.Storage.{ReadsBack, validate_value-ReadsBack, validate_value-exact}
use tailapps.Jsonataddl.Conforms.{Conforms, validate_input_object_iff}
use tailapps.Jsonataddl.Permitted.{Permitted, validate_output-Permitted}
use tailapps.Jsonataddl.Resolved.{Returns, resolve_relation-Returns}
use tailapps.Jsonataddl.Found.{resolve_relation-Backs}
use tailapps.Jsonataddl.Backing.{Backs, is_among}
use tailapps.Jsonataddl.Governed.{Governed, validate_topology-Governed}
use tailapps.Jsonataddl.Authorized.{read_authorizer-total}
use tailapps.Jsonataddl.Denied.{Permits, read_authorizer-Permits}

-- Libraries that know one number.
abbrev small : Codec
small = record {
  Float = ℕ;
  is_finite = λ f. true;
  int64 = λ s. if str_eq s "7" then some (pos 7) else none;
  float64 = λ s. none;
  format_int = λ n. "7";
  decode_base64 = λ s. none;
  encode_base64 = λ bytes. "";
  marshal = λ v. "7";
  decode = λ s. some (number "7");
  is_valid = λ s. true;
  string_of = λ bytes. "";
}

abbrev id_column : Column
id_column = record { name = "id"; type = type_integer; not_null = true; primary_key = true }

abbrev calls : Table
calls = record {
  name = "calls";
  columns = id_column ∷ [];
  primary_key = "id" ∷ [];
  unique_keys = ("id" ∷ []) ∷ [];
  storage_shape = "";
  sql = "";
  writer = "";
}

abbrev read_of : String → Cardinality → List String → Read
read_of relation cardinality order = record {
  name = relation;
  cardinality = cardinality;
  limit = 9;
  sql = "";
  table = relation;
  columns = "id" ∷ [];
  parameters = [];
  order_by = order;
}

abbrev program_of : String → List Read → List String → Bool → Program
program_of name reads writes normalizer = record {
  name = name;
  event = "record";
  path = name;
  reads = reads;
  writes = writes;
  emits = "";
  normalizer = normalizer;
}

abbrev normalizer : Program
normalizer = program_of "normalize" [] ("calls" ∷ []) true

abbrev fold : Program
fold =
    program_of "total" (read_of "recent" one [] ∷ read_of "calls" many ("ID" ∷ []) ∷ [])
      ("totals" ∷ []) false

abbrev application : Schema
application = record {
  tables = ("calls", calls) ∷ ("totals", record calls { name = "totals" }) ∷ [];
  views = ("recent", record { name = "recent"; sql = ""; dependencies = "calls" ∷ [] }) ∷ [];
}

resolve_relation-Returns_example : Returns (resolve_relation application "recent")
resolve_relation-Returns_example = resolve_relation-Returns application "recent"

resolve_relation-Backs_example :
    All (Backs application "recent") (calls ∷ [])
    × ((t : Table) → Backs application "recent" t → is_among t (calls ∷ []) ≡ true)
unfolding resolve_relation resolve_view collect find_key
resolve_relation-Backs_example = resolve_relation-Backs application "recent" (calls ∷ []) refl

abbrev plan : Topology.Plan
plan = record {
  event_name = "call";
  event_columns = id_column ∷ [];
  private_event = "call";
  envelope = "name" ∷ [];
  normalizer = normalizer;
  folds = fold ∷ [];
  normalizer_reads = own_and_normalizer_tables;
  fold_reads = own_and_normalizer_tables;
}

abbrev compiled : Schema
compiled = record application {
  tables =
      ("calls", record calls { writer = "normalize" })
      ∷ ("totals", record calls { name = "totals"; writer = "total" })
      ∷ [];
}

unwritten : (n : String) (t : Table) → find_key n application.tables ≡ some t → t.writer ≡ ""
unwritten n t h =
    All-find_key (λ (e : String × Table). e.1.writer ≡ "") n t application.tables (refl, (refl, tt))
      h

compiled_ok : validate_topology plan application ≡ ok compiled
unfolding validate_topology claim_programs claim_all check_parameters parameter_fields event_fields
    set_writer check_claimed check_written check_views check_programs check_reads
    check_read_visibility visibility_of order_ends_in_unique_key fold_equal equal_fold to_lower
    same_codes resolve_relation resolve_view collect find_key
compiled_ok = refl

validate_topology-Governed_example : Governed plan compiled
validate_topology-Governed_example =
    validate_topology-Governed plan application compiled unwritten compiled_ok

read_authorizer-total_example :
    (callback : (Action → String → String → String → ReturnCode)) × (read_authorizer compiled
        normalizer
        (fold ∷ [])
        "total"
      ≡ some callback)
unfolding find_program find_fold
read_authorizer-total_example =
    read_authorizer-total compiled normalizer fold (fold ∷ []) "total" refl

abbrev allowlist : List (List ℕ × Columns)
allowlist =
    (to_lower "calls", some (to_lower "id" ∷ []))
    ∷ (to_lower "calls", some (to_lower "id" ∷ []))
    ∷ (to_lower "recent", none)
    ∷ []

made : read_authorizer compiled normalizer (fold ∷ []) "total" ≡ some (authorize allowlist)
unfolding read_authorizer find_program find_fold admit_reads admit_relation admit_all find_key
    to_lower same_codes
made = refl

calls_ok : authorize allowlist auth_read "Calls" "ID" "main" ≡ auth_ok
unfolding authorize find_admitted to_lower same_codes
calls_ok = refl

read_authorizer-Permits_example : Permits compiled fold.reads auth_read "Calls" "ID" "main"
unfolding find_program find_fold
read_authorizer-Permits_example =
    read_authorizer-Permits compiled normalizer fold (fold ∷ []) "total" (authorize allowlist)
      auth_read "Calls" "ID" "main" refl made calls_ok
