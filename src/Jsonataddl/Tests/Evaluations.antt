-- ===== src/Jsonataddl/Tests/Evaluations.antt =====
-- The theorems on outputs and evaluations at the small application.
use tailapps.Prelude.{ℕ, ◌≡◌, refl, true, false, [], ◌∷◌, some, ok}
use tailapps.Jsonataddl.Types.{
  null, array, no_items, Json, number, object, no_members, member, Limits,
}
use tailapps.Jsonataddl.Values.{validate_value, validate_present, is_exact}
use tailapps.Jsonataddl.Depth.{input_depth, scan_bytes, scan_byte}
use tailapps.Jsonataddl.Names.{to_lower, same_codes, equal_fold, key_columns_of}
use tailapps.Jsonataddl.Contract.{
  find_entry, column_input_fields, check_object, check_fields, check_known, sort_fields,
  insert_field, sort_entries, insert_entry, validate_as, validate_scalar, validate_input_member,
  validate_input_object,
}
use tailapps.Jsonataddl.Output
use tailapps.Jsonataddl.Output.{
  check_output, check_events, check_tables, check_changes, find_table, decode_facts, decode_rows,
  validate_change_row, check_entries, check_present, find_column, finish_output, row_changes, Raw,
  RawChanges, RawResult, Row, TableChanges, EvaluationResult, Decoder, validate_output,
}
use tailapps.Jsonataddl.Authorizer.{find_fold, find_program}
use tailapps.Jsonataddl.Input
use tailapps.Jsonataddl.Input.{
  validate_input, event_contract, validate_input_rows, check_by, check_row, check_each,
  check_unknown, read_fields, typed_field, table_named,
}
use tailapps.Jsonataddl.Evaluate.{
  Evaluator, Application, evaluate, evaluate_program, finish_evaluation,
}
use tailapps.Jsonataddl.Evaluated.{Evaluated, evaluate-Evaluated}
use tailapps.Jsonataddl.Permitted.{Permitted, validate_output-Permitted}
use tailapps.Jsonataddl.Tests.{small, id_column, fold, normalizer, compiled}

-- An output that inserts one row.
abbrev decoder : Decoder
decoder = record {
  decode_result = λ output. some (record {
    decision = "effective";
    facts = some [];
    events = [];
    tables = some (("totals", 1 ∷ []) ∷ []);
  });
  decode_changes = λ raw. some (record { insert = raw ∷ []; upsert = []; delete = [] });
  decode_object = λ raw. some (("id", number "7") ∷ []);
}

abbrev limits : Limits
limits = record {
  max_element_bytes = 100;
  max_source_bytes = 100;
  max_program_bytes = 100;
  max_input_bytes = 100;
  max_input_depth = 4;
  max_output_bytes = 100;
  max_depth = 4;
  max_range = 4;
  max_events = 4;
  max_facts = 4;
  max_row_changes = 1;
  max_many_rows = 4;
}

abbrev small_plan : Output.Plan
small_plan = record {
  program = fold;
  event_name = "call";
  event_columns = id_column ∷ [];
  tables = compiled.tables;
  limits = limits;
}

abbrev inserted : EvaluationResult
inserted = record {
  decision = "effective";
  facts = [];
  events = [];
  tables =
      ("totals", record { insert = (("id", number "7") ∷ []) ∷ []; upsert = []; delete = [] }) ∷ [];
}

output_ok : validate_output small decoder small_plan (123 ∷ []) ≡ ok inserted
unfolding validate_output check_output check_events check_tables check_changes find_table
    decode_facts decode_rows validate_change_row check_entries check_present find_column
    finish_output row_changes validate_value validate_present is_exact key_columns_of
output_ok = refl

validate_output-Permitted_example : Permitted small decoder small_plan inserted
validate_output-Permitted_example =
    validate_output-Permitted small decoder small_plan (123 ∷ []) inserted output_ok

-- `{"meta":null,"event":{"id":7},"rows":{"recent":{"id":7},"calls":[]}}`
abbrev row : Json
row = object (member "id" (number "7") no_members)

abbrev whole_input : Json
whole_input = object (
    member "meta" null (
      member "event" row (
        member "rows" (object (member "recent" row (member "calls" (array no_items) no_members)))
          no_members)))

abbrev evaluator : Evaluator ℕ
evaluator = record {
  marshal = λ n. some (123 ∷ 125 ∷ []);
  decode = λ bytes. some whole_input;
  run = λ p bytes. some (123 ∷ 125 ∷ []);
}

abbrev loaded_application : Application
loaded_application = record {
  normalizer = normalizer;
  folds = fold ∷ [];
  event_columns = id_column ∷ [];
  tables = compiled.tables;
  private_event = "call";
  host_event = [];
  meta_fields = [];
  meta_nullable = true;
  event_fields = [];
  event_nullable = false;
  limits = limits;
}

evaluated_ok : evaluate small decoder evaluator loaded_application "total" 0 ≡ ok inserted
unfolding evaluate evaluate_program finish_evaluation find_program find_fold validate_input
    input_depth scan_bytes scan_byte find_entry event_contract column_input_fields
    validate_input_object check_object check_fields check_known sort_fields insert_field
    sort_entries insert_entry validate_input_member validate_as validate_scalar validate_input_rows
    Input.check_reads check_by check_row check_each check_unknown read_fields typed_field
    table_named equal_fold to_lower same_codes validate_output check_output check_events
    check_tables check_changes find_table decode_facts decode_rows validate_change_row check_entries
    check_present find_column finish_output row_changes validate_value validate_present is_exact
    key_columns_of
evaluated_ok = refl

evaluate-Evaluated_example : Evaluated small decoder evaluator loaded_application "total" 0 inserted
evaluate-Evaluated_example =
    evaluate-Evaluated small decoder evaluator loaded_application "total" 0 inserted evaluated_ok
