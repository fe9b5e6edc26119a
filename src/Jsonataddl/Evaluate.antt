-- ===== src/Jsonataddl/Evaluate.antt =====
-- jsonataddl/evaluate.go: Evaluate.
use tailapps.Prelude.{
  ℕ, String, Bool, true, ◌&&◌, List, Option, none, some, Result, ok, err, ◌>>=◌, ◌>>◌, guard, ltb,
  leb, length,
}
use tailapps.Jsonataddl.Types.{Json, Codec, Column, Table, Program, Limits}
use tailapps.Jsonataddl.Contract.{EnvelopeField, InputField}
use tailapps.Jsonataddl.Input.{InputError, InputPlan, validate_input}
use tailapps.Jsonataddl.Output.{EvaluationResult, Decoder, OutputError, Plan, validate_output}
use tailapps.Jsonataddl.Authorizer.{find_program}

-- The JSONata evaluator: the output of a program's expression on an encoded input; and the encoding
-- and decoding of inputs by encoding/json.
pub record Evaluator (Input : Type 0) : Type 0 where
  pub marshal : Input → Option (List ℕ)
  pub decode : List ℕ → Option Json
  pub run : Program → List ℕ → Option (List ℕ)

pub data EvaluationError : Type 0 where
  unknown_program not_encoded not_evaluated output_size : EvaluationError
  input_error : InputError → EvaluationError
  output_error : OutputError → EvaluationError

abbrev pub required {ℓ} : {A : Type ℓ} → EvaluationError → Option A → Result EvaluationError A
required failure none = err failure
required failure (some a) = ok a

abbrev pub checked_input : Result InputError (Unit {0}) → Result EvaluationError (Unit {0})
checked_input (ok done) = ok tt
checked_input (err e) = err (input_error e)

abbrev pub checked_output :
    Result OutputError EvaluationResult → Result EvaluationError EvaluationResult
checked_output (ok r) = ok r
checked_output (err e) = err (output_error e)

-- What an application brings to an evaluation, with the parts of its dialect that are read there.
pub record Application : Type 0 where
  pub normalizer : Program
  pub folds : List Program
  pub event_columns : List Column
  pub tables : List (String × Table)
  pub private_event : String
  pub host_event : List EnvelopeField
  pub meta_fields : List InputField
  pub meta_nullable : Bool
  pub event_fields : List InputField
  pub event_nullable : Bool
  pub limits : Limits

-- What validateInput reads of it.
abbrev pub input_plan : Application → InputPlan
input_plan a = record {
  meta_fields = a.meta_fields;
  meta_nullable = a.meta_nullable;
  event_fields = a.event_fields;
  event_nullable = a.event_nullable;
  envelope = a.host_event;
  private_columns = a.event_columns;
  tables = a.tables;
  limits = a.limits;
}

-- What validateOutput reads of it and of the program.
abbrev pub output_plan : Application → Program → Plan
output_plan a program = record {
  program = program;
  event_name = a.private_event;
  event_columns = a.event_columns;
  tables = a.tables;
  limits = a.limits;
}

module _ {Input : Type 0} (c : Codec) (d : Decoder) (e : Evaluator Input) (a : Application) where
  unfoldable pub finish_evaluation : Program → List ℕ → Result EvaluationError EvaluationResult
  finish_evaluation program output =
      guard (ltb 0 (length output) && leb (length output) a.limits.max_output_bytes) output_size
      >> checked_output (validate_output c d (output_plan a program) output)

  unfoldable pub evaluate_program : Program → List ℕ → Result EvaluationError EvaluationResult
  evaluate_program program encoded =
      checked_input (validate_input c e.decode (input_plan a) program encoded true)
      >> (required not_evaluated (e.run program encoded) >>= finish_evaluation program)

  unfoldable pub evaluate : String → Input → Result EvaluationError EvaluationResult
  evaluate name input =
      required unknown_program (find_program a.normalizer a.folds name) >>= λ program.
      required not_encoded (e.marshal input) >>= evaluate_program program
