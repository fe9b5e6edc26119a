-- ===== src/Jsonataddl/Evaluated.antt =====
-- jsonataddl/evaluate.go: what Evaluate has checked before it returns a result.
use tailapps.Prelude.{
  ℕ, ◌≤◌, ◌<◌, ◌≡◌, refl, ap, String, true, ◌&&◌, List, Option, none, some, Result, ok, err, ◌>>=◌,
  ◌>>◌, >>=-eq-ok, guard, guard-eq-ok, ltb, leb, length, arith,
}
use tailapps.Jsonataddl.Types.{Codec, Program}
use tailapps.Jsonataddl.Depth.{input_depth}
use tailapps.Jsonataddl.Input.{
  InputError, object_or, check_parts, validate_input, too_many_bytes, too_deep,
}
use tailapps.Jsonataddl.Output.{EvaluationResult, Decoder, OutputError, validate_output}
use tailapps.Jsonataddl.Authorizer.{find_program}
use tailapps.Jsonataddl.Received.{Received, decoded-Received}
use tailapps.Jsonataddl.Permitted.{Permitted, validate_output-Permitted}
use tailapps.Jsonataddl.Evaluate.{
  Evaluator, EvaluationError, unknown_program, not_encoded, not_evaluated, output_size, required,
  checked_input, checked_output, Application, input_plan, output_plan, finish_evaluation,
  evaluate_program, evaluate,
}

required-ok {ℓ} :
    {A : Type ℓ} (f : EvaluationError) (o : Option A) {x : A} → required f o ≡ ok x → o ≡ some x
required-ok f none h = cc
required-ok f (some y) {x} h = let e : y ≡ x = cc in ap (λ z. some z) e

checked_input-ok :
    (r : Result InputError (Unit {0})) {t : Unit {0}} → checked_input r ≡ ok t → r ≡ ok tt
checked_input-ok (ok done) h = refl
checked_input-ok (err e) h = cc

checked_output-ok :
    (r : Result OutputError EvaluationResult) {x : EvaluationResult}
    → checked_output r ≡ ok x
    → r ≡ ok x
checked_output-ok (ok y) {x} h = let e : y ≡ x = cc in ap (λ z. ok z) e
checked_output-ok (err e) h = cc

module _ {Input : Type 0} (c : Codec) (d : Decoder) (e : Evaluator Input) (a : Application) where
  -- The program, its encoded input and its output.
  pub record Evaluated (name : String) (input : Input) (r : EvaluationResult) : Type 0 where
    pub program : Program
    pub encoded : List ℕ
    pub output : List ℕ
    pub found : find_program a.normalizer a.folds name ≡ some program
    pub is_encoded : e.marshal input ≡ some encoded
    pub bytes : length encoded ≤ a.limits.max_input_bytes
    pub depth : input_depth encoded a.limits.max_input_depth ≡ true
    pub received : Received c (input_plan a) program (e.decode encoded)
    pub ran : e.run program encoded ≡ some output
    pub something : 0 < length output
    pub bounded : length output ≤ a.limits.max_output_bytes
    pub permitted : Permitted c d (output_plan a program) r

  -- A result of Evaluate belongs to a program of the application. Its encoded input keeps the limits
  -- on bytes and depth and decodes to an object: the metadata and the event have the members that the
  -- dialect (for a normalizer) or the private event's columns (for a fold) declare, and the rows hold
  -- for each of the program's reads what its table, columns, cardinality and limit allow, and nothing
  -- else. The output is not empty, keeps its limit on bytes, and the result is permitted to that
  -- program by the application's tables, event and limits.
  pub evaluate-Evaluated :
      (name : String) (input : Input) (r : EvaluationResult)
      → evaluate c d e a name input ≡ ok r
      → Evaluated name input r
  unfolding evaluate evaluate_program finish_evaluation validate_input
  evaluate-Evaluated name input r h =
      let with_program : Program → Result EvaluationError EvaluationResult =
        λ program. required not_encoded (e.marshal input) >>= evaluate_program c d e a program in
      let (program, found, then1) =
        >>=-eq-ok (required unknown_program (find_program a.normalizer a.folds name)) with_program
          h in
      let (encoded, marshalled, then2) =
        >>=-eq-ok (required not_encoded (e.marshal input)) (evaluate_program c d e a program)
          then1 in
      let parts = object_or c (e.decode encoded) >>= check_parts c (input_plan a) program true in
      let deep = guard (input_depth encoded a.limits.max_input_depth) too_deep >> parts in
      let run =
        required not_evaluated (e.run program encoded) >>= finish_evaluation c d e a program in
      let (u, valid, then3) =
        >>=-eq-ok (checked_input (validate_input c e.decode (input_plan a) program encoded true))
          (λ u. run) then2 in
      let (few, then4) =
        guard-eq-ok (leb (length encoded) a.limits.max_input_bytes) too_many_bytes deep (
          checked_input-ok (validate_input c e.decode (input_plan a) program encoded true) valid) in
      let (flat, whole) =
        guard-eq-ok (input_depth encoded a.limits.max_input_depth) too_deep parts then4 in
      let (output, ran, then5) =
        >>=-eq-ok (required not_evaluated (e.run program encoded))
          (finish_evaluation c d e a program) then3 in
      let size = ltb 0 (length output) && leb (length output) a.limits.max_output_bytes in
      let (sized, then6) =
        guard-eq-ok size output_size
          (checked_output (validate_output c d (output_plan a program) output)) then5 in
      record {
        program = program;
        encoded = encoded;
        output = output;
        found = required-ok unknown_program (find_program a.normalizer a.folds name) found;
        is_encoded = required-ok not_encoded (e.marshal input) marshalled;
        bytes = ground (arith, few);
        depth = flat;
        received = decoded-Received c (input_plan a) program (e.decode encoded) whole;
        ran = required-ok not_evaluated (e.run program encoded) ran;
        something = ground (arith, sized);
        bounded = ground (arith, sized);
        permitted =
            validate_output-Permitted c d (output_plan a program) output r
              (checked_output-ok (validate_output c d (output_plan a program) output) then6);
      }
