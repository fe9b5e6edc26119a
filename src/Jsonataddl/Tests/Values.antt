-- ===== src/Jsonataddl/Tests/Values.antt =====
-- The theorems on values, inputs and texts at small ones.
use tailapps.Prelude.{◌==◌, ◌||◌, ◌&&◌, leb, ltb, ◌≡◌, refl, true, false, List, [], ◌∷◌, ok, ◌↔◌}
use tailapps.Prelude.Int.{ℤ}
use tailapps.Jsonataddl.Types.{Json, number, object, no_members, member, type_integer}
use tailapps.Jsonataddl.Values.{
  validate_value, validate_present, sqlite_bind_value, bound_int, is_exact, logical_column_value,
  stored_int, answer_int,
}
use tailapps.Jsonataddl.Depth.{input_depth}
use tailapps.Jsonataddl.Contract.{InputField, scalar, validate_input_member, validate_input_object}
use tailapps.Jsonataddl.Nesting.{
  Text, text_end, quoted, nested, string_end, bare, text_bytes, nests, input_depth-nests,
}
use tailapps.Jsonataddl.Ddl.{
  Unicode, trim_left, trim_right, trim_space, split_runes, split_ddl_statements,
}
use tailapps.Jsonataddl.Statements.{
  Piece, rune, literal, block, sources, texts, Printed, split_ddl_statements-sources,
}
use tailapps.Jsonataddl.Storage.{ReadsBack, validate_value-ReadsBack, validate_value-exact}
use tailapps.Jsonataddl.Conforms.{Conforms, validate_input_object_iff}
use tailapps.Jsonataddl.Tests.{small}

-- `{"}"}`
abbrev braces : Text
braces = nested b'{' b'}' refl refl (quoted (bare b'}' (refl, refl) string_end) text_end) text_end

input_depth-nests_example : input_depth (text_bytes braces []) 1 ≡ nests braces 1
input_depth-nests_example = input_depth-nests braces 1

seven_ok : validate_value small (number "7") type_integer true ≡ ok tt
unfolding validate_value validate_present is_exact
seven_ok = refl

validate_value-ReadsBack_example : ReadsBack small (number "7") type_integer
validate_value-ReadsBack_example =
    validate_value-ReadsBack small (number "7") refl type_integer true seven_ok (λ e. cc)

validate_value-exact_example :
    (k : ℤ) × (sqlite_bind_value small (number "7") type_integer ≡ bound_int k)
    × (is_exact k ≡ true)
    × (logical_column_value small (stored_int k) type_integer ≡ ok (answer_int k))
validate_value-exact_example = validate_value-exact small "7" true seven_ok

abbrev count_field : InputField
count_field = record {
  name = "count";
  kind = scalar;
  type = type_integer;
  optional = false;
  nullable = false;
  fields = [];
}

abbrev counted : Json
counted = object (member "count" (number "7") no_members)

validate_input_object_iff_example :
    (validate_input_object small counted (count_field ∷ []) false ≡ ok tt)
    ↔ Conforms (validate_input_member small) (count_field ∷ []) false counted
validate_input_object_iff_example = validate_input_object_iff small counted (count_field ∷ []) false

-- ASCII spaces and controls.
abbrev ascii : Unicode
ascii = record { is_space = λ c. c == 32 || leb 9 c && leb c 13; is_control = λ c. ltb c 32 }

-- `x-y'a'';';/*b*;*/;` and a line break
abbrev statements : List (List Piece)
statements =
    (rune b'x' ∷ rune b'-' ∷ rune b'y' ∷ literal 39 (b'a' ∷ 39 ∷ b';' ∷ []) ∷ [])
    ∷ (block (b'b' ∷ b'*' ∷ b';' ∷ []) ∷ [])
    ∷ []

statements-Printed : Printed ascii statements (rune 10 ∷ [])
unfolding trim_space trim_left trim_right
statements-Printed = (
  (
    (
      (refl, refl, refl, refl),
      ((refl, refl, refl, refl), ((refl, refl, refl, refl), ((refl, refl), tt))),
    ),
    (((refl, (refl, (refl, tt))), tt), tt),
  ),
  ((refl, refl, refl, refl), tt),
  refl,
)

split_ddl_statements-sources_example :
    split_ddl_statements ascii (sources statements (rune 10 ∷ [])) ≡ ok (texts ascii statements [])
split_ddl_statements-sources_example =
    split_ddl_statements-sources ascii statements (rune 10 ∷ []) statements-Printed

-- The empty statement is left out.
one_statement :
    split_ddl_statements ascii (sources statements (rune 10 ∷ []))
    ≡ ok ((b'x' ∷ b'-' ∷ b'y' ∷ 39 ∷ b'a' ∷ 39 ∷ 39 ∷ b';' ∷ 39 ∷ []) ∷ [])
unfolding split_ddl_statements split_runes trim_space trim_left trim_right
one_statement = refl
