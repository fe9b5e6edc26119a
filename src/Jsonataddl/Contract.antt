-- ===== src/Jsonataddl/Contract.antt =====
-- jsonataddl/input_contract.go and dialect.go: the declared forms of input objects;
-- jsonataddl/input.go: validateInputObject and validateInputMember.
use tailapps.Prelude.{
  String, Bool, true, false, not, ◌&&◌, List, [], ◌∷◌, map, any, Option, none, some, Result, ok,
  err, ◌>>◌, guard, str_eq, str_ltb, if◌then◌else◌,
}
use tailapps.Jsonataddl.Types.{
  Json, null, string, array, object, items, entries, Codec, LogicalType, Column,
}
use tailapps.Jsonataddl.Values.{ValueError, validate_value}

pub record EnvelopeField : Type 0 where
  pub name : String
  pub type : LogicalType
  pub nullable : Bool
  pub optional : Bool

pub data InputKind : Type 0 where
  scalar string_array scalar_object json_object : InputKind
  other_kind : String → InputKind

pub record InputField : Type 0 where
  pub name : String
  pub kind : InputKind
  pub type : LogicalType
  pub optional : Bool
  pub nullable : Bool
  pub fields : List EnvelopeField

pub data MemberError : Type 0 where
  value_error : ValueError → MemberError
  must_be_a_string_array must_contain_only_strings must_be_a_json_object : MemberError
  unsupported_form : InputKind → MemberError
  must_be_a_non_null_object : MemberError
  field_is_required : String → MemberError
  in_field : String → MemberError → MemberError
  unknown_field : String → MemberError

unfoldable pub scalar_input_fields : List EnvelopeField → List InputField
scalar_input_fields fields =
    map
      (λ f. record {
        name = f.name;
        kind = scalar;
        type = f.type;
        optional = f.optional;
        nullable = f.nullable;
        fields = [];
      })
      fields

unfoldable pub column_input_fields : List Column → List InputField
column_input_fields columns =
    map
      (λ column. record {
        name = column.name;
        kind = scalar;
        type = column.type;
        optional = false;
        nullable = not column.not_null;
        fields = [];
      })
      columns

-- `sort.Slice` by the name.
unfoldable pub insert_field : InputField → List InputField → List InputField
insert_field f [] = f ∷ []
insert_field f (x ∷ xs) =
    let rest = insert_field f xs in if str_ltb x.name f.name then x ∷ rest else f ∷ x ∷ xs

unfoldable pub sort_fields : List InputField → List InputField
sort_fields [] = []
sort_fields (f ∷ fs) = insert_field f (sort_fields fs)

unfoldable pub insert_entry : String × Json → List (String × Json) → List (String × Json)
insert_entry e [] = e ∷ []
insert_entry e (x ∷ xs) =
    let rest = insert_entry e xs in if str_ltb x.0 e.0 then x ∷ rest else e ∷ x ∷ xs

-- `sortedInputKeys`, with the entries.
unfoldable pub sort_entries : List (String × Json) → List (String × Json)
sort_entries [] = []
sort_entries (e ∷ es) = insert_entry e (sort_entries es)

unfoldable pub find_entry : String → List (String × Json) → Option Json
find_entry name [] = none
find_entry name ((key, v) ∷ rest) =
    let later = find_entry name rest in if str_eq key name then some v else later

abbrev pub is_null : Json → Bool
is_null null = true
is_null _ = false

abbrev pub lifted : String → Result MemberError (Unit {0}) → Result MemberError (Unit {0})
lifted name (ok done) = ok tt
lifted name (err e) = err (in_field name e)

-- The body of the loop over the declared fields.
abbrev pub check_member :
    (Json → InputField → Result MemberError (Unit {0}))
    → InputField
    → Option Json
    → Result MemberError (Unit {0})
check_member check f none = if f.optional then ok tt else err (field_is_required f.name)
check_member check f (some v) = if is_null v && f.nullable then ok tt else lifted f.name (check v f)

unfoldable pub check_fields :
    (Json → InputField → Result MemberError (Unit {0}))
    → List (String × Json)
    → List InputField
    → Result MemberError (Unit {0})
check_fields check es [] = ok tt
check_fields check es (f ∷ fs) =
    check_member check f (find_entry f.name es) >> check_fields check es fs

unfoldable pub check_known : List InputField → List (String × Json) → Result MemberError (Unit {0})
check_known fields [] = ok tt
check_known fields (e ∷ es) =
    guard (any (λ f. str_eq f.name e.0) fields) (unknown_field e.0) >> check_known fields es

-- `validateInputObject`, by the check of a member.
unfoldable pub check_object :
    (Json → InputField → Result MemberError (Unit {0}))
    → Json
    → List InputField
    → Bool
    → Result MemberError (Unit {0})
check_object check (object m) fields nullable =
    check_fields check (entries m) (sort_fields fields)
    >> check_known fields (sort_entries (entries m))
check_object check v fields nullable = guard (is_null v && nullable) must_be_a_non_null_object

abbrev are_strings : List Json → Result MemberError (Unit {0})
are_strings [] = ok tt
are_strings (string s ∷ vs) = are_strings vs
are_strings (v ∷ vs) = err must_contain_only_strings

abbrev as_member : Result ValueError (Unit {0}) → Result MemberError (Unit {0})
as_member (ok done) = ok tt
as_member (err e) = err (value_error e)

abbrev string_array_or : Json → Result MemberError (Unit {0})
string_array_or (array vs) = are_strings (items vs)
string_array_or _ = err must_be_a_string_array

abbrev json_object_or : Json → Result MemberError (Unit {0})
json_object_or (object m) = ok tt
json_object_or _ = err must_be_a_json_object

module _ (c : Codec) where
  unfoldable pub validate_scalar : Json → InputField → Result MemberError (Unit {0})
  validate_scalar v f = as_member (validate_value c v f.type (not f.nullable))

  -- `validateInputMember`; the members of a scalar object are scalars.
  unfoldable pub validate_as : InputKind → Json → InputField → Result MemberError (Unit {0})
  validate_as scalar v f = validate_scalar v f
  validate_as string_array v f = string_array_or v
  validate_as scalar_object v f =
      check_object validate_scalar v (scalar_input_fields f.fields) f.nullable
  validate_as json_object v f = json_object_or v
  validate_as (other_kind k) v f = err (unsupported_form (other_kind k))

  unfoldable pub validate_input_member : Json → InputField → Result MemberError (Unit {0})
  validate_input_member v f = validate_as f.kind v f

  unfoldable pub validate_input_object :
      Json → List InputField → Bool → Result MemberError (Unit {0})
  validate_input_object v fields nullable = check_object validate_input_member v fields nullable
