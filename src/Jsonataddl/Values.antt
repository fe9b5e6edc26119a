-- ===== src/Jsonataddl/Values.antt =====
-- jsonataddl/values.go: the codec of logical values.
use tailapps.Prelude.{
  ℕ, ◌-◌, ◌^◌, String, Bool, false, not, ◌&&◌, ◌||◌, List, [], Option, none, some, Result, ok, err,
  guard, if◌then◌else◌, ◌==◌,
}
use tailapps.Prelude.Int.{ℤ, pos, negsuc, leb_ℤ}
use tailapps.Jsonataddl.Types.{
  Json, null, bool, number, string, Codec, LogicalType, type_text, type_integer, type_real,
  type_boolean, type_blob, type_json, type_other,
}
use tailapps.Jsonataddl.Names.{equal_fold}

abbrev min_exact_integer : ℤ
min_exact_integer = negsuc (2 ^ 53 - 2)

abbrev max_exact_integer : ℤ
max_exact_integer = pos (2 ^ 53 - 1)

unfoldable pub is_exact : ℤ → Bool
is_exact n = leb_ℤ min_exact_integer n && leb_ℤ n max_exact_integer

-- A declared column type, in any case, or the storage spelling of JSON; unknown ones stay unknown.
unfoldable pub sqlite_logical_type : LogicalType → LogicalType
sqlite_logical_type (type_other name) =
    if equal_fold name "JSON_TEXT" || equal_fold name "JSON"
    then type_json
    else if equal_fold name "TEXT"
    then type_text
    else if equal_fold name "INTEGER"
    then type_integer
    else if equal_fold name "REAL"
    then type_real
    else if equal_fold name "BOOLEAN"
    then type_boolean
    else if equal_fold name "BLOB"
    then type_blob
    else type_other name
sqlite_logical_type known = known

pub data ValueError : Type 0 where
  null_violates_not_null must_be_text must_be_an_integer must_be_exact_integer : ValueError
  must_be_a_finite_number must_be_boolean must_be_base64_text : ValueError
  unsupported_logical_type : LogicalType → ValueError

-- The type assertions `value.(string)`, `value.(json.Number)` and `value.(bool)`.
abbrev pub string_in : Json → Option String
string_in (string s) = some s
string_in _ = none

abbrev pub number_in : Json → Option String
number_in (number n) = some n
number_in _ = none

abbrev pub bool_in : Json → Option Bool
bool_in (bool b) = some b
bool_in _ = none

-- What `ValidateValue` asks of a value that is not null.
module _ (c : Codec) where
  abbrev pub exact_or : Option ℤ → Result ValueError (Unit {0})
  exact_or none = err must_be_exact_integer
  exact_or (some n) = guard (is_exact n) must_be_exact_integer

  abbrev finite_or : Option c.Float → Result ValueError (Unit {0})
  finite_or none = err must_be_a_finite_number
  finite_or (some f) = guard (c.is_finite f) must_be_a_finite_number

  abbrev pub decoded_or : Option (List ℕ) → Result ValueError (Unit {0})
  decoded_or none = err must_be_base64_text
  decoded_or (some bytes) = ok tt

  abbrev pub asserted {ℓ} :
      {A : Type ℓ}
      → ValueError
      → (A → Result ValueError (Unit {0}))
      → Option A
      → Result ValueError (Unit {0})
  asserted failure check none = err failure
  asserted failure check (some a) = check a

  unfoldable pub validate_present : Json → LogicalType → Result ValueError (Unit {0})
  validate_present v type_text = asserted must_be_text (λ s. ok tt) (string_in v)
  validate_present v type_integer =
      asserted must_be_an_integer (λ n. exact_or (c.int64 n)) (number_in v)
  validate_present v type_real =
      asserted must_be_a_finite_number (λ n. finite_or (c.float64 n)) (number_in v)
  validate_present v type_boolean = asserted must_be_boolean (λ b. ok tt) (bool_in v)
  validate_present v type_blob =
      asserted must_be_base64_text (λ s. decoded_or (c.decode_base64 s)) (string_in v)
  validate_present v type_json = ok tt
  validate_present v (type_other name) = err (unsupported_logical_type (type_other name))

  unfoldable pub validate_value : Json → LogicalType → Bool → Result ValueError (Unit {0})
  validate_value null logical not_null = guard (not not_null) null_violates_not_null
  validate_value v logical not_null = validate_present v logical

  -- A value as it is bound into SQLite: a native value, or what `SQLiteBindValue` returns unchanged.
  pub data Bound : Type 0 where
    bound_nil : Bound
    bound_int : ℤ → Bound
    bound_float : c.Float → Bound
    bound_text : String → Bound
    bound_bytes : List ℕ → Bound
    bound_json : Json → Bound

  -- `if integer, err := number.Int64(); .. if real, err := number.Float64(); ..`
  abbrev pub bind_number : String → Option ℤ → Option c.Float → Bound
  bind_number text (some n) f = bound_int n
  bind_number text none (some f) = bound_float f
  bind_number text none none = bound_text text

  -- `decoded, _ := base64.StdEncoding.DecodeString(typed)`, on text that validation has let through
  abbrev pub bytes_or_empty : Option (List ℕ) → List ℕ
  bytes_or_empty none = []
  bytes_or_empty (some bytes) = bytes

  unfoldable pub bind_other : Json → LogicalType → Bound
  bind_other (number n) logical = bind_number n (c.int64 n) (c.float64 n)
  bind_other (bool b) type_boolean = bound_int (if b then pos 1 else pos 0)
  bind_other (string s) type_blob = bound_bytes (bytes_or_empty (c.decode_base64 s))
  bind_other (string s) logical = bound_text s
  bind_other v logical = bound_json v

  unfoldable pub sqlite_bind_value : Json → LogicalType → Bound
  sqlite_bind_value null logical = bound_nil
  sqlite_bind_value v type_json = bound_text (c.marshal v)
  sqlite_bind_value v logical = bind_other v logical

  -- What database/sql hands to a reader.
  pub data Stored : Type 0 where
    stored_nil : Stored
    stored_int : ℤ → Stored
    stored_float : c.Float → Stored
    stored_text : String → Stored
    stored_bytes : List ℕ → Stored

  pub data ReadError : Type 0 where
    invalid_boolean invalid_json_storage invalid_json invalid_blob : ReadError

  -- A fold-read value: JSON, or a native number.
  pub data Logical : Type 0 where
    logical_json : Json → Logical
    logical_int : ℤ → Logical
    logical_float : c.Float → Logical

  abbrev pub is_zero : ℤ → Bool
  is_zero (pos n) = n == 0
  is_zero (negsuc n) = false

  abbrev json_or : Option Json → Result ReadError Logical
  json_or none = err invalid_json
  json_or (some v) = ok (logical_json v)

  unfoldable pub read_stored : Stored → LogicalType → Result ReadError Logical
  read_stored (stored_int n) type_boolean = ok (logical_json (bool (not (is_zero n))))
  read_stored v type_boolean = err invalid_boolean
  read_stored (stored_text s) type_json = json_or (c.decode s)
  read_stored (stored_bytes bytes) type_json = json_or (c.decode (c.string_of bytes))
  read_stored v type_json = err invalid_json_storage
  read_stored (stored_bytes bytes) type_blob = ok (logical_json (string (c.encode_base64 bytes)))
  read_stored v type_blob = err invalid_blob
  read_stored (stored_bytes bytes) logical = ok (logical_json (string (c.string_of bytes)))
  read_stored (stored_text s) logical = ok (logical_json (string s))
  read_stored (stored_int n) logical = ok (logical_int n)
  read_stored (stored_float f) logical = ok (logical_float f)
  read_stored stored_nil logical = ok (logical_json null)

  unfoldable pub read_row_value : Stored → LogicalType → Result ReadError Logical
  read_row_value stored_nil declared = ok (logical_json null)
  read_row_value v declared = read_stored v (sqlite_logical_type declared)

  -- A value that a query answers: the wrappers stand for objects with one key.
  pub data Answer : Type 0 where
    answer_json : Json → Answer
    answer_int : ℤ → Answer
    answer_float : c.Float → Answer
    answer_wrapped : String → String → Answer

  pub data QueryError : Type 0 where
    non_finite_number invalid_json_text : QueryError

  unfoldable pub wrap_integer : ℤ → Answer
  wrap_integer n =
      if is_exact n then answer_int n else answer_wrapped "integer_decimal" (c.format_int n)

  unfoldable pub wrap_bytes : List ℕ → Answer
  wrap_bytes bytes = answer_wrapped "bytes_base64" (c.encode_base64 bytes)

  abbrev answer_or : Option Json → Result QueryError Answer
  answer_or none = err invalid_json_text
  answer_or (some v) = ok (answer_json v)

  unfoldable pub logical_value : Stored → LogicalType → Result QueryError Answer
  logical_value stored_nil declared = ok (answer_json null)
  logical_value (stored_int n) type_boolean = ok (answer_json (bool (not (is_zero n))))
  logical_value (stored_int n) declared = ok (wrap_integer n)
  logical_value (stored_float f) declared =
      if c.is_finite f then ok (answer_float f) else err non_finite_number
  logical_value (stored_text s) type_json =
      if c.is_valid s then answer_or (c.decode s) else err invalid_json_text
  logical_value (stored_text s) declared = ok (answer_json (string s))
  logical_value (stored_bytes bytes) declared = ok (wrap_bytes bytes)

  unfoldable pub logical_column_value : Stored → LogicalType → Result QueryError Answer
  logical_column_value v declared = logical_value v (sqlite_logical_type declared)
