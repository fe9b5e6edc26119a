-- ===== src/Jsonataddl/Storage.antt =====
-- jsonataddl/values.go: what is written to SQLite and what comes back.
use tailapps.Prelude.{
  ◌≡◌, ◌≢◌, refl, String, Bool, true, false, Option, none, some, Result, ok, arith, Bool-cases, inl,
  inr, guard, ap, ◌∙◌,
}
use tailapps.Prelude.Int.{ℤ, pos}
use tailapps.Jsonataddl.Types.{
  Json, null, bool, number, string, array, object, Codec, LogicalType, type_text, type_integer,
  type_real, type_boolean, type_blob, type_json, type_other,
}
use tailapps.Jsonataddl.Values.{
  is_exact, ValueError, validate_value, validate_present, exact_or, decoded_or, Bound, bound_nil,
  bound_int, bound_float, bound_text, bound_bytes, bound_json, bind_number, bind_other,
  bytes_or_empty, sqlite_bind_value, Stored, stored_nil, stored_int, stored_float, stored_text,
  stored_bytes, Logical, logical_json, logical_int, read_stored, read_row_value, answer_int,
  sqlite_logical_type, logical_value, logical_column_value, wrap_integer, must_be_exact_integer,
  must_be_text, must_be_an_integer, must_be_boolean, must_be_base64_text, string_in, number_in,
  bool_in, asserted,
}

module _ (c : Codec) where
  -- What the driver makes of a bound value in a column without a change of affinity; it refuses
  -- values of other Go types.
  abbrev column_of : Bound c → Option (Stored c)
  column_of bound_nil = some stored_nil
  column_of (bound_int n) = some (stored_int n)
  column_of (bound_float f) = some (stored_float f)
  column_of (bound_text s) = some (stored_text s)
  column_of (bound_bytes bytes) = some (stored_bytes bytes)
  column_of (bound_json v) = none

  -- The form in which a program reads a value of a declared type.
  abbrev integer_form : Option ℤ → Logical c
  integer_form none = logical_json null
  integer_form (some n) = logical_int n

  abbrev read_form : Json → LogicalType → Logical c
  read_form (number n) type_integer = integer_form (c.int64 n)
  read_form (string s) type_blob =
      logical_json (string (c.encode_base64 (bytes_or_empty c (c.decode_base64 s))))
  read_form v declared = logical_json v

  -- A value that the column takes, and that reads back as a given form.
  abbrev pub ReadsBack : Json → LogicalType → Type 0
  ReadsBack v declared =
      (s : Stored c) × (column_of (sqlite_bind_value c v declared) ≡ some s)
      × (read_row_value c s declared ≡ ok (read_form v declared))

  -- encoding/json decodes what it encodes.
  abbrev Decodes : Json → Type 0
  Decodes v = c.decode (c.marshal v) ≡ some v

  integer_bound :
      (n : String) (i : Option ℤ)
      → exact_or c i ≡ ok tt
      → (k : ℤ) × (i ≡ some k) × (is_exact k ≡ true)
  integer_bound n none h = cc
  integer_bound n (some k) h = elim (Bool-cases (is_exact k)) [
    | inl e ↦ (k, refl, e)
    | inr e ↦
        let bad : guard (is_exact k) must_be_exact_integer ≡ ok tt = h in ground (arith, e, bad)
  ]

  string_in_lem : (v : Json) (s : String) → string_in v ≡ some s → v ≡ string s
  string_in_lem (string t) s h = (let e : t ≡ s = cc in ap (λ x. string x) e)
  string_in_lem null s h = cc
  string_in_lem _ s h = cc

  number_in_lem : (v : Json) (s : String) → number_in v ≡ some s → v ≡ number s
  number_in_lem (number t) s h = (let e : t ≡ s = cc in ap (λ x. number x) e)
  number_in_lem null s h = cc
  number_in_lem _ s h = cc

  bool_in_lem : (v : Json) (s : Bool) → bool_in v ≡ some s → v ≡ bool s
  bool_in_lem (bool t) s h = (let e : t ≡ s = cc in ap (λ x. bool x) e)
  bool_in_lem null s h = cc
  bool_in_lem _ s h = cc

  -- Where an assertion is required and holds.
  asserted_lem {ℓ} :
      {A : Type ℓ} (failure : ValueError) (check : A → Result ValueError (Unit {0})) (o : Option A)
      → asserted c failure check o ≡ ok tt
      → (a : A) × (o ≡ some a) × (check a ≡ ok tt)
  asserted_lem failure check none h = cc
  asserted_lem failure check (some a) h = (a, refl, h)

  json_back : (v : Json) → Decodes v → v ≢ null → ReadsBack v type_json
  unfolding sqlite_bind_value read_row_value read_stored sqlite_logical_type
  json_back null d present = elim (present refl) [ ]
  json_back (number n) d present = (stored_text (c.marshal (number n)), refl, rw d refl)
  json_back (bool b) d present = (stored_text (c.marshal (bool b)), refl, rw d refl)
  json_back (string s) d present = (stored_text (c.marshal (string s)), refl, rw d refl)
  json_back (array a) d present = (stored_text (c.marshal (array a)), refl, rw d refl)
  json_back (object m) d present = (stored_text (c.marshal (object m)), refl, rw d refl)

  bit_back : (b : Bool) → ReadsBack (bool b) type_boolean
  unfolding sqlite_bind_value bind_other read_row_value read_stored sqlite_logical_type
  bit_back true = (stored_int (pos 1), refl, refl)
  bit_back false = (stored_int (pos 0), refl, refl)

  number_back :
      (n : String) (i : Option ℤ) (k : ℤ)
      → c.int64 n ≡ i
      → i ≡ some k
      → ReadsBack (number n) type_integer
  unfolding sqlite_bind_value bind_other read_row_value read_stored sqlite_logical_type
  number_back n i k e f = rw (e ∙ f) (stored_int k, refl, refl)

  null_form :
      (declared : LogicalType) → ◌≡◌ {A = Logical c} (logical_json null) (read_form null declared)
  null_form type_integer = refl
  null_form type_blob = refl
  null_form _ = refl

  present-ReadsBack :
      (v : Json)
      → Decodes v
      → (declared : LogicalType) → validate_present c v declared ≡ ok tt
      → declared ≢ type_real
      → v ≢ null
      → ReadsBack v declared
  unfolding validate_present sqlite_bind_value bind_other read_row_value read_stored
      sqlite_logical_type
  present-ReadsBack v d type_text h real present =
      let (s, e, _) = asserted_lem must_be_text (λ (s : String). ok tt) (string_in v) h in
      rw (string_in_lem v s e) (stored_text s, refl, refl)
  present-ReadsBack v d type_integer h real present =
      let (n, e, k) =
        asserted_lem must_be_an_integer (λ (n : String). exact_or c (c.int64 n)) (number_in v) h in
      let (i, f, _) = integer_bound n (c.int64 n) k in
      rw (number_in_lem v n e) (number_back n (c.int64 n) i refl f)
  present-ReadsBack v d type_real h real present = elim (real refl) [ ]
  present-ReadsBack v d type_boolean h real present =
      let (b, e, _) = asserted_lem must_be_boolean (λ (b : Bool). ok tt) (bool_in v) h in
      rw (bool_in_lem v b e) (bit_back b)
  present-ReadsBack v d type_blob h real present =
      let (s, e, _) =
        asserted_lem must_be_base64_text (λ (s : String). decoded_or c (c.decode_base64 s))
          (string_in v) h in
      rw (string_in_lem v s e) (stored_bytes (bytes_or_empty c (c.decode_base64 s)), refl, refl)
  present-ReadsBack v d type_json h real present = json_back v d present
  present-ReadsBack v d (type_other name) h real present = cc

  -- A value that ValidateValue admits for a column, REAL ones aside, is taken by the column and reads
  -- back: JSON that its encoding decodes to, texts and booleans as they were, integers as the native number, and base64 text as
  -- the canonical text of the bytes that it stands for.
  pub validate_value-ReadsBack :
      (v : Json)
      → Decodes v
      → (declared : LogicalType) (not_null : Bool) → validate_value c v declared not_null ≡ ok tt
      → declared ≢ type_real
      → ReadsBack v declared
  unfolding validate_value sqlite_bind_value read_row_value
  validate_value-ReadsBack null d declared not_null h real =
      (stored_nil, refl, ap (λ l. ok l) (null_form declared))
  validate_value-ReadsBack (bool b) d declared not_null h real =
      present-ReadsBack (bool b) d declared h real (λ e. cc)
  validate_value-ReadsBack (number n) d declared not_null h real =
      present-ReadsBack (number n) d declared h real (λ e. cc)
  validate_value-ReadsBack (string s) d declared not_null h real =
      present-ReadsBack (string s) d declared h real (λ e. cc)
  validate_value-ReadsBack (array a) d declared not_null h real =
      present-ReadsBack (array a) d declared h real (λ e. cc)
  validate_value-ReadsBack (object m) d declared not_null h real =
      present-ReadsBack (object m) d declared h real (λ e. cc)

  -- An integer that ValidateValue admits is bound as a number within the exact range, and a query
  -- answers with that number itself, never with the wrapper.
  pub validate_value-exact :
      (n : String) (not_null : Bool)
      → validate_value c (number n) type_integer not_null ≡ ok tt
      → (k : ℤ) × (sqlite_bind_value c (number n) type_integer ≡ bound_int k)
        × (is_exact k ≡ true)
        × (logical_column_value c (stored_int k) type_integer ≡ ok (answer_int k))
  unfolding validate_value validate_present sqlite_bind_value bind_other logical_column_value
      logical_value sqlite_logical_type wrap_integer
  validate_value-exact n not_null h =
      let (k, e, exact) = integer_bound n (c.int64 n) h in
      (
        k,
        (let bound : bind_number c n (c.int64 n) (c.float64 n) ≡ bound_int k =
              ap (λ i. bind_number c n i (c.float64 n)) e in
            bound),
        exact,
        rw exact refl,
      )
