-- ===== src/Jsonataddl/Proper.antt =====
-- jsonataddl/evaluate.go: what holds of every row that is validated.
use tailapps.Prelude.{
  ◌≡◌, refl, sym, String, Bool, true, not, ◌&&◌, ◌||◌, List, [], ◌∷◌, Option, none, some, Result,
  ok, err, ◌>>◌, ◌>>=◌, guard-eq-ok, >>=-eq-ok, length, All, arith,
}
use tailapps.Jsonataddl.Types.{Json, Codec, Column}
use tailapps.Jsonataddl.Values.{ValueError, validate_value}
use tailapps.Jsonataddl.Output.{
  Raw, Row, Decoder, OutputError, find_column, column_value, check_entry, check_entries, holds,
  check_present, validate_change_row, decoded, decode_rows, missing_column,
}

module _ (c : Codec) where
  -- A column that was found, and a value that it admits.
  abbrev pub Admitted : Json → Option Column → Type 0
  Admitted v none = ⊥
  Admitted v (some column) =
      validate_value c v column.type (column.not_null || column.primary_key) ≡ ok tt

  -- Every value is of a declared column and admitted by it, and the columns that must be there are.
  pub record Proper (columns : List Column) (complete : Bool) (row : Row) : Type 0 where
    pub values : All (λ (e : String × Json). Admitted e.1 (find_column c e.0 columns)) row
    pub present :
        All
          (λ (column : Column).
            (complete || column.not_null || column.primary_key) ≡ true
            → holds c row column.name ≡ true)
          columns

  column_value_lem :
      (name : String) (res : Result ValueError (Unit {0}))
      → column_value c name res ≡ ok tt
      → res ≡ ok tt
  column_value_lem name (ok done) h = refl
  column_value_lem name (err e) h = cc

  check_entry-Admitted :
      (name : String) (v : Json) (o : Option Column) → check_entry c name v o ≡ ok tt → Admitted v o
  check_entry-Admitted name v none h = cc
  check_entry-Admitted name v (some column) h =
      column_value_lem name (validate_value c v column.type (column.not_null || column.primary_key))
        h

  check_entries-All :
      (columns : List Column) (row : Row)
      → check_entries c columns row ≡ ok tt
      → All (λ (e : String × Json). Admitted e.1 (find_column c e.0 columns)) row
  unfolding check_entries
  check_entries-All columns [] h = tt
  check_entries-All columns (e ∷ es) h =
      let (done, first, rest) =
        >>=-eq-ok (check_entry c e.0 e.1 (find_column c e.0 columns))
          (λ (u : Unit {0}). check_entries c columns es) h in
      (
        check_entry-Admitted e.0 e.1 (find_column c e.0 columns) first,
        check_entries-All columns es rest,
      )

  needed : (b h : Bool) → not (b && not h) ≡ true → b ≡ true → h ≡ true
  needed b h e k = ground (arith, e, k)

  check_present-All :
      (complete : Bool) (row : Row) (columns : List Column)
      → check_present c complete row columns ≡ ok tt
      → All
          (λ (column : Column).
            (complete || column.not_null || column.primary_key) ≡ true
            → holds c row column.name ≡ true)
          columns
  unfolding check_present
  check_present-All complete row [] h = tt
  check_present-All complete row (column ∷ rest) h =
      let b = complete || column.not_null || column.primary_key in
      let has = holds c row column.name in
      let (test, later) =
        guard-eq-ok (not (b && not has)) (missing_column column.name)
          (check_present c complete row rest) h in
      (needed b has test, check_present-All complete row rest later)

  pub validate_change_row-Proper :
      (row : Row) (columns : List Column) (complete : Bool)
      → validate_change_row c row columns complete ≡ ok tt
      → Proper columns complete row
  unfolding validate_change_row
  validate_change_row-Proper row columns complete h =
      let (done, values, present) =
        >>=-eq-ok (check_entries c columns row)
          (λ (u : Unit {0}). check_present c complete row columns) h in
      record {
        values = check_entries-All columns row values;
        present = check_present-All complete row columns present;
      }

  pub decode_rows-Proper :
      (d : Decoder) (failure : OutputError) (columns : List Column) (complete : Bool)
      (raws : List Raw) (rows : List Row)
      → decode_rows c d failure columns complete raws ≡ ok rows
      → All (Proper columns complete) rows × (length rows ≡ length raws)
  unfolding decode_rows
  decode_rows-Proper d failure columns complete [] rows h =
      let e : [] ≡ rows = cc in rw (sym e) (tt, refl)
  decode_rows-Proper d failure columns complete (raw ∷ rest) rows h =
      let check : Row → Result OutputError (Unit {0}) =
        λ row. validate_change_row c row columns complete in
      let last : Row → List Row → Result OutputError (List Row) = λ row later. ok (row ∷ later) in
      let tail : Row → Result OutputError (List Row) =
        λ row. decode_rows c d failure columns complete rest >>= last row in
      let (row, read, then1) =
        >>=-eq-ok (decoded failure (d.decode_object raw)) (λ (row : Row). check row >> tail row)
          h in
      let (done, valid, then2) = >>=-eq-ok (check row) (λ (u : Unit {0}). tail row) then1 in
      let (later, decoded_rest, end) =
        >>=-eq-ok (decode_rows c d failure columns complete rest) (last row) then2 in
      let (proper, count) = decode_rows-Proper d failure columns complete rest later decoded_rest in
      let e : row ∷ later ≡ rows = cc in
      rw (sym e)
        ((validate_change_row-Proper row columns complete valid, proper), omega (arith, count))
