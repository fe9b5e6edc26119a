-- ===== src/Jsonataddl/Declared.antt =====
-- jsonataddl/input.go: what holds of the rows that validateInputRows accepts for each read.
use tailapps.Prelude.{
  ◌≤◌, ◌≡◌, refl, ◌⊎◌, inl, inr, String, Bool, true, false, List, [], ◌∷◌, any, Option, none, some,
  Result, ok, err, >>=-eq-ok, guard-eq-ok, str_eq, leb, if◌then◌else◌, length, All, arith,
}
use tailapps.Jsonataddl.Types.{
  Json, null, array, Array, items, Codec, Cardinality, one, optional_one, many, unsupported, Read,
}
use tailapps.Jsonataddl.Contract.{
  MemberError, find_entry, is_null, validate_input_member, validate_input_object,
}
use tailapps.Jsonataddl.Conforms.{Conforms, validate_input_object_iff}
use tailapps.Jsonataddl.Input.{
  InputError, InputPlan, in_read, within, read_fields, check_row, check_each, check_many, check_by,
  check_read, check_reads, check_unknown, not_so_many_rows, unknown_read,
}

pub within-ok :
    (wrap : MemberError → InputError) (r : Result MemberError (Unit {0}))
    → within wrap r ≡ ok tt
    → r ≡ ok tt
within-ok wrap (ok done) h = refl
within-ok wrap (err e) h = cc

module _ (c : Codec) (p : InputPlan) where
  -- One row of a read, by the columns that it selects.
  abbrev pub Row : Read → Json → Type 0
  Row read v = Conforms (validate_input_member c) (read_fields p.tables read) false v

  -- The rows of a read, by its cardinality.
  abbrev pub Shaped : Cardinality → Read → Json → Type 0
  Shaped one read v = Row read v
  Shaped optional_one read v = (is_null v ≡ true) ⊎ Row read v
  Shaped many read v =
      (rows : Array) × (v ≡ array rows)
      × (length (items rows) ≤ read.limit)
      × All (Row read) (items rows)
  Shaped (unsupported text) read v = ◌≡◌ {A = Bool} false true

  abbrev pub Given : List (String × Json) → Read → Type 0
  Given rows read =
      (v : Json) × (find_entry read.name rows ≡ some v) × Shaped read.cardinality read v

  check_row-Row :
      (read : Read) (v : Json)
      → check_row c (read_fields p.tables read) read.name v ≡ ok tt
      → Row read v
  unfolding check_row
  check_row-Row read v h = (validate_input_object_iff c v (read_fields p.tables read) false).0 (
      within-ok (in_read read.name) (validate_input_object c v (read_fields p.tables read) false) h)

  check_each-All :
      (read : Read) (vs : List Json)
      → check_each c (read_fields p.tables read) read.name vs ≡ ok tt
      → All (Row read) vs
  unfolding check_each
  check_each-All read [] h = tt
  check_each-All read (v ∷ vs) h =
      let fields = read_fields p.tables read in
      let (u, first, rest) =
        >>=-eq-ok (check_row c fields read.name v) (λ u. check_each c fields read.name vs) h in
      (check_row-Row read v first, check_each-All read vs rest)

  check_many-Shaped :
      (read : Read) (v : Json)
      → check_many c (read_fields p.tables read) read v ≡ ok tt
      → Shaped many read v
  check_many-Shaped read (array vs) h =
      let test = leb (length (items vs)) read.limit in
      let (few, rest) =
        guard-eq-ok test (not_so_many_rows read.name)
          (check_each c (read_fields p.tables read) read.name (items vs)) h in
      (vs, refl, ground (arith, few), check_each-All read (items vs) rest)
  check_many-Shaped read null h = cc
  check_many-Shaped read _ h = cc

  optional-Shaped :
      (read : Read) (v : Json) (b : Bool)
      → is_null v ≡ b
      → (if b then ok tt else check_row c (read_fields p.tables read) read.name v) ≡ ok tt
      → Shaped optional_one read v
  optional-Shaped read v true e h = inl e
  optional-Shaped read v false e h = inr (check_row-Row read v h)

  check_by-Shaped :
      (cardinality : Cardinality) (read : Read) (v : Json)
      → check_by c cardinality (read_fields p.tables read) read v ≡ ok tt
      → Shaped cardinality read v
  unfolding check_by
  check_by-Shaped one read v h = check_row-Row read v h
  check_by-Shaped optional_one read v h = optional-Shaped read v (is_null v) refl h
  check_by-Shaped many read v h = check_many-Shaped read v h
  check_by-Shaped (unsupported text) read v h = cc

  check_read-Given :
      (rows : List (String × Json)) (read : Read) (o : Option Json)
      → find_entry read.name rows ≡ o
      → check_read c p.tables read o ≡ ok tt
      → Given rows read
  check_read-Given rows read none e h = cc
  check_read-Given rows read (some v) e h = (v, e, check_by-Shaped read.cardinality read v h)

  pub check_reads-All :
      (reads : List Read) (rows : List (String × Json))
      → check_reads c p.tables reads rows ≡ ok tt
      → All (Given rows) reads
  unfolding check_reads
  check_reads-All [] rows h = tt
  check_reads-All (read ∷ reads) rows h =
      let (u, first, rest) =
        >>=-eq-ok (check_read c p.tables read (find_entry read.name rows))
          (λ u. check_reads c p.tables reads rows) h in
      (
        check_read-Given rows read (find_entry read.name rows) refl first,
        check_reads-All reads rows rest,
      )

pub check_unknown-All :
    (c : Codec) (reads : List Read) (es : List (String × Json))
    → check_unknown c reads es ≡ ok tt
    → All (λ (e : String × Json). any (λ r. str_eq r.name e.0) reads ≡ true) es
unfolding check_unknown
check_unknown-All c reads [] h = tt
check_unknown-All c reads (e ∷ es) h =
    let (good, rest) =
      guard-eq-ok (any (λ r. str_eq r.name e.0) reads) (unknown_read e.0) (check_unknown c reads es)
        h in
    (good, check_unknown-All c reads es rest)
