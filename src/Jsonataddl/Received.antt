-- ===== src/Jsonataddl/Received.antt =====
-- jsonataddl/input.go: what holds of every input that validateInput accepts with its rows.
use tailapps.Prelude.{
  ◌≡◌, refl, String, Bool, true, false, List, ◌++◌, any, Option, none, some, ok, ◌>>◌, ◌>>=◌,
  >>=-eq-ok, str_eq, if◌then◌else◌, All,
}
use tailapps.Jsonataddl.Types.{Json, object, Members, entries, Codec, Program}
use tailapps.Jsonataddl.Contract.{
  InputField, scalar_input_fields, column_input_fields, find_entry, sort_entries,
  validate_input_member, validate_input_object,
}
use tailapps.Jsonataddl.Conforms.{Conforms, validate_input_object_iff, sort_entries-All}
use tailapps.Jsonataddl.Input.{
  InputPlan, in_meta, in_event, or_null, within, check_reads, check_unknown, validate_input_rows,
  event_contract, object_or, check_parts,
}
use tailapps.Jsonataddl.Declared.{within-ok, Given, check_reads-All, check_unknown-All}

module _ (c : Codec) (p : InputPlan) where
  -- The event of a program: the envelope with the host's members, or the columns of the private event.
  abbrev pub EventFits : Bool → Json → Type 0
  EventFits true v =
      Conforms (validate_input_member c) (scalar_input_fields p.envelope ++ p.event_fields)
        p.event_nullable v
  EventFits false v =
      Conforms (validate_input_member c) (column_input_fields p.private_columns) false v

  -- An object whose parts are as declared: the metadata, the event, and an object of rows with those
  -- of each read and no others.
  pub record Received (program : Program) (v : Option Json) : Type 0 where
    pub parts : Members
    pub is_object : v ≡ some (object parts)
    pub meta :
        Conforms
          (validate_input_member c)
          p.meta_fields
          p.meta_nullable
          (or_null (find_entry "meta" (entries parts)))
    pub event : EventFits program.normalizer (or_null (find_entry "event" (entries parts)))
    pub rows : Members
    pub is_rows : find_entry "rows" (entries parts) ≡ some (object rows)
    pub given : All (Given c p (entries rows)) program.reads
    pub known :
        All
          (λ (e : String × Json). any (λ r. str_eq r.name e.0) program.reads ≡ true)
          (entries rows)

abbrev contract_of : InputPlan → Bool → List InputField × Bool
contract_of p b =
    if b
    then (scalar_input_fields p.envelope ++ p.event_fields, p.event_nullable)
    else (column_input_fields p.private_columns, false)

module _ (c : Codec) (p : InputPlan) where
  event-Fits :
      (v : Json) (b : Bool)
      → validate_input_object c v (contract_of p b).0 (contract_of p b).1 ≡ ok tt
      → EventFits c p b v
  event-Fits v true h =
      (validate_input_object_iff c v (scalar_input_fields p.envelope ++ p.event_fields)
          p.event_nullable).0
        h
  event-Fits v false h =
      (validate_input_object_iff c v (column_input_fields p.private_columns) false).0 h

  rows-Given :
      (program : Program) (o : Option Json)
      → validate_input_rows c p program (or_null o) ≡ ok tt
      → (rows : Members) × (o ≡ some (object rows))
        × All (Given c p (entries rows)) program.reads
        × All
            (λ (e : String × Json). any (λ r. str_eq r.name e.0) program.reads ≡ true)
            (entries rows)
  unfolding validate_input_rows
  rows-Given program none h = cc
  rows-Given program (some (object rows)) h =
      let (u, given, known) =
        >>=-eq-ok (check_reads c p.tables program.reads (entries rows))
          (λ u. check_unknown c program.reads (sort_entries (entries rows))) h in
      (
        rows,
        refl,
        check_reads-All c p program.reads (entries rows) given,
        (sort_entries-All _ (entries rows)).0
            (check_unknown-All c program.reads (sort_entries (entries rows)) known),
      )
  rows-Given program (some _) h = cc

  parts-Received :
      (program : Program) (parts : Members)
      → check_parts c p program true (entries parts) ≡ ok tt
      → Received c p program (some (object parts))
  unfolding event_contract
  parts-Received program parts h =
      let es = entries parts in
      let event = or_null (find_entry "event" es) in
      let meta_checked =
        validate_input_object c (or_null (find_entry "meta" es)) p.meta_fields p.meta_nullable in
      let event_checked =
        validate_input_object c event (event_contract c p program).0
          (event_contract c p program).1 in
      let rows_checked = validate_input_rows c p program (or_null (find_entry "rows" es)) in
      let (u, meta, then1) =
        >>=-eq-ok (within in_meta meta_checked) (λ u. within in_event event_checked >> rows_checked)
          h in
      let (u', fits, then2) = >>=-eq-ok (within in_event event_checked) (λ u. rows_checked) then1 in
      let (rows, is_rows, given, known) = rows-Given program (find_entry "rows" es) then2 in
      record {
        parts = parts;
        is_object = refl;
        meta =
            (validate_input_object_iff c (or_null (find_entry "meta" es)) p.meta_fields
                p.meta_nullable).0
              (within-ok in_meta meta_checked meta);
        event = event-Fits event program.normalizer (within-ok in_event event_checked fits);
        rows = rows;
        is_rows = is_rows;
        given = given;
        known = known;
      }

  -- What `validateInput` accepts, after the tests of its bytes, with its rows.
  pub decoded-Received :
      (program : Program) (v : Option Json)
      → (object_or c v >>= check_parts c p program true) ≡ ok tt
      → Received c p program v
  decoded-Received program (some (object parts)) h = parts-Received program parts h
  decoded-Received program none h = cc
  decoded-Received program (some _) h = cc
