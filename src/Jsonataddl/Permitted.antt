-- ===== src/Jsonataddl/Permitted.antt =====
-- jsonataddl/evaluate.go: what holds of every output that is validated.
use tailapps.Prelude.{
  ℕ, ◌≤◌, ◌≡◌, refl, ap, sym, ◌∙◌, ◌⊎◌, inl, inr, String, Bool, true, false, not, ◌&&◌, ◌||◌, List,
  [], ◌∷◌, any, Result, ok, ◌>>◌, ◌>>=◌, guard, guard-eq-ok, >>=-eq-ok, str_eq, eq_iff, leb, ◌==◌,
  length, All, Bool-cases, arith,
}
use tailapps.Jsonataddl.Types.{Codec, Column}
use tailapps.Jsonataddl.Names.{key_columns_of}
use tailapps.Jsonataddl.Output.{
  Raw, RawChanges, RawResult, Row, TableChanges, EvaluationResult, Decoder, OutputError, decoded,
  decode_facts, decode_rows, with_rows, Plan, find_table, check_events, check_changes, check_tables,
  row_changes, is_empty, finish_output, check_output, validate_output, undeclared_event,
  too_many_events, undeclared_table, invalid_changes, too_many_row_changes, ineffective_changes,
  invalid_decision, facts_missing, too_many_facts, tables_missing, folds_cannot_emit,
  not_one_object, invalid_row, invalid_event, invalid_fact,
}
use tailapps.Jsonataddl.Proper.{Proper, decode_rows-Proper}

length-decode_facts :
    (d : Decoder) (raws : List Raw) (rows : List Row)
    → decode_facts d raws ≡ ok rows
    → length rows ≡ length raws
unfolding decode_facts
length-decode_facts d [] rows h = let e : [] ≡ rows = cc in rw (sym e) refl
length-decode_facts d (raw ∷ rest) rows h =
    let last : Row → List Row → Result OutputError (List Row) = λ row later. ok (row ∷ later) in
    let (row, read, then1) =
      >>=-eq-ok (decoded invalid_fact (d.decode_object raw))
        (λ (row : Row). decode_facts d rest >>= last row) h in
    let (later, tail, end) = >>=-eq-ok (decode_facts d rest) (last row) then1 in
    let e : row ∷ later ≡ rows = cc in
    rw (sym e) (omega (arith, length-decode_facts d rest later tail))

module _ (c : Codec) (d : Decoder) (p : Plan) where
  -- The rows under one event name: only a normalizer emits, only the private event, no more than the
  -- limit, and complete rows of its columns.
  pub record Emission (e : String × List Row) : Type 0 where
    pub normalizer : p.program.normalizer ≡ true
    pub name : e.0 ≡ p.event_name
    pub bound : length e.1 ≤ p.limits.max_events
    pub rows : All (Proper c p.event_columns true) e.1

  -- The changes of one table: the program writes it, inserted and upserted rows are complete, and
  -- deleted ones are keys.
  pub record Mutation (t : String × TableChanges) : Type 0 where
    pub writes : any (λ w. str_eq w t.0) p.program.writes ≡ true
    pub inserts : All (Proper c (find_table t.0 p.tables).columns true) t.1.insert
    pub upserts : All (Proper c (find_table t.0 p.tables).columns true) t.1.upsert
    pub deletes : All (Proper c (key_columns_of (find_table t.0 p.tables)) false) t.1.delete

  pub record Permitted (r : EvaluationResult) : Type 0 where
    pub decision : (r.decision ≡ "effective") ⊎ (r.decision ≡ "ineffective")
    pub facts : length r.facts ≤ p.limits.max_facts
    pub events : All Emission r.events
    pub tables : All Mutation r.tables
    pub changes : row_changes c d p r.tables ≤ p.limits.max_row_changes
    pub ineffective :
        r.decision ≡ "ineffective" → (r.events ≡ []) × (row_changes c d p r.tables ≡ 0)

  leb_le : (a b : ℕ) → leb a b ≡ true → a ≤ b
  leb_le a b h = ground (arith, h)

  with_rows-All :
      (name : String) (rows : List Row) (later : List (String × List Row))
      → Emission (name, rows)
      → All Emission later
      → All Emission (with_rows name rows later)
  with_rows-All name [] later h k = k
  with_rows-All name (row ∷ rows) later h k = (h, k)

  check_events-All :
      (raw : List (String × List Raw)) (events : List (String × List Row))
      → check_events c d p raw ≡ ok events
      → All Emission events
  unfolding check_events
  check_events-All [] events h = let e : [] ≡ events = cc in rw (sym e) tt
  check_events-All ((name, payloads) ∷ rest) events h =
      let own = p.program.normalizer && str_eq name p.event_name in
      let few = leb (length payloads) p.limits.max_events in
      let last : List Row
          → List (String × List Row)
          → Result OutputError (List (String × List Row)) =
        λ rows later. ok (with_rows name rows later) in
      let next : List Row → Result OutputError (List (String × List Row)) =
        λ rows. check_events c d p rest >>= last rows in
      let body = decode_rows c d (invalid_event name) p.event_columns true payloads >>= next in
      let (mine, then1) =
        guard-eq-ok own (undeclared_event name) (guard few too_many_events >> body) h in
      let (bounded, then2) = guard-eq-ok few too_many_events body then1 in
      let (rows, read, then3) =
        >>=-eq-ok (decode_rows c d (invalid_event name) p.event_columns true payloads) next then2 in
      let (later, tail, end) = >>=-eq-ok (check_events c d p rest) (last rows) then3 in
      let (proper, count) =
        decode_rows-Proper c d (invalid_event name) p.event_columns true payloads rows read in
      let e : with_rows name rows later ≡ events = cc in
      rw (sym e) (
        with_rows-All name rows later
          (record {
            normalizer = ground (arith, mine);
            name = (eq_iff name p.event_name).0 (ground (arith, mine));
            bound = omega (arith, count, leb_le (length payloads) p.limits.max_events bounded);
            rows = proper;
          })
          (check_events-All rest later tail))

  check_changes-Mutation :
      (name : String) (raw : RawChanges) (changes : TableChanges)
      → any (λ w. str_eq w name) p.program.writes ≡ true
      → check_changes c d p name (find_table name p.tables) raw ≡ ok changes
      → Mutation (name, changes)
  unfolding check_changes
  check_changes-Mutation name raw changes mine h =
      let t = find_table name p.tables in
      let rows : List Column → Bool → List Raw → Result OutputError (List Row) =
        λ columns complete raws. decode_rows c d (invalid_row name) columns complete raws in
      let last : List Row → List Row → List Row → Result OutputError TableChanges =
        λ i u x. ok (record { insert = i; upsert = u; delete = x }) in
      let third : List Row → List Row → Result OutputError TableChanges =
        λ i u. rows (key_columns_of t) false raw.delete >>= last i u in
      let second : List Row → Result OutputError TableChanges =
        λ i. rows t.columns true raw.upsert >>= third i in
      let (i, read_i, then1) = >>=-eq-ok (rows t.columns true raw.insert) second h in
      let (u, read_u, then2) = >>=-eq-ok (rows t.columns true raw.upsert) (third i) then1 in
      let (x, read_x, end) =
        >>=-eq-ok (rows (key_columns_of t) false raw.delete) (last i u) then2 in
      let made : TableChanges = record { insert = i; upsert = u; delete = x } in
      let e : made ≡ changes = cc in
      rw (sym e) (record {
        writes = mine;
        inserts = (decode_rows-Proper c d (invalid_row name) t.columns true raw.insert i read_i).0;
        upserts = (decode_rows-Proper c d (invalid_row name) t.columns true raw.upsert u read_u).0;
        deletes =
            (decode_rows-Proper c d (invalid_row name) (key_columns_of t) false raw.delete x
              read_x).0;
      })

  check_tables-All :
      (raw : List (String × Raw)) (tables : List (String × TableChanges))
      → check_tables c d p raw ≡ ok tables
      → All Mutation tables
  unfolding check_tables
  check_tables-All [] tables h = let e : [] ≡ tables = cc in rw (sym e) tt
  check_tables-All ((name, raw) ∷ rest) tables h =
      let mine = any (λ w. str_eq w name) p.program.writes in
      let last : TableChanges
          → List (String × TableChanges)
          → Result OutputError (List (String × TableChanges)) =
        λ checked later. ok ((name, checked) ∷ later) in
      let third : TableChanges → Result OutputError (List (String × TableChanges)) =
        λ checked. check_tables c d p rest >>= last checked in
      let second : RawChanges → Result OutputError (List (String × TableChanges)) =
        λ changes. check_changes c d p name (find_table name p.tables) changes >>= third in
      let body = decoded (invalid_changes name) (d.decode_changes raw) >>= second in
      let (writes, then1) = guard-eq-ok mine (undeclared_table name) body h in
      let (changes, read, then2) =
        >>=-eq-ok (decoded (invalid_changes name) (d.decode_changes raw)) second then1 in
      let (checked, valid, then3) =
        >>=-eq-ok (check_changes c d p name (find_table name p.tables) changes) third then2 in
      let (later, tail, end) = >>=-eq-ok (check_tables c d p rest) (last checked) then3 in
      let e : (name, checked) ∷ later ≡ tables = cc in
      rw (sym e)
        (check_changes-Mutation name changes checked writes valid, check_tables-All rest later tail)

  empty_lem {ℓ} : {A : Type ℓ} (xs : List A) → is_empty c d p xs ≡ true → xs ≡ []
  empty_lem [] h = refl
  empty_lem (x ∷ xs) h = cc

  idle : (b e z : Bool) → not (b && (not e || not z)) ≡ true → b ≡ true → (e ≡ true) × (z ≡ true)
  idle b e z h k = (ground (arith, h, k), ground (arith, h, k))

  zero_lem : (n : ℕ) → (n == 0) ≡ true → n ≡ 0
  zero_lem n h = ground (arith, h)

  either_lem :
      (s : String)
      → (str_eq s "effective" || str_eq s "ineffective") ≡ true
      → (s ≡ "effective") ⊎ (s ≡ "ineffective")
  either_lem s h = elim (Bool-cases (str_eq s "effective")) [
    | inl e ↦ inl ((eq_iff s "effective").0 e)
    | inr e ↦ inr ((eq_iff s "ineffective").0 (sym (ap (λ b. b || str_eq s "ineffective") e) ∙ h))
  ]

  finish_output-Permitted :
      (decision : String) (facts : List Row) (events : List (String × List Row))
      (tables : List (String × TableChanges)) (r : EvaluationResult)
      → (decision ≡ "effective") ⊎ (decision ≡ "ineffective")
      → length facts ≤ p.limits.max_facts
      → All Emission events
      → All Mutation tables
      → finish_output c d p decision facts events tables ≡ ok r
      → Permitted r
  unfolding finish_output
  finish_output-Permitted decision facts events tables r either few emissions mutations h =
      let count = row_changes c d p tables in
      let made : EvaluationResult = record {
        decision = decision;
        facts = facts;
        events = events;
        tables = tables;
      } in
      let quiet =
        not (str_eq decision "ineffective" && (not (is_empty c d p events) || not (count == 0))) in
      let (bounded, then1) =
        guard-eq-ok (leb count p.limits.max_row_changes) too_many_row_changes
          (guard quiet ineffective_changes >> ok made) h in
      let (still, end) = guard-eq-ok quiet ineffective_changes (ok made) then1 in
      let e : made ≡ r = cc in
      rw (sym e) (record {
        decision = either;
        facts = few;
        events = emissions;
        tables = mutations;
        changes = leb_le count p.limits.max_row_changes bounded;
        ineffective = λ same.
            let (none_out, zero) =
              idle (str_eq decision "ineffective") (is_empty c d p events) (count == 0) still
                ((eq_iff decision "ineffective").1 same) in
            (empty_lem events none_out, zero_lem count zero);
      })

  check_output-Permitted :
      (raw : RawResult) (r : EvaluationResult) → check_output c d p raw ≡ ok r → Permitted r
  unfolding check_output
  check_output-Permitted raw r h =
      let known = str_eq raw.decision "effective" || str_eq raw.decision "ineffective" in
      let last : List Row
          → List (String × List Row)
          → List (String × TableChanges)
          → Result OutputError EvaluationResult =
        λ rows events changes. finish_output c d p raw.decision rows events changes in
      let with_tables : List (String × Raw)
          → List Row
          → List (String × List Row)
          → Result OutputError EvaluationResult =
        λ tables rows events. check_tables c d p tables >>= last rows events in
      let emits = p.program.normalizer || is_empty c d p raw.events in
      let with_facts : List (String × Raw) → List Row → Result OutputError EvaluationResult =
        λ tables rows.
          guard emits folds_cannot_emit
          >> (check_events c d p raw.events >>= with_tables tables rows) in
      let with_raw : List Raw → List (String × Raw) → Result OutputError EvaluationResult =
        λ facts tables. decode_facts d facts >>= with_facts tables in
      let from_facts : List Raw → Result OutputError EvaluationResult = λ facts.
        guard (leb (length facts) p.limits.max_facts) too_many_facts
        >> (decoded tables_missing raw.tables >>= with_raw facts) in
      let (choice, then1) =
        guard-eq-ok known invalid_decision (decoded facts_missing raw.facts >>= from_facts) h in
      let (facts, some_facts, then2) =
        >>=-eq-ok (decoded facts_missing raw.facts) from_facts then1 in
      let (few, then3) =
        guard-eq-ok (leb (length facts) p.limits.max_facts) too_many_facts
          (decoded tables_missing raw.tables >>= with_raw facts) then2 in
      let (tables, some_tables, then4) =
        >>=-eq-ok (decoded tables_missing raw.tables) (with_raw facts) then3 in
      let (rows, read, then5) = >>=-eq-ok (decode_facts d facts) (with_facts tables) then4 in
      let (may, then6) =
        guard-eq-ok emits folds_cannot_emit
          (check_events c d p raw.events >>= with_tables tables rows) then5 in
      let (events, emitted, then7) =
        >>=-eq-ok (check_events c d p raw.events) (with_tables tables rows) then6 in
      let (changes, checked, end) =
        >>=-eq-ok (check_tables c d p tables) (last rows events) then7 in
      finish_output-Permitted raw.decision rows events changes r (either_lem raw.decision choice)
        (omega (
          arith,
          length-decode_facts d facts rows read,
          leb_le (length facts) p.limits.max_facts few,
        ))
        (check_events-All raw.events events emitted) (check_tables-All tables changes checked) end

  -- Every output that is validated keeps the limits on facts, events and row changes; events come
  -- from a normalizer only, are the private event and have complete rows of its columns; only tables
  -- that the program writes change, by complete rows or by keys, with values that their columns
  -- admit; and an ineffective decision changes nothing and emits nothing.
  pub validate_output-Permitted :
      (output : List ℕ) (r : EvaluationResult) → validate_output c d p output ≡ ok r → Permitted r
  unfolding validate_output
  validate_output-Permitted output r h =
      let (raw, read, rest) =
        >>=-eq-ok (decoded not_one_object (d.decode_result output)) (check_output c d p) h in
      check_output-Permitted raw r rest
