-- ===== src/Jsonataddl/Claimed.antt =====
-- jsonataddl/compile.go: the claims of all programs in validateTopology.
use tailapps.Prelude.{
  ◌≡◌, refl, ap, sym, ◌∙◌, inl, inr, String, false, not, List, [], ◌∷◌, ◌++◌, any, Option, none,
  some, Result, ok, ◌>>◌, >>=-eq-ok, guard-eq-ok, str_eq, eq_iff, All, Option-cases, arith,
  append_assoc, append-nil,
}
use tailapps.Jsonataddl.Types.{Table, Program, Read}
use tailapps.Jsonataddl.Views.{find_key}
use tailapps.Jsonataddl.Topology.{
  Plan, Claims, TopologyError, claim, claim_all, check_parameters, parameter_fields, claim_programs,
  check_written, no_writer, undeclared_field,
}
use tailapps.Jsonataddl.Lookups.{All-find_key}
use tailapps.Jsonataddl.Owners.{pairs, declared_writes, OwnedBy, Tracked, claim-Tracked}

claim_all-Tracked :
    (program : String) (names : List String) (c c' : Claims)
    → claim_all program names c ≡ ok c'
    → Tracked c
    → Tracked c' × (c'.writers ≡ c.writers ++ pairs program names)
unfolding claim_all
claim_all-Tracked program [] c c' h tracked =
    let same : c ≡ c' = cc in rw (sym same) (tracked, sym (append-nil c.writers))
claim_all-Tracked program (name ∷ rest) c c' h tracked =
    let (d, step, then1) =
      >>=-eq-ok (claim program name c (find_key name c.tables) (find_key name c.writers))
        (claim_all program rest) h in
    let (kept, one) =
      claim-Tracked program name c d (find_key name c.tables) (find_key name c.writers) refl refl
        step tracked in
    let (all, more) = claim_all-Tracked program rest d c' then1 kept in
    (
      all,
      more
          ∙ ap (λ l. l ++ pairs program rest) one
          ∙ append_assoc c.writers ((name, program) ∷ []) (pairs program rest),
    )

module _ (p : Plan) where
  -- The parameters of a program's reads are fields that it may name.
  abbrev pub Named : Program → Read → Type 0
  Named program read =
      any (λ q. not (any (λ f. str_eq f q) (parameter_fields p program))) read.parameters ≡ false

  check_parameters-All :
      (program : Program) (reads : List Read)
      → check_parameters (parameter_fields p program) program reads ≡ ok tt
      → All (Named program) reads
  unfolding check_parameters
  check_parameters-All program [] h = tt
  check_parameters-All program (read ∷ reads) h =
      let test =
        not (any (λ q. not (any (λ f. str_eq f q) (parameter_fields p program))) read.parameters) in
      let (good, rest) =
        guard-eq-ok test (undeclared_field program.name read.name)
          (check_parameters (parameter_fields p program) program reads) h in
      (ground (arith, good), check_parameters-All program reads rest)

  pub claim_programs-Tracked :
      (ps : List Program) (c c' : Claims)
      → claim_programs p ps c ≡ ok c'
      → Tracked c
      → Tracked c'
        × (c'.writers ≡ c.writers ++ declared_writes ps)
        × All (λ (program : Program). All (Named program) program.reads) ps
  unfolding claim_programs
  claim_programs-Tracked [] c c' h tracked =
      let same : c ≡ c' = cc in rw (sym same) (tracked, sym (append-nil c.writers), tt)
  claim_programs-Tracked (program ∷ rest) c c' h tracked =
      let fields = parameter_fields p program in
      let last : Claims → Result TopologyError Claims =
        λ d. check_parameters fields program program.reads >> claim_programs p rest d in
      let (d, step, then1) = >>=-eq-ok (claim_all program.name program.writes c) last h in
      let (u, named, then2) =
        >>=-eq-ok (check_parameters fields program program.reads) (λ u. claim_programs p rest d)
          then1 in
      let (kept, mine) = claim_all-Tracked program.name program.writes c d step tracked in
      let (all, more, others) = claim_programs-Tracked rest d c' then2 kept in
      (
        all,
        more
            ∙ ap (λ l. l ++ declared_writes rest) mine
            ∙ append_assoc c.writers (pairs program.name program.writes) (declared_writes rest),
        (check_parameters-All program program.reads named, others),
      )

check_written-All :
    (tables : List (String × Table))
    → check_written tables ≡ ok tt
    → All (λ (e : String × Table). str_eq e.1.writer "" ≡ false) tables
unfolding check_written
check_written-All [] h = tt
check_written-All ((name, t) ∷ rest) h =
    let (good, more) =
      guard-eq-ok (not (str_eq t.writer "")) (no_writer name) (check_written rest) h in
    (ground (arith, good), check_written-All rest more)

-- Where every table has a writer, it is the one that has claimed it.
pub claimed_by :
    (c : Claims) (n : String) (t : Table)
    → Tracked c
    → check_written c.tables ≡ ok tt
    → find_key n c.tables ≡ some t
    → find_key n c.writers ≡ some t.writer
claimed_by c n t tracked h found = elim (Option-cases (find_key n c.writers)) [
  | inl e ↦
      let some_writer =
        All-find_key (λ (x : String × Table). str_eq x.1.writer "" ≡ false) n t c.tables
          (check_written-All c.tables h) found in
      let empty : t.writer ≡ "" = owner none e (tracked.owned n t found) in
      let same = (eq_iff t.writer "").1 empty in cc
  | inr (w, e) ↦
      let mine : t.writer ≡ w = owner (some w) e (tracked.owned n t found) in
      e ∙ ap (λ x. some x) (sym mine)
]
  where
    owner :
        (o : Option String)
        → find_key n c.writers ≡ o
        → OwnedBy (find_key n c.writers) t
        → OwnedBy o t
    owner o e h = rw (sym e) h
