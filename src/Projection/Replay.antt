-- ===== src/Projection/Replay.antt =====
-- Many calls of `Process`: every delivery takes effect once, in order, whatever is repeated, fails
-- or is retried.
use tailapps.Prelude.{
  ℕ, ◌+◌, ◌≡◌, refl, ap, ◌∙◌, inl, inr, Bool, true, ◌||◌, List, [], ◌∷◌, ◌++◌, length,
  length-append, Result, ok, err, arith, leb, ◌==◌, Bool-cases,
}
use tailapps.Inbox.Tables.{Delivery}
use tailapps.Projection.Types.{Failure, Projection, Outcome, Profile}
use tailapps.Projection.Host.{Host}
use tailapps.Projection.Process.{
  same_id, is_some, interpret, Made, advance, conclude, process, applied,
}
use tailapps.Projection.Atomic.{same_id_refl, conclude_err, conclude_failed, IsNext, Refused}

module _ (host : Host) where
  open host use {Rows}

  ok_is_err : {o : Outcome} {f : Failure} → {r : Result Failure Outcome} → r ≡ err f → r ≡ ok o → ⊥
  ok_is_err e h = cc

  -- The answer to a delivery that was applied before.
  abbrev pub Seen : Projection Rows → Delivery → Type 0
  Seen p d = (done : Bool) (now : ℕ) → process host done now p d ≡ (p, ok (applied host p))

  Seen-after :
      (p : Projection Rows) (d : Delivery) (made : Made host) → Seen (advance host p d made) d
  unfolding process advance
  Seen-after p d made done now =
      let here : leb d.position d.position ≡ true = ground arith in
      rw (here, same_id_refl d.event_id)

  conclude_again :
      (done : Bool) (now : ℕ) (p : Projection Rows) (d : Delivery) (m : Result Failure (Made host))
      {o : Outcome}
      → (conclude host done now p d m).1 ≡ ok o
      → Seen (conclude host done now p d m).0 d
  unfolding conclude
  conclude_again done now p d (ok made) h = Seen-after p d made
  conclude_again done now p d (err g) h = absurd (ok_is_err (conclude_err host done now p d g) h)

  -- Directly after a call that succeeded.
  pub process-Seen :
      (done : Bool) (now : ℕ) (p : Projection Rows) (d : Delivery) {o : Outcome}
      → (process host done now p d).1 ≡ ok o
      → Seen (process host done now p d).0 d
  unfolding process
  process-Seen done now p d {o} h = elim (Bool-cases (is_some p.frontier.gap_position)) [
    | inl gapped ↦ λ done' now'. ground arith
    | inr open_ ↦ elim (Bool-cases (leb d.position p.frontier.interpreted_position)) [
      | inl old ↦
          elim (Bool-cases (
            same_id d.event_id p.frontier.last_event_id
            || leb d.position p.frontier.activation_boundary)) [
              | inl seen ↦ λ done' now'. rw (open_, old, seen) (rw (open_, old, seen))
              | inr other ↦ λ done' now'. ground arith
            ]
      | inr new ↦ elim (Bool-cases (d.position == p.frontier.interpreted_position + 1)) [
        | inl next ↦
            rw (open_, new, next)
              (conclude_again done now p d (interpret host p.profile d p.rows) {o = o}
                (ground arith))
        | inr far ↦ λ done' now'. ground arith
      ]
    ]
  ]

  -- The tables that come of interpreting deliveries at the positions after `start`, each once.
  pub data Replayed (profile : Profile) (start : ℕ) (rows : Rows)
      : List Delivery → Rows → Type 0 where
    nothing : Replayed profile start rows [] rows
    further :
        {ds : List Delivery} {now_rows : Rows} (d : Delivery) (made : Made host)
        → Replayed profile start rows ds now_rows
        → d.position ≡ start + length ds + 1
        → interpret host profile d now_rows ≡ ok made
        → Replayed profile start rows (ds ++ d ∷ []) made.rows

  pub record Attempt : Type 0 where
    pub done : Bool
    pub now : ℕ
    pub delivery : Delivery

  unfoldable pub attempts : Projection Rows → List Attempt → Projection Rows
  attempts p [] = p
  attempts p (a ∷ rest) = attempts (process host a.done a.now p a.delivery).0 rest

  -- `q` came from `p` by applying the deliveries `ds`.
  pub record History (p q : Projection Rows) (ds : List Delivery) : Type 0 where
    pub replayed : Replayed p.profile p.frontier.interpreted_position p.rows ds q.rows
    pub position : q.frontier.interpreted_position ≡ p.frontier.interpreted_position + length ds
    pub consumed : q.stats.consumed_records ≡ p.stats.consumed_records + length ds
    pub profile : q.profile ≡ p.profile

  Refused-History :
      {done : Bool} {now : ℕ} {p q q' : Projection Rows} {d : Delivery} {f : Failure}
      {ds : List Delivery}
      → Refused host done now q q' d f
      → History p q ds
      → History p q' ds
  Refused-History {p} {q} {q'} {ds} r h = record {
    replayed = rw (← r.rows) at h.replayed;
    position = r.position ∙ h.position;
    consumed = ap (λ s. s.consumed_records) r.stats ∙ h.consumed;
    profile = r.profile ∙ h.profile;
  }

  conclude-History :
      (done : Bool) (now : ℕ) (p q : Projection Rows) (d : Delivery) (ds : List Delivery)
      → IsNext host q d
      → History p q ds
      → (m : Result Failure (Made host)) → interpret host q.profile d q.rows ≡ m
      → (more : List Delivery) × History p (conclude host done now q d m).0 more
  conclude-History done now p q d ds next h (ok made) e =
      unfold conclude in
      (
        ds ++ d ∷ [],
        record {
          replayed =
              further d made h.replayed (next.1 ∙ ap (λ n. n + 1) h.position) (rw (← h.profile) e);
          position = omega (arith, next.1, h.position, length-append ds (d ∷ []));
          consumed = omega (arith, h.consumed, length-append ds (d ∷ []));
          profile = h.profile;
        },
      )
  conclude-History done now p q d ds next h (err f) e =
      (ds, Refused-History (conclude_failed host done now q d f next) h)

  process-History :
      (done : Bool) (now : ℕ) (p q : Projection Rows) (d : Delivery) (ds : List Delivery)
      → History p q ds
      → (more : List Delivery) × History p (process host done now q d).0 more
  unfolding process
  process-History done now p q d ds h = elim (Bool-cases (is_some q.frontier.gap_position)) [
    | inl gapped ↦ (ds, rw gapped h)
    | inr open_ ↦ elim (Bool-cases (leb d.position q.frontier.interpreted_position)) [
      | inl old ↦
          elim (Bool-cases (
            same_id d.event_id q.frontier.last_event_id
            || leb d.position q.frontier.activation_boundary)) [
              | inl seen ↦ (ds, rw (open_, old, seen) h)
              | inr other ↦ (ds, rw (open_, old, other) h)
            ]
      | inr new ↦ elim (Bool-cases (d.position == q.frontier.interpreted_position + 1)) [
        | inl next ↦
            rw (open_, new, next)
              (conclude-History done now p q d ds (ground arith, ground arith) h
                (interpret host q.profile d q.rows) refl)
        | inr far ↦ (ds, rw (open_, new, far) h)
      ]
    ]
  ]

  attempts-from :
      (p q : Projection Rows) (ds : List Delivery)
      → History p q ds
      → (tries : List Attempt) → (more : List Delivery) × History p (attempts q tries) more
  unfolding attempts
  attempts-from p q ds h [] = (ds, h)
  attempts-from p q ds h (a ∷ rest) =
      let (more, h') = process-History a.done a.now p q a.delivery ds h in
      attempts-from p (process host a.done a.now q a.delivery).0 more h' rest

  -- Whatever calls of `Process` are made, in any order, with repetitions, failures, gaps and ended
  -- contexts among them, there is a list of deliveries such that the tailapp's tables are what
  -- interpreting them, each once, one after another and at consecutive positions from the old
  -- frontier, makes of the old tables; the frontier's position and the count of consumed records
  -- have both grown by their number, and the profile is the old one.
  pub attempts-History :
      (p : Projection Rows) (tries : List Attempt)
      → (ds : List Delivery) × History p (attempts p tries) ds
  attempts-History p tries =
      attempts-from p p []
        (record {
          replayed = nothing;
          position = omega arith;
          consumed = omega arith;
          profile = refl;
        })
        tries
