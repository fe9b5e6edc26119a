-- ===== src/Projection/Again.antt =====
-- internal/projection/projection.go: a delivery that Process has accepted, when it comes again.
use tailapps.Prelude.{
  ℕ, ◌+◌, ◌≤◌, ◌≡◌, refl, sym, ◌∙◌, ◌⊎◌, inl, inr, Bool, true, ◌||◌, List, Result, ok, err, arith,
  leb, ◌==◌, Bool-cases,
}
use tailapps.Inbox.Tables.{Delivery}
use tailapps.Projection.Types.{Failure, Projection, Outcome}
use tailapps.Projection.Host.{Host}
use tailapps.Projection.Evaluation.{refuse}
use tailapps.Projection.Process.{
  same_id, is_some, interpret, Made, advance, conclude, process, applied,
}
use tailapps.Projection.Atomic.{conclude_err}
use tailapps.Projection.Replay.{Seen, process-Seen, Attempt, attempts, attempts-History}

module _ (host : Host) where
  open host use {Rows}

  -- The answers to a delivery at or before the frontier.
  abbrev pub Old : Projection Rows → Result Failure Outcome → Type 0
  Old q answer =
      (answer ≡ ok (applied host q))
      ⊎ (answer ≡ refuse "projection is gapped")
      ⊎ (answer ≡ refuse "delivery position precedes projection frontier")

  -- Nothing is changed, whenever the call is made.
  abbrev pub Unmoved : Projection Rows → Delivery → Type 0
  Unmoved q d =
      (done : Bool) (now : ℕ)
      → ((process host done now q d).0 ≡ q) × Old q (process host done now q d).1

  conclude_passed :
      (done : Bool) (now : ℕ) (p : Projection Rows) (d : Delivery) (m : Result Failure (Made host))
      {o : Outcome}
      → (conclude host done now p d m).1 ≡ ok o
      → d.position ≤ (conclude host done now p d m).0.frontier.interpreted_position
  unfolding conclude advance
  conclude_passed done now p d (ok made) h = omega arith
  conclude_passed done now p d (err g) {o} h =
      let bad : err g ≡ ok o = sym (conclude_err host done now p d g) ∙ h in cc

  process_passed :
      (done : Bool) (now : ℕ) (p : Projection Rows) (d : Delivery) {o : Outcome}
      → (process host done now p d).1 ≡ ok o
      → d.position ≤ (process host done now p d).0.frontier.interpreted_position
  unfolding process
  process_passed done now p d {o} h = elim (Bool-cases (is_some p.frontier.gap_position)) [
    | inl gapped ↦ ground arith
    | inr open_ ↦ elim (Bool-cases (leb d.position p.frontier.interpreted_position)) [
      | inl old ↦
          elim (Bool-cases (
            same_id d.event_id p.frontier.last_event_id
            || leb d.position p.frontier.activation_boundary)) [
              | inl seen ↦ rw (open_, old, seen) (ground (arith, old))
              | inr other ↦ rw (open_, old, other) (ground (arith, old))
            ]
      | inr new ↦ elim (Bool-cases (d.position == p.frontier.interpreted_position + 1)) [
        | inl next ↦
            rw (open_, new, next)
              (conclude_passed done now p d (interpret host p.profile d p.rows) {o = o}
                (ground arith))
        | inr far ↦ ground arith
      ]
    ]
  ]

  passed-Unmoved :
      (q : Projection Rows) (d : Delivery)
      → d.position ≤ q.frontier.interpreted_position
      → Unmoved q d
  unfolding process
  passed-Unmoved q d h done now =
      let old : leb d.position q.frontier.interpreted_position ≡ true = ground (arith, h) in
      elim (Bool-cases (is_some q.frontier.gap_position)) [
        | inl gapped ↦ rw gapped (refl, inr (inl refl))
        | inr open_ ↦
            elim (Bool-cases (
              same_id d.event_id q.frontier.last_event_id
              || leb d.position q.frontier.activation_boundary)) [
                | inl seen ↦ rw (open_, old, seen) (refl, inl refl)
                | inr other ↦ rw (open_, old, other) (refl, inr (inr refl))
              ]
      ]

  -- After a call of `Process` that succeeded, the same delivery directly again is reported as
  -- already applied; and after whatever further calls it changes nothing, whether or not the call's
  -- context has ended, and the answer is that it was already applied, that there is a gap, or that
  -- it precedes the frontier.
  pub process_again :
      (done : Bool) (now : ℕ) (p : Projection Rows) (d : Delivery) {o : Outcome}
      → (process host done now p d).1 ≡ ok o
      → Seen host (process host done now p d).0 d
        × ((tries : List (Attempt host))
            → Unmoved (attempts host (process host done now p d).0 tries) d)
  process_again done now p d {o} h =
      let p' = (process host done now p d).0 in
      let passed = process_passed done now p d {o = o} h in
      (
        process-Seen host done now p d {o = o} h,
        λ tries.
            let (ds, history) = attempts-History host p' tries in
            passed-Unmoved (attempts host p' tries) d (omega (arith, passed, history.position)),
      )
