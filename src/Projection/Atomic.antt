-- ===== src/Projection/Atomic.antt =====
-- One call of `Process`: what an error leaves, and what a repetition does.
use tailapps.Prelude.{
  ℕ, ◌+◌, ◌≡◌, refl, ap, ◌∙◌, sym, ◌⊎◌, inl, inr, Bool, true, false, ◌||◌, none, some, Result, ok,
  err, arith, leb, ◌==◌, Bool-cases, take,
}
use tailapps.Inbox.Tables.{EventId, blank, local, emitted, Delivery}
use tailapps.Projection.Types.{Failure, Projection}
use tailapps.Projection.Host.{Host}
use tailapps.Projection.Process.{
  same_id, is_some, interpret, Made, conclude, process, transient_process_error,
}

pub same_id_refl : (a : EventId) → same_id a a ≡ true
same_id_refl blank = refl
same_id_refl (local n) = ground arith
same_id_refl (emitted a n) = ground (arith, same_id_refl a)

err-injective : {A : Type 0} {f g : Failure} → ◌≡◌ {A = Result Failure A} (err f) (err g) → f ≡ g
err-injective {f} h = ap (elim [ err x ↦ x | ok _ ↦ f ]) h

module _ (host : Host) where
  open host use {Rows}

  -- The delivery is the one that the frontier waits for.
  abbrev pub IsNext : Projection Rows → Delivery → Type 0
  IsNext p d = (p.frontier.gap_position ≡ none) × (d.position ≡ p.frontier.interpreted_position + 1)

  -- How a failed call may leave the projection.
  pub record Refused (done : Bool) (now : ℕ) (p p' : Projection Rows) (d : Delivery) (f : Failure)
      : Type 0 where
    pub profile : p'.profile ≡ p.profile
    pub rows : p'.rows ≡ p.rows
    pub stats : p'.stats ≡ p.stats
    pub position : p'.frontier.interpreted_position ≡ p.frontier.interpreted_position
    pub last : p'.frontier.last_event_id ≡ p.frontier.last_event_id
    pub gap :
        (p' ≡ p)
        ⊎ ((p'.frontier.gap_position ≡ some d.position)
            × (p'.frontier.gap_reason ≡ some (take 1024 f.message))
            × (p'.frontier.complete ≡ false)
            × IsNext p d
            × (transient_process_error done f ≡ false))

  unchanged :
      (done : Bool) (now : ℕ) (p : Projection Rows) (d : Delivery) (f : Failure)
      → Refused done now p p d f
  unchanged done now p d f = record {
    profile = refl;
    rows = refl;
    stats = refl;
    position = refl;
    last = refl;
    gap = inl refl;
  }

  pub conclude_err :
      (done : Bool) (now : ℕ) (p : Projection Rows) (d : Delivery) (g : Failure)
      → (conclude host done now p d (err g)).1 ≡ err g
  unfolding conclude
  conclude_err done now p d g = elim (Bool-cases (transient_process_error done g)) [
    | inl passing ↦ rw passing
    | inr stays ↦ rw stays
  ]

  pub conclude_failed :
      (done : Bool) (now : ℕ) (p : Projection Rows) (d : Delivery) (g : Failure)
      → IsNext p d
      → Refused done now p (conclude host done now p d (err g)).0 d g
  unfolding conclude
  conclude_failed done now p d g next = elim (Bool-cases (transient_process_error done g)) [
    | inl passing ↦ rw passing (unchanged done now p d g)
    | inr stays ↦
        let open_ : is_some p.frontier.gap_position ≡ false = ap is_some next.0 in
        rw (stays, open_)
          (record {
            profile = refl;
            rows = refl;
            stats = refl;
            position = refl;
            last = refl;
            gap = inr (refl, refl, refl, next, stays);
          })
  ]

  conclude-Refused :
      (done : Bool) (now : ℕ) (p : Projection Rows) (d : Delivery)
      → IsNext p d
      → (m : Result Failure (Made host)) {f : Failure} → (conclude host done now p d m).1 ≡ err f
      → Refused done now p (conclude host done now p d m).0 d f
  unfolding conclude
  conclude-Refused done now p d next (ok made) h = cc
  conclude-Refused done now p d next (err g) {f} h =
      let e : g ≡ f = err-injective (sym (conclude_err done now p d g) ∙ h) in
      rw (← e) (conclude_failed done now p d g next)

  -- A call of `Process` that returns an error keeps the tailapp's tables, the statistics and the
  -- frontier's position and last event. Either it changes nothing at all, or the projection had no
  -- gap, the delivery was the next one, the error is not transient, and a gap is recorded at that
  -- position with the first 1024 bytes of the error's text.
  pub process_error-Refused :
      (done : Bool) (now : ℕ) (p : Projection Rows) (d : Delivery) {f : Failure}
      → (process host done now p d).1 ≡ err f
      → Refused done now p (process host done now p d).0 d f
  unfolding process
  process_error-Refused done now p d {f} h = elim (Bool-cases (is_some p.frontier.gap_position)) [
    | inl gapped ↦ rw gapped (unchanged done now p d f)
    | inr open_ ↦ elim (Bool-cases (leb d.position p.frontier.interpreted_position)) [
      | inl old ↦
          elim (Bool-cases (
            same_id d.event_id p.frontier.last_event_id
            || leb d.position p.frontier.activation_boundary)) [
              | inl seen ↦ rw (open_, old, seen) (unchanged done now p d f)
              | inr other ↦ rw (open_, old, other) (unchanged done now p d f)
            ]
      | inr new ↦ elim (Bool-cases (d.position == p.frontier.interpreted_position + 1)) [
        | inl next ↦
            rw (open_, new, next)
              (conclude-Refused done now p d (ground arith, ground arith)
                (interpret host p.profile d p.rows) (ground arith))
        | inr far ↦ rw (open_, new, far) (unchanged done now p d f)
      ]
    ]
  ]
