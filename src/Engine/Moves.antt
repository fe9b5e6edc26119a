-- ===== src/Engine/Moves.antt =====
-- internal/engine/engine.go: one wave leaves the queue sound and takes something from it.
use tailapps.Prelude.{
  ℕ, ◌≤◌, ◌≡◌, refl, ap, ◌∙◌, inl, inr, String, Bool, true, false, List, [], ◌∷◌, any, Option, none,
  some, Result, ok, err, str_eq, if◌then◌else◌, length, Bool-cases, arith,
}
use tailapps.Inbox.Tables.{Queue, Delivery, Error}
use tailapps.Inbox.WellFormed.{WellFormed}
use tailapps.Inbox.Settle.{complete, detach_all}
use tailapps.Inbox.Outstanding.{outstanding}
use tailapps.Projection.Types.{Failure, Projection, Outcome}
use tailapps.Projection.Host.{Host}
use tailapps.Projection.Process.{process}
use tailapps.Engine.Drain.{
  Resident, DrainError, IneffectiveRecord, append_record, ineffective_record, find_active,
  set_active, active_names, after_detach, on_error, after_complete, noted, on_processed,
  settle_item, process_active, next_item, process_wave,
}
use tailapps.Engine.Progress.{Shrinks, Settled, complete-Shrinks, detach_all-Shrinks}

module _ {Rows : Type 0} where
  active_names-set_active :
      (name : String) (p : Projection Rows) (active : List (String × Projection Rows))
      → active_names (set_active name p active) ≡ active_names active
  unfolding set_active
  active_names-set_active name p [] = refl
  active_names-set_active name p ((key, x) ∷ rest) = elim (Bool-cases (str_eq key name)) [
    | inl e ↦ rw e refl
    | inr e ↦ rw e (ap (λ l. key ∷ l) (active_names-set_active name p rest))
  ]

  find_active-some :
      (name : String) (active : List (String × Projection Rows))
      → any (λ n. str_eq n name) (active_names active) ≡ true
      → (p : Projection Rows) × (find_active name active ≡ some p)
  unfolding find_active
  find_active-some name [] e = cc
  find_active-some name ((key, p) ∷ rest) e = elim (Bool-cases (str_eq key name)) [
    | inl same ↦ (p, rw same refl)
    | inr other ↦
        let (x, found) = find_active-some name rest (ground (arith, other, e)) in
        (x, rw other found)
  ]

  -- A result of the handling of a delivery.
  abbrev Moved : Resident Rows → Resident Rows × Result DrainError (Unit {0}) → Type 0
  Moved r x =
      Shrinks r.queue.tables x.0.queue.tables × (active_names x.0.active ≡ active_names r.active)

  abbrev Handled :
      String → ℕ → Resident Rows → Resident Rows × Result DrainError (Unit {0}) → Type 0
  Handled name position r x =
      Moved r x × (x.1 ≡ ok tt → Settled r.queue.tables x.0.queue.tables name position)

  module _ (name : String) (d : Delivery) (r : Resident Rows) (wf : WellFormed r.queue.tables) where
    after_detach-Handled :
        (x : Queue × Result Error ℕ)
        → Shrinks r.queue.tables x.0.tables
        → Settled r.queue.tables x.0.tables name d.position
        → Handled name d.position r (after_detach name r x)
    after_detach-Handled (q, err e) s k = ((s, refl), λ h. k)
    after_detach-Handled (q, ok count) s k = ((s, refl), λ h. k)

    on_error-Handled :
        (f : Failure) (gap : Option ℕ) → Handled name d.position r (on_error name f gap r)
    unfolding on_error
    on_error-Handled f none = ((record { formed = wf; less = λ a. omega arith }, refl), λ h. cc)
    on_error-Handled f (some position) =
        let (s, k) = detach_all-Shrinks r.queue name wf d.position "projection_gap" in
        after_detach-Handled (detach_all r.queue name "projection_gap") s k

    after_complete-Handled :
        (o : Outcome) (r' : Resident Rows) (x : Queue × Result Error (Unit {0}))
        → active_names r'.active ≡ active_names r.active
        → Shrinks r.queue.tables x.0.tables
        → (x.1 ≡ ok tt → Settled r.queue.tables x.0.tables name d.position)
        → Handled name d.position r (after_complete name o r' x)
    after_complete-Handled o r' (q, err e) same s k = ((s, same), λ h. cc)
    after_complete-Handled o r' (q, ok finished) same s k = ((s, same), λ h. k refl)

    noted-queue :
        (b : Bool) (x : List (String × List IneffectiveRecord))
        → (if b then record r { ineffective = x } else r).queue ≡ r.queue
    noted-queue true x = refl
    noted-queue false x = refl

    noted-active :
        (b : Bool) (x : List (String × List IneffectiveRecord))
        → (if b then record r { ineffective = x } else r).active ≡ r.active
    noted-active true x = refl
    noted-active false x = refl

    on_processed-Handled : (o : Outcome) → Handled name d.position r (on_processed name d o r)
    unfolding on_processed
    on_processed-Handled o =
        let x = append_record name (ineffective_record d) r.ineffective in
        completed (noted name d o r) (ap (λ l. active_names l) (noted-active o.ineffective x))
          (noted-queue o.ineffective x)
      where
        completed :
            (r' : Resident Rows)
            → active_names r'.active ≡ active_names r.active
            → r'.queue ≡ r.queue
            → Handled name d.position r
                (after_complete name o r' (complete r'.queue name d.position))
        completed r' same q =
            let (s, k) = complete-Shrinks r.queue name wf d.position in
            rw q (after_complete-Handled o r' (complete r.queue name d.position) same s k)

  settle_item-Handled :
      (name : String) (d : Delivery) (r : Resident Rows)
      → WellFormed r.queue.tables
      → (x : Projection Rows × Result Failure Outcome)
      → Handled name d.position r (settle_item name d r x)
  settle_item-Handled name d r wf (p, err f) =
      let h =
        on_error-Handled name d (record r { active = set_active name p r.active }) wf f
          p.frontier.gap_position in
      ((h.0.0, h.0.1 ∙ active_names-set_active name p r.active), h.1)
  settle_item-Handled name d r wf (p, ok o) =
      let h = on_processed-Handled name d (record r { active = set_active name p r.active }) wf o in
      ((h.0.0, h.0.1 ∙ active_names-set_active name p r.active), h.1)

module _ (host : Host) (done : String → ℕ → Bool) (now : String → ℕ → ℕ) where
  abbrev State : Type 0
  State = Resident host.Rows

  process_active-Moved :
      (name : String) (d : Delivery) (r : State) (o : Option (Projection host.Rows))
      → WellFormed r.queue.tables
      → Moved r (process_active host done now name d r o)
  process_active-Moved name d r none wf = (record { formed = wf; less = λ a. omega arith }, refl)
  process_active-Moved name d r (some p) wf =
      (settle_item-Handled name d r wf
        (process host (done name d.position) (now name d.position) p d)).0

  Moved-then :
      (r : State) (x : State × Result DrainError (Unit {0}))
      (go : State → State × Result DrainError (Unit {0}))
      → Moved r x
      → (WellFormed x.0.queue.tables → Moved x.0 (go x.0))
      → Moved r (next_item go x)
        × ((a : String)
            → length (outstanding a (next_item go x).0.queue.tables)
              ≤ length (outstanding a x.0.queue.tables))
  Moved-then r (s, err e) go (m, k) more = ((m, k), λ a. omega arith)
  Moved-then r (s, ok finished) go (m, k) more =
      let (m', k') = more m.formed in
      (
        (record { formed = m'.formed; less = λ a. omega (arith, m.less a, m'.less a) }, k' ∙ k),
        λ a. m'.less a,
      )

  process_wave-Moved :
      (items : List (String × Delivery)) (r : State)
      → WellFormed r.queue.tables
      → Moved r (process_wave host done now items r)
  unfolding process_wave
  process_wave-Moved [] r wf = (record { formed = wf; less = λ a. omega arith }, refl)
  process_wave-Moved ((name, d) ∷ items) r wf =
      let x = process_active host done now name d r (find_active name r.active) in
      (Moved-then r x (process_wave host done now items)
        (process_active-Moved name d r (find_active name r.active) wf)
        (λ wf'. process_wave-Moved items x.0 wf')).0

  next_item-ok :
      (x : State × Result DrainError (Unit {0})) (go : State → State × Result DrainError (Unit {0}))
      → (next_item go x).1 ≡ ok tt
      → x.1 ≡ ok tt
  next_item-ok (s, err e) go h = cc
  next_item-ok (s, ok finished) go h = refl

  -- A wave that ends well takes from what its first tailapp owes.
  pub process_wave-Settled :
      (name : String) (d : Delivery) (items : List (String × Delivery)) (r : State)
      → WellFormed r.queue.tables
      → any (λ n. str_eq n name) (active_names r.active) ≡ true
      → Moved r (process_wave host done now ((name, d) ∷ items) r)
        × ((process_wave host done now ((name, d) ∷ items) r).1 ≡ ok tt
            → Settled r.queue.tables
                (process_wave host done now ((name, d) ∷ items) r).0.queue.tables
                name
                d.position)
  unfolding process_wave
  process_wave-Settled name d items r wf is_active =
      let (p, found) = find_active-some name r.active is_active in
      let x =
        settle_item name d r (process host (done name d.position) (now name d.position) p d) in
      let h =
        settle_item-Handled name d r wf
          (process host (done name d.position) (now name d.position) p d) in
      let both =
        Moved-then r x (process_wave host done now items) h.0
          (λ wf'. process_wave-Moved items x.0 wf') in
      rw found (
        both.0,
        λ k rest e.
            omega (
              arith,
              h.1 (next_item-ok x (process_wave host done now items) k) rest e,
              both.1 name,
            ),
      )
