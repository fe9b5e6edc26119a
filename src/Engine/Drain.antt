-- ===== src/Engine/Drain.antt =====
-- internal/engine/engine.go: drainPassLocked and recordIneffectiveLocked.
use tailapps.Prelude.{
  ℕ, zero, suc, ◌-◌, ◌*◌, String, Bool, true, false, ◌&&◌, ◌||◌, List, [], ◌∷◌, ◌++◌, Option, none,
  some, Result, ok, err, str_eq, ltb, leb, ◌==◌, if◌then◌else◌, length, drop,
}
use tailapps.Prelude.Int.{pos}
use tailapps.Inbox.Tables.{Queue, Delivery, Error}
use tailapps.Inbox.Pending.{pending}
use tailapps.Inbox.Settle.{complete, detach_all}
use tailapps.Projection.Types.{Failure, Projection, Outcome}
use tailapps.Projection.Host.{Host}
use tailapps.Projection.Process.{process}

abbrev pub ineffective_buffer_capacity : ℕ
ineffective_buffer_capacity = 16

abbrev max_ineffective_record_json_size : ℕ
max_ineffective_record_json_size = 32 * 1024

-- The delivery without its JSON, the size of that, and the JSON itself unless it is too large.
pub record IneffectiveRecord : Type 0 where
  pub delivery : Delivery
  pub record_bytes : ℕ
  pub retained : Option (List ℕ)

unfoldable pub ineffective_record : Delivery → IneffectiveRecord
ineffective_record d = record {
  delivery = record d { json = [] };
  record_bytes = length d.json;
  retained = if leb (length d.json) max_ineffective_record_json_size then some d.json else none;
}

-- `items[len(items)-IneffectiveBufferCapacity:]`, where there are more
unfoldable pub ring : List IneffectiveRecord → List IneffectiveRecord
ring items =
    if ltb ineffective_buffer_capacity (length items)
    then drop (length items - ineffective_buffer_capacity) items
    else items

unfoldable pub append_record :
    String
    → IneffectiveRecord
    → List (String × List IneffectiveRecord)
    → List (String × List IneffectiveRecord)
append_record name r [] = (name, ring (r ∷ [])) ∷ []
append_record name r ((key, items) ∷ rest) =
    let later = append_record name r rest in
    if str_eq key name then (key, ring (items ++ r ∷ [])) ∷ rest else (key, items) ∷ later

pub data ProcessingOutcome : Type 0 where
  done_ok gap retry failed : ProcessingOutcome

-- A call of the processing metrics' Observe, or of the two that count detached obligations.
pub data Observed : Type 0 where
  attempt : String → ℕ → Bool → ProcessingOutcome → Observed
  detachment : String → ℕ → Observed

-- What a pass reads and changes: the queue, the active projections, sorted by name, the names in
-- `upgradePending`, the ring buffers, and the calls of the metrics.
pub record Resident (Rows : Type 0) : Type 0 where
  pub queue : Queue
  pub active : List (String × Projection Rows)
  pub upgrade_pending : List String
  pub ineffective : List (String × List IneffectiveRecord)
  pub metrics : List Observed

pub data DrainError : Type 0 where
  queue_error : Error → DrainError
  process_error : Failure → DrainError

pub record Wave : Type 0 where
  pub minimum : ℕ
  pub items : List (String × Delivery)

abbrev pub no_wave : Wave
no_wave = record { minimum = 0; items = [] }

-- `if minimum == 0 || position < minimum { .. }; if position == minimum { .. }`
abbrev pub reset_wave : ℕ → Wave → Wave
reset_wave position w =
    if w.minimum == 0 || ltb position w.minimum
    then record { minimum = position; items = [] }
    else w

abbrev pub join_wave : String → Delivery → Wave → Wave
join_wave name d w =
    if d.position == w.minimum then record w { items = w.items ++ (name, d) ∷ [] } else w

abbrev pub with_pending : String → List Delivery → Wave → Wave
with_pending name [] w = w
with_pending name (d ∷ ds) w = join_wave name d (reset_wave d.position w)

abbrev and_scan :
    (List Delivery → Result DrainError Wave) → Result Error (List Delivery) → Result DrainError Wave
and_scan next (err e) = err (queue_error e)
and_scan next (ok ds) = next ds

-- The loop that selects a wave.
unfoldable pub select_wave : Queue → List String → Wave → Result DrainError Wave
select_wave q [] w = ok w
select_wave q (name ∷ names) w =
    and_scan (λ ds. select_wave q names (with_pending name ds w)) (pending q name (pos 1))

module _ {Rows : Type 0} where
  unfoldable pub find_active : String → List (String × Projection Rows) → Option (Projection Rows)
  find_active name [] = none
  find_active name ((key, p) ∷ rest) =
      let later = find_active name rest in if str_eq key name then some p else later

  unfoldable pub set_active :
      String → Projection Rows → List (String × Projection Rows) → List (String × Projection Rows)
  set_active name p [] = []
  set_active name p ((key, x) ∷ rest) =
      let later = set_active name p rest in
      if str_eq key name then (key, p) ∷ rest else (key, x) ∷ later

  abbrev saw : Observed → Resident Rows → Resident Rows
  saw o r = record r { metrics = r.metrics ++ o ∷ [] }

  abbrev pub after_detach :
      String → Resident Rows → Queue × Result Error ℕ → Resident Rows × Result DrainError (Unit {0})
  after_detach name r (q, err e) =
      (saw (attempt name 0 false failed) (record r { queue = q }), err (queue_error e))
  after_detach name r (q, ok count) =
      (saw (attempt name 0 false gap) (saw (detachment name count) (record r { queue = q })), ok tt)

  -- The handling of an error of Process: a gap detaches what the tailapp owes, another error ends
  -- the pass.
  unfoldable pub on_error :
      String → Failure → Option ℕ → Resident Rows → Resident Rows × Result DrainError (Unit {0})
  on_error name f none r = (saw (attempt name 0 false retry) r, err (process_error f))
  on_error name f (some position) r = after_detach name r (detach_all r.queue name "projection_gap")

  abbrev pub after_complete :
      String
      → Outcome
      → Resident Rows
      → Queue × Result Error (Unit {0})
      → Resident Rows × Result DrainError (Unit {0})
  after_complete name o r (q, err e) = (
    saw (attempt name o.emitted_events o.ineffective retry) (record r { queue = q }),
    err (queue_error e),
  )
  after_complete name o r (q, ok done) =
      (saw (attempt name o.emitted_events o.ineffective done_ok) (record r { queue = q }), ok tt)

  abbrev pub noted : String → Delivery → Outcome → Resident Rows → Resident Rows
  noted name d o r =
      if o.ineffective
      then record r { ineffective = append_record name (ineffective_record d) r.ineffective }
      else r

  unfoldable pub on_processed :
      String → Delivery → Outcome → Resident Rows → Resident Rows × Result DrainError (Unit {0})
  on_processed name d o r =
      let r' = noted name d o r in after_complete name o r' (complete r'.queue name d.position)

  abbrev pub settle_item :
      String
      → Delivery
      → Resident Rows
      → Projection Rows × Result Failure Outcome
      → Resident Rows × Result DrainError (Unit {0})
  settle_item name d r (p, err f) =
      on_error name f p.frontier.gap_position (record r { active = set_active name p r.active })
  settle_item name d r (p, ok o) =
      on_processed name d o (record r { active = set_active name p r.active })

  abbrev pub active_names : List (String × Projection Rows) → List String
  active_names [] = []
  active_names ((name, p) ∷ rest) = name ∷ active_names rest

  abbrev pub after_wave :
      (Resident Rows → Resident Rows × Option (Result DrainError Bool))
      → Bool
      → Resident Rows × Result DrainError (Unit {0})
      → Resident Rows × Option (Result DrainError Bool)
  after_wave again enough (r, err e) = (r, some (err e))
  after_wave again enough (r, ok finished) = elim enough [
    | true ↦ (r, some (ok true))
    | false ↦ again r
  ]

  abbrev pub next_item :
      (Resident Rows → Resident Rows × Result DrainError (Unit {0}))
      → Resident Rows × Result DrainError (Unit {0})
      → Resident Rows × Result DrainError (Unit {0})
  next_item go (r, err e) = (r, err e)
  next_item go (r, ok finished) = go r

  -- `len(e.upgradePending) != 0`
  abbrev pub drain_ready :
      Resident Rows × Option (Result DrainError Bool)
      → Resident Rows
      → List String
      → Resident Rows × Option (Result DrainError Bool)
  drain_ready answer r [] = answer
  drain_ready answer r (name ∷ rest) = (r, some (ok false))

-- The projections' host, and for each name and position whether the context is done and the time.
module _ (host : Host) (done : String → ℕ → Bool) (now : String → ℕ → ℕ) where
  abbrev pub Rows : Type 0
  Rows = host.Rows

  abbrev pub process_active :
      String
      → Delivery
      → Resident Rows
      → Option (Projection Rows)
      → Resident Rows × Result DrainError (Unit {0})
  process_active name d r none = (r, ok tt)
  process_active name d r (some p) =
      settle_item name d r (process host (done name d.position) (now name d.position) p d)

  unfoldable pub process_wave :
      List (String × Delivery) → Resident Rows → Resident Rows × Result DrainError (Unit {0})
  process_wave [] r = (r, ok tt)
  process_wave ((name, d) ∷ items) r =
      next_item (process_wave items) (process_active name d r (find_active name r.active))

  abbrev pub run_items :
      (Resident Rows → Resident Rows × Option (Result DrainError Bool))
      → Bool
      → Resident Rows
      → List (String × Delivery)
      → Resident Rows × Option (Result DrainError Bool)
  run_items again enough r [] = (r, some (ok false))
  run_items again enough r (item ∷ items) = after_wave again enough (process_wave (item ∷ items) r)

  abbrev run_wave :
      (Resident Rows → Resident Rows × Option (Result DrainError Bool))
      → Bool
      → Resident Rows
      → Result DrainError Wave
      → Resident Rows × Option (Result DrainError Bool)
  run_wave again enough r (err e) = (r, some (err e))
  run_wave again enough r (ok w) = run_items again enough r w.items

  -- The loop over the waves, on fuel; `none` where there is not enough.
  unfoldable pub drain_waves :
      ℕ → ℕ → ℕ → Resident Rows → Resident Rows × Option (Result DrainError Bool)
  drain_waves zero limit waves r = (r, none)
  drain_waves (suc fuel) limit waves r =
      run_wave (drain_waves fuel limit (suc waves)) (ltb 0 limit && leb limit (suc waves)) r
        (select_wave r.queue (active_names r.active) no_wave)

  unfoldable pub drain_pass_locked :
      ℕ → ℕ → Resident Rows → Resident Rows × Option (Result DrainError Bool)
  drain_pass_locked fuel limit r = drain_ready (drain_waves fuel limit 0 r) r r.upgrade_pending
