-- ===== src/Projection/Process.antt =====
-- internal/projection/projection.go: `initialize`, `Process`, `recordGap` and
-- `transientProcessError`.
use tailapps.Prelude.{
  ℕ, ◌+◌, String, Bool, true, false, not, ◌&&◌, ◌||◌, Option, none, some, List, [], ◌∷◌, length,
  take, Result, ok, err, ◌>>=◌, str_eq, leb, ◌==◌, if◌then◌else◌,
}
use tailapps.Inbox.Tables.{EventId, blank, local, emitted, Delivery}
use tailapps.Projection.Types.{
  Failure, Kind, SqliteCode, other_code, canceled, deadline_exceeded, evaluation_timeout,
  application, sqlite, Program, Profile, Projection, Outcome,
}
use tailapps.Projection.Host.{Host, Object}
use tailapps.Projection.Evaluation.{member, delivery_event, evaluation_input, apply_changes, refuse}

abbrev pub same_id : EventId → EventId → Bool
same_id blank blank = true
same_id (local m) (local n) = m == n
same_id (emitted a m) (emitted b n) = m == n && same_id a b
same_id _ _ = false

abbrev pub transient_code : SqliteCode → Bool
transient_code (other_code n) = false
transient_code _ = true

abbrev pub transient_kind : Kind → Bool
transient_kind canceled = true
transient_kind deadline_exceeded = true
transient_kind evaluation_timeout = true
transient_kind (sqlite c) = transient_code c
transient_kind application = false

-- `done` says that the call's context has ended.
unfoldable pub transient_process_error : Bool → Failure → Bool
transient_process_error done f = done || transient_kind f.kind

abbrev pub is_some {ℓ} : {A : Type ℓ} → Option A → Bool
is_some none = false
is_some (some a) = true

abbrev pub or_else : Option String → Option String → Option String
or_else none o = o
or_else (some s) o = some s

abbrev pub count_of : Bool → ℕ
count_of true = 1
count_of false = 0

abbrev pub payloads {ℓ} : {V : Type ℓ} → Option (List V) → List V
payloads none = []
payloads (some vs) = vs

-- What a new projection holds, beside the tables that its schema made.
unfoldable pub initial : {Rows : Type 0} → Profile → Rows → ℕ → Projection Rows
initial profile rows boundary = record {
  profile = profile;
  identity = record {
    name = profile.name;
    revision = profile.revision;
    runtime = profile.runtime_profile;
  };
  frontier = record {
    revision = profile.revision;
    activation_boundary = boundary;
    interpreted_position = boundary;
    last_event_id = blank;
    complete = true;
    gap_position = none;
    gap_reason = none;
    gap_observed_unix_nano = none;
    last_record_unix_nano = none;
  };
  stats = record { consumed_records = 0; ineffective_records = 0; emitted_events = 0 };
  rows = rows;
}

-- UPDATE tailapp_frontier … WHERE gap_position IS NULL
unfoldable pub record_gap : {Rows : Type 0} → ℕ → Projection Rows → ℕ → List ℕ → Projection Rows
record_gap now p position reason = if is_some p.frontier.gap_position then p else record p {
  frontier = record p.frontier {
    complete = false;
    gap_position = some position;
    gap_reason = some (take 1024 reason);
    gap_observed_unix_nano = some now;
  };
}

module _ (host : Host) where
  open host use {Rows, Value, evaluate}

  -- What a delivery's transaction makes.
  pub record Made : Type 0 where
    pub rows : Rows
    pub ineffective : Bool
    pub emitted_events : ℕ

  -- One fold on one event.
  unfoldable pub run_fold : ℕ → EventId → Object Value → Program → Rows → Result Failure Rows
  run_fold position event_id event fold rows = do
    input ← evaluation_input host rows fold position event_id "otel_event" event
    folded ← evaluate fold.name input
    apply_changes host folded.tables rows

  unfoldable pub run_folds : ℕ → EventId → Object Value → List Program → Rows → Result Failure Rows
  unfolding run_fold
  run_folds position event_id event [] rows = ok rows
  run_folds position event_id event (fold ∷ rest) rows = do
    rows' ← run_fold position event_id event fold rows
    run_folds position event_id event rest rows'

  -- Every fold on every emitted event, in order.
  unfoldable pub run_events :
      List Program → ℕ → EventId → ℕ → List (Object Value) → Rows → Result Failure Rows
  unfolding run_folds
  run_events folds position id ordinal [] rows = ok rows
  run_events folds position id ordinal (event ∷ rest) rows = do
    rows' ← run_folds position (emitted id ordinal) event folds rows
    run_events folds position id (ordinal + 1) rest rows'

  -- The statements of the transaction before the frontier.
  unfoldable pub interpret : Profile → Delivery → Rows → Result Failure Made
  unfolding run_events
  interpret profile delivery rows = do
    source ← delivery_event host delivery
    input ←
        evaluation_input host rows profile.normalizer delivery.position delivery.event_id
          "otlp_record" source
    normalized ← evaluate profile.normalizer.name input
    changed ← apply_changes host normalized.tables rows
    let events : List (Object Value) = payloads (member "otel_event" normalized.events)
    folded ← run_events profile.folds delivery.position delivery.event_id 0 events changed
    ok (record {
      rows = folded;
      ineffective = str_eq normalized.decision "ineffective";
      emitted_events = length events;
    })

  -- The frontier and the statistics, in the same transaction.
  unfoldable pub advance : Projection Rows → Delivery → Made → Projection Rows
  advance p delivery made = record p {
    rows = made.rows;
    frontier = record p.frontier {
      interpreted_position = delivery.position;
      last_event_id = delivery.event_id;
      complete = true;
      gap_position = none;
      gap_reason = none;
      gap_observed_unix_nano = none;
      last_record_unix_nano = or_else delivery.time_unix_nano delivery.observed_unix_nano;
    };
    stats = record {
      consumed_records = p.stats.consumed_records + 1;
      ineffective_records = p.stats.ineffective_records + count_of made.ineffective;
      emitted_events = p.stats.emitted_events + made.emitted_events;
    };
  }

  abbrev pub outcome : Projection Rows → Delivery → Made → Outcome
  outcome p delivery made = record {
    already_applied = false;
    frontier = record p.frontier {
      interpreted_position = delivery.position;
      last_event_id = delivery.event_id;
    };
    ineffective = made.ineffective;
    emitted_events = made.emitted_events;
  }

  abbrev pub applied : Projection Rows → Outcome
  applied p = record {
    already_applied = true;
    frontier = p.frontier;
    ineffective = false;
    emitted_events = 0;
  }

  -- Commit, or roll back and record a gap unless the error may pass.
  unfoldable pub conclude :
      Bool
      → ℕ
      → Projection Rows
      → Delivery
      → Result Failure Made
      → Projection Rows × Result Failure Outcome
  unfolding advance record_gap transient_process_error
  conclude done now p delivery (ok made) = (advance p delivery made, ok (outcome p delivery made))
  conclude done now p delivery (err f) =
      if transient_process_error done f
      then (p, err f)
      else (record_gap now p delivery.position f.message, err f)

  unfoldable pub process :
      Bool → ℕ → Projection Rows → Delivery → Projection Rows × Result Failure Outcome
  unfolding conclude
  process done now p delivery =
      if is_some p.frontier.gap_position
      then (p, refuse "projection is gapped")
      else if leb delivery.position p.frontier.interpreted_position
      then (if same_id delivery.event_id p.frontier.last_event_id
            || leb delivery.position p.frontier.activation_boundary
          then (p, ok (applied p))
          else (p, refuse "delivery position precedes projection frontier"))
      else if not (delivery.position == p.frontier.interpreted_position + 1)
      then (p, refuse "delivery position is not next")
      else conclude done now p delivery (interpret p.profile delivery p.rows)
