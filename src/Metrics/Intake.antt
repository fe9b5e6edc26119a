-- ===== src/Metrics/Intake.antt =====
-- internal/metrics/metrics.go: the intake and query states, and the Observe methods on them.
use tailapps.Prelude.{
  ℕ, String, Bool, false, not, Option, none, some, List, [], ◌∷◌, ◌++◌, str_eq, if◌then◌else◌, ◌==◌,
}
use tailapps.Prelude.Int.{ℤ, pos, negsuc}
use tailapps.Metrics.Histogram.{add_uint64, Histogram, new_histogram, observe_duration}
use tailapps.Metrics.Requests.{
  Counts, atomic_counts, increment, intake_signals, intake_outcomes, query_outcomes,
  detached_reasons, intake_signal, intake_outcome, query_outcome, detached_reason, RequestState,
  new_request_state, observe,
}
use tailapps.Metrics.Processing.{add_positive}

pub record IntakeState : Type 0 where
  pub request : RequestState
  pub accept_duration : Histogram
  pub records : Counts
  pub bytes : Counts
  pub obligations : ℕ
  pub unrouted : ℕ
  pub unrouted_signal : Counts
  pub detached : ℕ
  pub detached_reasons_total : Counts

pub record QueryState : Type 0 where
  pub request : RequestState
  pub lock_wait : Histogram
  pub rows : ℕ
  pub result_bytes : ℕ
  pub truncated : ℕ

unfoldable pub new_intake : IntakeState
new_intake = record {
  request = new_request_state (intake_outcomes ++ "error" ∷ []);
  accept_duration = new_histogram;
  records = atomic_counts (intake_signals ++ "unknown" ∷ []);
  bytes = atomic_counts (intake_signals ++ "unknown" ∷ []);
  obligations = 0;
  unrouted = 0;
  unrouted_signal = atomic_counts (intake_signals ++ "unknown" ∷ []);
  detached = 0;
  detached_reasons_total = atomic_counts (detached_reasons ++ "other" ∷ []);
}

unfoldable pub new_queries : QueryState
new_queries = record {
  request = new_request_state (query_outcomes ++ "error" ∷ []);
  lock_wait = new_histogram;
  rows = 0;
  result_bytes = 0;
  truncated = 0;
}

infixl 5 ◌>>=◌
abbrev pub ◌>>=◌ {ℓ κ} : {A : Type ℓ} {B : Type κ} → Option A → (A → Option B) → Option B
◌>>=◌ none next = none
◌>>=◌ (some a) next = next a

-- `if n > 0 { counts[key].Add(uint64(n)) }`
unfoldable pub increment_positive : String → ℤ → Counts → Option Counts
increment_positive key (negsuc n) counts = some counts
increment_positive key (pos n) counts = if n == 0 then some counts else increment key n counts

abbrev pub accepted : Histogram → Option ℤ → Histogram
accepted h none = h
accepted h (some duration) = observe_duration h duration

unfoldable pub observe_intake :
    IntakeState → String → ℤ → ℤ → String → ℤ → Option ℤ → Option IntakeState
observe_intake state signal records canonical_bytes outcome duration durable_accept_duration =
    let label = intake_signal signal in
    let result = intake_outcome outcome in
    observe state.request result duration >>= λ request.
    let state' = record state {
      request = request;
      accept_duration = accepted state.accept_duration durable_accept_duration;
    } in
    if not (str_eq result "ok")
    then some state'
    else increment_positive label records state.records >>= λ records'.
        increment_positive label canonical_bytes state.bytes >>= λ bytes'.
        some (record state' { records = records'; bytes = bytes' })

-- The loop over the records by signal.
unfoldable pub observe_unrouted : IntakeState → List (String × ℤ) → Option IntakeState
observe_unrouted state [] = some state
observe_unrouted state ((signal, records) ∷ rest) =
    increment_positive (intake_signal signal) records state.unrouted_signal >>= λ counts.
    observe_unrouted
      (record state { unrouted = add_positive state.unrouted records; unrouted_signal = counts })
      rest

abbrev pub is_zero : ℤ → Bool
is_zero (pos n) = n == 0
is_zero (negsuc n) = false

unfoldable pub observe_routing : IntakeState → List (String × ℤ) → ℤ → Option IntakeState
observe_routing state records_by_signal obligations =
    let state' = record state { obligations = add_positive state.obligations obligations } in
    if not (is_zero obligations) then some state' else observe_unrouted state' records_by_signal

unfoldable pub observe_detached_obligations : IntakeState → String → ℤ → Option IntakeState
observe_detached_obligations state reason count =
    increment_positive (detached_reason reason) count state.detached_reasons_total >>= λ counts.
    some (record state {
      detached = add_positive state.detached count;
      detached_reasons_total = counts;
    })

abbrev pub queried : QueryState → ℤ → ℤ → Bool → ℤ → RequestState → Option QueryState
queried state rows result_bytes truncated lock_wait request = some (record {
  request = request;
  lock_wait = observe_duration state.lock_wait lock_wait;
  rows = add_positive state.rows rows;
  result_bytes = add_positive state.result_bytes result_bytes;
  truncated = if truncated then add_uint64 state.truncated 1 else state.truncated;
})

unfoldable pub observe_query : QueryState → ℤ → ℤ → Bool → String → ℤ → ℤ → Option QueryState
observe_query state rows result_bytes truncated outcome lock_wait duration =
    observe state.request (query_outcome outcome) duration
    >>= queried state rows result_bytes truncated lock_wait
