-- ===== src/Metrics/Processing.antt =====
-- internal/metrics/metrics.go: the Processing handle of one tailapp.
use tailapps.Prelude.{
  ℕ, String, Bool, Option, none, some, [], ◌∷◌, ◌++◌, str_eq, if◌then◌else◌, ◌==◌,
}
use tailapps.Prelude.Int.{ℤ, pos, negsuc}
use tailapps.Metrics.Histogram.{add_uint64, Histogram, new_histogram, observe_duration}
use tailapps.Metrics.Requests.{
  Counts, atomic_counts, increment, processing_outcomes, detached_reasons, processing_outcome,
  detached_reason,
}

-- `last_success` is 0 until a success.
pub record Processing : Type 0 where
  pub attempts : ℕ
  pub errors : ℕ
  pub ineffective : ℕ
  pub emitted : ℕ
  pub last_success : ℕ
  pub outcomes : Counts
  pub detached : Counts
  pub queue_delay : Histogram
  pub duration : Histogram

unfoldable pub new_processing : Processing
new_processing = record {
  attempts = 0;
  errors = 0;
  ineffective = 0;
  emitted = 0;
  last_success = 0;
  outcomes = atomic_counts (processing_outcomes ++ "error" ∷ []);
  detached = atomic_counts (detached_reasons ++ "other" ∷ []);
  queue_delay = new_histogram;
  duration = new_histogram;
}

-- `if n > 0 { counter.Add(uint64(n)) }`
abbrev pub add_positive : ℕ → ℤ → ℕ
add_positive counter (pos n) = if n == 0 then counter else add_uint64 counter n
add_positive counter (negsuc n) = counter

pub record Attempt : Type 0 where
  pub emitted : ℤ
  pub is_ineffective : Bool
  pub outcome : String
  pub queue_delay : ℤ
  pub duration : ℤ
  pub now : ℕ

abbrev pub attempted : Processing → Attempt → String → Option Counts → Option Processing
attempted p a outcome none = none
attempted p a outcome (some outcomes) = some (record {
  attempts = add_uint64 p.attempts 1;
  errors = if str_eq outcome "ok" then p.errors else add_uint64 p.errors 1;
  ineffective = if a.is_ineffective then add_uint64 p.ineffective 1 else p.ineffective;
  emitted = add_positive p.emitted a.emitted;
  last_success = if str_eq outcome "ok" then a.now else p.last_success;
  outcomes = outcomes;
  detached = p.detached;
  queue_delay = observe_duration p.queue_delay a.queue_delay;
  duration = observe_duration p.duration a.duration;
})

unfoldable pub observe_attempt : Processing → Attempt → Option Processing
observe_attempt p a =
    let outcome = processing_outcome a.outcome in
    attempted p a outcome (increment outcome 1 p.outcomes)

abbrev pub detached_by : Processing → Option Counts → Option Processing
detached_by p none = none
detached_by p (some detached) = some (record p { detached = detached })

abbrev pub detached_count : Processing → String → ℤ → Option Processing
detached_count p reason (negsuc n) = some p
detached_count p reason (pos n) =
    if n == 0 then some p else detached_by p (increment (detached_reason reason) n p.detached)

unfoldable pub observe_detached : Processing → String → ℤ → Option Processing
observe_detached p reason count = detached_count p reason count
