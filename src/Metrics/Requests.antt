-- ===== src/Metrics/Requests.antt =====
-- internal/metrics/metrics.go: requestState, intakeState, queryState, Processing, the registry with
-- its Observe methods, and the functions that map a text into a bounded set of labels.
use tailapps.Prelude.{
  ℕ, String, Option, none, some, List, [], ◌∷◌, ◌++◌, map, any, str_eq, if◌then◌else◌,
}
use tailapps.Prelude.Int.{ℤ}
use tailapps.Metrics.Histogram.{add_uint64, Histogram, new_histogram, observe_duration}

-- A map of counters. Its keys are fixed when it is made.
abbrev pub Counts : Type 0
Counts = List (String × ℕ)

unfoldable pub atomic_counts : List String → Counts
atomic_counts keys = map (λ key. (key, 0)) keys

abbrev pub with_entry {ℓ} : {A : Type ℓ} → A → Option (List A) → Option (List A)
with_entry entry none = none
with_entry entry (some rest) = some (entry ∷ rest)

-- `counts[key].Add(n)`, which is a nil dereference where the key is missing.
unfoldable pub increment : String → ℕ → Counts → Option Counts
increment key n [] = none
increment key n ((k, c) ∷ rest) =
    let later = increment key n rest in
    if str_eq k key then some ((k, add_uint64 c n) ∷ rest) else with_entry (k, c) later

-- A `switch` that keeps the known labels and maps all else to one.
unfoldable pub classified : List String → String → String → String
classified known other value = if any (λ k. str_eq k value) known then value else other

abbrev pub intake_signals : List String
intake_signals = "log" ∷ "span" ∷ "metric" ∷ []

abbrev pub intake_outcomes : List String
intake_outcomes = "ok" ∷ "busy" ∷ "invalid" ∷ "limit" ∷ "backpressure" ∷ "not_ready" ∷ []

abbrev pub processing_outcomes : List String
processing_outcomes = "ok" ∷ "gap" ∷ "retry" ∷ []

abbrev pub query_outcomes : List String
query_outcomes =
    "ok" ∷ "not_found" ∷ "unavailable" ∷ "budget" ∷ "frontier_changed" ∷ "deadline" ∷ "cancelled"
    ∷ []

abbrev pub detached_reasons : List String
detached_reasons = "projection_gap" ∷ "runtime_upgrade" ∷ "tailapp_deleted" ∷ []

abbrev pub control_outcomes : List String
control_outcomes =
    "ok" ∷ "not_found" ∷ "revision_changed" ∷ "idempotency_conflict" ∷ "idempotency_in_doubt"
    ∷ "projection_unavailable" ∷ "deadline_exceeded" ∷ "frontier_changed" ∷ "query_budget_exceeded"
    ∷ []

abbrev pub control_operations : List String
control_operations =
    "health" ∷ "status" ∷ "metrics" ∷ "ineffective" ∷ "apps_list" ∷ "app_create" ∷ "app_install"
    ∷ "app_get" ∷ "app_delete" ∷ "element_put" ∷ "element_delete" ∷ "validate" ∷ "activate"
    ∷ "schema" ∷ "query" ∷ []

unfoldable pub intake_signal : String → String
intake_signal value = classified intake_signals "unknown" value

unfoldable pub intake_outcome : String → String
intake_outcome value = classified intake_outcomes "error" value

unfoldable pub processing_outcome : String → String
processing_outcome value = classified processing_outcomes "error" value

unfoldable pub query_outcome : String → String
query_outcome value = classified query_outcomes "error" value

unfoldable pub detached_reason : String → String
detached_reason value = classified detached_reasons "other" value

unfoldable pub control_outcome : String → String
control_outcome value = classified control_outcomes "operation_failed" value

unfoldable pub control_operation : String → String
control_operation value = classified control_operations "unknown" value

pub record RequestState : Type 0 where
  pub requests : ℕ
  pub errors : ℕ
  pub outcomes : Counts
  pub duration : Histogram

unfoldable pub new_request_state : List String → RequestState
new_request_state outcomes = record {
  requests = 0;
  errors = 0;
  outcomes = atomic_counts outcomes;
  duration = new_histogram;
}

abbrev pub counted : RequestState → String → ℤ → Option Counts → Option RequestState
counted state outcome duration none = none
counted state outcome duration (some outcomes) = some (record {
  requests = add_uint64 state.requests 1;
  errors = if str_eq outcome "ok" then state.errors else add_uint64 state.errors 1;
  outcomes = outcomes;
  duration = observe_duration state.duration duration;
})

unfoldable pub observe : RequestState → String → ℤ → Option RequestState
observe state outcome duration = counted state outcome duration (increment outcome 1 state.outcomes)

-- `registry.control[operation].observe(outcome, duration)`
abbrev pub replaced :
    String × RequestState
    → List (String × RequestState)
    → Option RequestState
    → Option (List (String × RequestState))
replaced entry rest none = none
replaced entry rest (some state) = some ((entry.0, state) ∷ rest)

unfoldable pub observe_at :
    String → String → ℤ → List (String × RequestState) → Option (List (String × RequestState))
observe_at key outcome duration [] = none
observe_at key outcome duration ((k, state) ∷ rest) =
    let later = observe_at key outcome duration rest in
    if str_eq k key
    then replaced (k, state) rest (observe state outcome duration)
    else with_entry (k, state) later

unfoldable pub new_control : List (String × RequestState)
new_control =
    map (λ operation. (operation, new_request_state (control_outcomes ++ "operation_failed" ∷ [])))
      (control_operations ++ "unknown" ∷ [])

unfoldable pub observe_control :
    List (String × RequestState) → String → String → ℤ → Option (List (String × RequestState))
observe_control control operation outcome duration =
    observe_at (control_operation operation) (control_outcome outcome) duration control
