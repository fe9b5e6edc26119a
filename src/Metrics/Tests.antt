-- ===== src/Metrics/Tests.antt =====
-- The theorems on the measurements, at a few observations.
use tailapps.Prelude.{true, ◌≡◌, false, [], ◌∷◌, some}
use tailapps.Prelude.Int.{pos, negsuc}
use tailapps.Metrics.Histogram.{snapshot_counts, new_histogram, duration_bounds_ms}
use tailapps.Metrics.Requests.{new_control}
use tailapps.Metrics.Processing.{Processing, Attempt, new_processing}
use tailapps.Metrics.Cumulative.{observe_all, distribution, snapshot_counts-observe_all}
use tailapps.Metrics.Control.{Control, Ready, observe_controls, observe_controls-Ready}
use tailapps.Metrics.Intake.{QueryState, new_queries}
use tailapps.Metrics.Totals.{Balanced}
use tailapps.Metrics.Labels.{Query, query_labels, observe_queries, observe_queries-Balanced}
use tailapps.Metrics.Attempts.{Agrees, observe_attempts, observe_attempts-Agrees}

snapshot_counts-observe_all_example :
    snapshot_counts (observe_all new_histogram (pos 3_000_000 ∷ negsuc 4 ∷ pos 60_000_000_000 ∷ []))
    ≡ distribution (pos 3_000_000 ∷ negsuc 4 ∷ pos 60_000_000_000 ∷ []) duration_bounds_ms
snapshot_counts-observe_all_example =
    snapshot_counts-observe_all (pos 3_000_000 ∷ negsuc 4 ∷ pos 60_000_000_000 ∷ [])

observe_controls-Ready_example :
    (control : Control) × (observe_controls
        (("status", "ok", pos 9) ∷ ("nothing", "odd", pos 7) ∷ [])
        (some new_control)
      ≡ some control)
    × Ready control
observe_controls-Ready_example =
    observe_controls-Ready (("status", "ok", pos 9) ∷ ("nothing", "odd", pos 7) ∷ [])

abbrev attempt : Attempt
attempt = record {
  emitted = pos 2;
  is_ineffective = false;
  outcome = "gap";
  queue_delay = pos 5;
  duration = pos 6;
  now = 1;
}

observe_attempts-Agrees_example :
    (p : Processing) × (observe_attempts (attempt ∷ attempt ∷ []) (some new_processing) ≡ some p)
    × Agrees p
observe_attempts-Agrees_example = observe_attempts-Agrees (attempt ∷ attempt ∷ [])

abbrev late : Query
late = record {
  rows = pos 3;
  result_bytes = pos 90;
  truncated = true;
  outcome = "too late";
  lock_wait = pos 5;
  duration = pos 6;
}

observe_queries-Balanced_example :
    (state : QueryState) × (observe_queries (late ∷ []) (some new_queries) ≡ some state)
    × Balanced query_labels state.request
observe_queries-Balanced_example = observe_queries-Balanced (late ∷ [])
