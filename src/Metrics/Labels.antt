-- ===== src/Metrics/Labels.antt =====
-- internal/metrics/metrics.go: ObserveQuery over the life of the resident.
use tailapps.Prelude.{
  ◌≡◌, refl, ap, ◌∙◌, String, Bool, Option, none, some, true, List, [], ◌∷◌, ◌++◌,
}
use tailapps.Prelude.Int.{ℤ}
use tailapps.Metrics.Requests.{
  atomic_counts, new_request_state, query_outcomes, query_outcome, RequestState,
}
use tailapps.Metrics.Totals.{has, Balanced, observe-Balanced}
use tailapps.Metrics.Control.{classified-All, every-All}
use tailapps.Metrics.Intake.{QueryState, new_queries, observe_query, ◌>>=◌, queried}

pub record Query : Type 0 where
  pub rows : ℤ
  pub result_bytes : ℤ
  pub truncated : Bool
  pub outcome : String
  pub lock_wait : ℤ
  pub duration : ℤ

unfoldable pub observe_queries : List Query → Option QueryState → Option QueryState
observe_queries queries none = none
observe_queries [] (some state) = some state
observe_queries (q ∷ rest) (some state) =
    observe_queries rest
      (observe_query state q.rows q.result_bytes q.truncated q.outcome q.lock_wait q.duration)

abbrev pub query_labels : List String
query_labels = query_outcomes ++ "error" ∷ []

observe_query-Balanced :
    (state : QueryState) (q : Query)
    → Balanced query_labels state.request
    → (state' : QueryState) × (observe_query state q.rows q.result_bytes q.truncated q.outcome
          q.lock_wait q.duration
        ≡ some state')
      × Balanced query_labels state'.request
unfolding observe_query query_outcome
observe_query-Balanced state q balanced =
    let request : RequestState = state.request in
    let known : has (query_outcome q.outcome) request.outcomes ≡ true =
      classified-All (λ k. has k request.outcomes ≡ true) query_outcomes "error" q.outcome
        balanced.present in
    let (request', done, balanced') =
      observe-Balanced query_labels request (query_outcome q.outcome) q.duration known balanced in
    (
      _,
      ap (λ answer. answer >>= queried state q.rows q.result_bytes q.truncated q.lock_wait) done,
      balanced',
    )

observe_queries-from :
    (queries : List Query) (state : QueryState)
    → Balanced query_labels state.request
    → (state' : QueryState) × (observe_queries queries (some state) ≡ some state')
      × Balanced query_labels state'.request
unfolding observe_queries
observe_queries-from [] state balanced = (state, refl, balanced)
observe_queries-from (q ∷ rest) state balanced =
    let (next, done, balanced') = observe_query-Balanced state q balanced in
    let (last, ended, sound) = observe_queries-from rest next balanced' in
    (last, ap (observe_queries rest) done ∙ ended, sound)

new_queries-Balanced : Balanced query_labels (QueryState.request new_queries)
unfolding new_queries new_request_state atomic_counts
new_queries-Balanced = record {
  present = every-All (λ k. has k (atomic_counts query_labels)) query_labels refl;
  requests = refl;
  errors = refl;
}

-- Whatever queries are observed, no observation meets a missing counter; the requests are the sum of
-- the outcomes and the errors the sum of those other than "ok", as uint64.
pub observe_queries-Balanced :
    (queries : List Query)
    → (state : QueryState) × (observe_queries queries (some new_queries) ≡ some state)
      × Balanced query_labels state.request
observe_queries-Balanced queries = observe_queries-from queries new_queries new_queries-Balanced
