-- ===== src/Metrics/Attempts.antt =====
-- internal/metrics/metrics.go: the counters of a Processing handle agree with each other.
use tailapps.Prelude.{
  ◌≡◌, refl, ap, ◌∙◌, String, Option, none, some, List, [], ◌∷◌, ◌++◌, str_eq, All, All-map, true,
}
use tailapps.Metrics.Histogram.{add_uint64}
use tailapps.Metrics.Requests.{atomic_counts, processing_outcomes, processing_outcome}
use tailapps.Metrics.Totals.{
  has, summed, failures, increment-Incremented, add_one_more, errors_step,
}
use tailapps.Metrics.Control.{classified-All, every-All}
use tailapps.Metrics.Processing.{Processing, Attempt, new_processing, attempted, observe_attempt}

-- The attempts are the sum of the outcomes, and the errors the sum of those other than "ok".
pub record Agrees (p : Processing) : Type 0 where
  pub present : All (λ k. has k p.outcomes ≡ true) (processing_outcomes ++ "error" ∷ [])
  pub attempts : add_uint64 (summed p.outcomes) 0 ≡ add_uint64 p.attempts 0
  pub errors : add_uint64 (failures p.outcomes) 0 ≡ add_uint64 p.errors 0

unfoldable pub observe_attempts : List Attempt → Option Processing → Option Processing
observe_attempts attempts none = none
observe_attempts [] (some p) = some p
observe_attempts (a ∷ rest) (some p) = observe_attempts rest (observe_attempt p a)

observe_attempt-Agrees :
    (p : Processing) (a : Attempt)
    → Agrees p
    → (p' : Processing) × (observe_attempt p a ≡ some p') × Agrees p'
unfolding observe_attempt processing_outcome
observe_attempt-Agrees p a agrees =
    let outcome = processing_outcome a.outcome in
    let known : has outcome p.outcomes ≡ true =
      classified-All (λ k. has k p.outcomes ≡ true) processing_outcomes "error" a.outcome
        agrees.present in
    let (outcomes', done, i) = increment-Incremented outcome p.outcomes known in
    (
      _,
      ap (attempted p a outcome) done,
      record {
        present =
            All-map {P = λ k. has k p.outcomes ≡ true} {Q = λ k. has k outcomes' ≡ true}
              (λ (k : String) h. i.keys k ∙ h) (processing_outcomes ++ "error" ∷ []) agrees.present;
        attempts =
            add_one_more (summed outcomes') (summed p.outcomes) p.attempts i.sum agrees.attempts;
        errors =
            errors_step (str_eq outcome "ok") (failures outcomes') (failures p.outcomes) p.errors
              i.failed agrees.errors;
      },
    )

observe_attempts-from :
    (attempts : List Attempt) (p : Processing)
    → Agrees p
    → (p' : Processing) × (observe_attempts attempts (some p) ≡ some p') × Agrees p'
unfolding observe_attempts
observe_attempts-from [] p agrees = (p, refl, agrees)
observe_attempts-from (a ∷ rest) p agrees =
    let (q, done, agrees') = observe_attempt-Agrees p a agrees in
    let (last, ended, sound) = observe_attempts-from rest q agrees' in
    (last, ap (observe_attempts rest) done ∙ ended, sound)

new_processing-Agrees : Agrees new_processing
unfolding new_processing atomic_counts
new_processing-Agrees = record {
  present =
      every-All (λ k. has k (atomic_counts (processing_outcomes ++ "error" ∷ [])))
        (processing_outcomes ++ "error" ∷ []) refl;
  attempts = refl;
  errors = refl;
}

-- Whatever attempts a new handle observes, no observation meets a missing counter; the attempts are
-- the sum of the outcomes and the errors the sum of those other than "ok", as uint64.
pub observe_attempts-Agrees :
    (attempts : List Attempt)
    → (p : Processing) × (observe_attempts attempts (some new_processing) ≡ some p) × Agrees p
observe_attempts-Agrees attempts =
    observe_attempts-from attempts new_processing new_processing-Agrees
