-- ===== src/Metrics/Control.antt =====
-- internal/metrics/metrics.go: ObserveControl over the life of the resident.
use tailapps.Prelude.{
  ◌≡◌, refl, ap, sym, subst, ◌∙◌, String, Bool, true, ◌||◌, ◌&&◌, Option, none, some, List, [], ◌∷◌,
  ◌++◌, map, any, str_eq, eq_iff, All, All-map, arith, Bool-cases, inl, inr,
}
use tailapps.Prelude.Int.{ℤ}
use tailapps.Metrics.Requests.{
  atomic_counts, classified, control_outcomes, control_operations, control_outcome,
  control_operation, RequestState, new_request_state, observe_at, new_control, observe_control,
}
use tailapps.Metrics.Totals.{has, Balanced, observe-Balanced}

abbrev pub Control : Type 0
Control = List (String × RequestState)

abbrev pub control_labels : List String
control_labels = control_outcomes ++ "operation_failed" ∷ []

-- Every operation has a state, and every state is balanced.
pub record Ready (control : Control) : Type 0 where
  pub operations : All (λ k. has k control ≡ true) (control_operations ++ "unknown" ∷ [])
  pub states : All (λ (e : String × RequestState). Balanced control_labels e.1) control

All-front : (P : String → Type 0) (xs ys : List String) → All P (xs ++ ys) → All P xs
All-front P [] ys all = tt
All-front P (x ∷ xs) ys all = (all.0, All-front P xs ys all.1)

All-back : (P : String → Type 0) (xs ys : List String) → All P (xs ++ ys) → All P ys
All-back P [] ys all = all
All-back P (x ∷ xs) ys all = All-back P xs ys all.1

any-All :
    (P : String → Type 0) (value : String) (known : List String)
    → any (λ k. str_eq k value) known ≡ true
    → All P known
    → P value
any-All P value [] h all = cc
any-All P value (k ∷ known) h all = elim (Bool-cases (str_eq k value)) [
  | inl e ↦ subst P ((eq_iff k value).0 e) all.0
  | inr e ↦ any-All P value known (sym (ap (λ b. b || any (λ x. str_eq x value) known) e) ∙ h) all.1
]

-- A label that comes out of a switch is among its labels.
pub classified-All :
    (P : String → Type 0) (known : List String) (other value : String)
    → All P (known ++ other ∷ [])
    → P (classified known other value)
unfolding classified
classified-All P known other value all = elim (Bool-cases (any (λ k. str_eq k value) known)) [
  | inl e ↦ rw e (any-All P value known e (All-front P known (other ∷ []) all))
  | inr e ↦ rw e (All-back P known (other ∷ []) all).0
]

observe_at-Balanced :
    (operation outcome : String) (duration : ℤ) (control : Control)
    → has operation control ≡ true
    → ((state : RequestState) → Balanced control_labels state → has outcome state.outcomes ≡ true)
    → All (λ (e : String × RequestState). Balanced control_labels e.1) control
    → (control' : Control) × (observe_at operation outcome duration control ≡ some control')
      × ((k : String) → has k control' ≡ has k control)
      × All (λ (e : String × RequestState). Balanced control_labels e.1) control'
unfolding observe_at
observe_at-Balanced operation outcome duration [] h label all = cc
observe_at-Balanced operation outcome duration ((k, state) ∷ rest) h label all =
    elim (Bool-cases (str_eq k operation)) [
      | inl e ↦
          let (state', done, balanced) =
            observe-Balanced control_labels state outcome duration (label state all.0) all.0 in
          ((k, state') ∷ rest, rw (e, done) refl, λ k'. refl, (balanced, all.1))
      | inr e ↦
          let (rest', done, keys, balanced) =
            observe_at-Balanced operation outcome duration rest
              (sym (ap (λ b. b || has operation rest) e) ∙ h) label all.1 in
          (
            (k, state) ∷ rest',
            rw (e, done) refl,
            λ k'. ap (λ b. str_eq k k' || b) (keys k'),
            (all.0, balanced),
          )
    ]

observe_control-Ready :
    (control : Control) (operation outcome : String) (duration : ℤ)
    → Ready control
    → (control' : Control) × (observe_control control operation outcome duration ≡ some control')
      × Ready control'
unfolding observe_control control_operation control_outcome
observe_control-Ready control operation outcome duration ready =
    let (control', done, keys, balanced) =
      observe_at-Balanced (control_operation operation) (control_outcome outcome) duration control
        (classified-All (λ k. has k control ≡ true) control_operations "unknown" operation
          ready.operations)
        (λ state b.
          classified-All (λ k. has k state.outcomes ≡ true) control_outcomes "operation_failed"
            outcome b.present)
        ready.states in
    (
      control',
      done,
      record {
        operations =
            All-map {P = λ k. has k control ≡ true} {Q = λ k. has k control' ≡ true}
              (λ (k : String) h. keys k ∙ h) (control_operations ++ "unknown" ∷ [])
              ready.operations;
        states = balanced;
      },
    )

-- The requests that the control server observes, one after another.
unfoldable pub observe_controls : List (String × String × ℤ) → Option Control → Option Control
observe_controls calls none = none
observe_controls [] (some control) = some control
observe_controls ((operation, outcome, duration) ∷ rest) (some control) =
    observe_controls rest (observe_control control operation outcome duration)

observe_controls-from :
    (calls : List (String × String × ℤ)) (control : Control)
    → Ready control
    → (control' : Control) × (observe_controls calls (some control) ≡ some control')
      × Ready control'
unfolding observe_controls
observe_controls-from [] control ready = (control, refl, ready)
observe_controls-from ((operation, outcome, duration) ∷ rest) control ready =
    let (next, done, ready') = observe_control-Ready control operation outcome duration ready in
    let (last, ended, sound) = observe_controls-from rest next ready' in
    (last, ap (observe_controls rest) done ∙ ended, sound)

abbrev pub every : (String → Bool) → List String → Bool
every test [] = true
every test (x ∷ xs) = test x && every test xs

pub every-All :
    (test : String → Bool) (xs : List String) → every test xs ≡ true → All (λ x. test x ≡ true) xs
every-All test [] h = tt
every-All test (x ∷ xs) h = (ground (arith, h), every-All test xs (ground (arith, h)))

new_state-Balanced : Balanced control_labels (new_request_state control_labels)
unfolding new_request_state atomic_counts
new_state-Balanced = record {
  present = every-All (λ k. has k (atomic_counts control_labels)) control_labels refl;
  requests = refl;
  errors = refl;
}

map-All :
    (state : RequestState) (labels : List String)
    → Balanced control_labels state
    → All
        (λ (e : String × RequestState). Balanced control_labels e.1)
        (map (λ k. (k, state)) labels)
map-All state [] b = tt
map-All state (l ∷ labels) b = (b, map-All state labels b)

new_control-Ready : Ready new_control
unfolding new_control
new_control-Ready = record {
  operations = every-All (λ k. has k new_control) (control_operations ++ "unknown" ∷ []) refl;
  states =
      map-All (new_request_state control_labels) (control_operations ++ "unknown" ∷ [])
        new_state-Balanced;
}

-- Whatever operations, outcomes and durations the control server observes, no observation meets a
-- missing counter, every operation keeps a state, and in each the requests are the sum of the
-- outcomes and the errors the sum of those other than "ok", as uint64.
pub observe_controls-Ready :
    (calls : List (String × String × ℤ))
    → (control : Control) × (observe_controls calls (some new_control) ≡ some control)
      × Ready control
observe_controls-Ready calls = observe_controls-from calls new_control new_control-Ready
