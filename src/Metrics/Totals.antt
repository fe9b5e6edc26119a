-- ===== src/Metrics/Totals.antt =====
-- internal/metrics/metrics.go: the counters of requests agree with each other, and no observation
-- meets a missing counter.
use tailapps.Prelude.{
  ℕ, ◌+◌, ◌≡◌, refl, ap, sym, subst, ◌∙◌, String, Bool, true, false, ◌||◌, some, List, [], ◌∷◌, any,
  str_eq, eq_iff, if◌then◌else◌, All, All-map, arith, Bool-cases, inl, inr,
}
use tailapps.Prelude.Int.{ℤ}
use tailapps.Metrics.Histogram.{add_uint64, observe_duration}
use tailapps.Metrics.Requests.{Counts, increment, RequestState, counted, observe}

abbrev pub has {ℓ} : {A : Type ℓ} → String → List (String × A) → Bool
has key entries = any (λ e. str_eq e.0 key) entries

-- The sum of all counters, and of those for outcomes other than "ok".
abbrev pub summed : Counts → ℕ
summed [] = 0
summed ((k, c) ∷ rest) = c + summed rest

abbrev pub failures : Counts → ℕ
failures [] = 0
failures ((k, c) ∷ rest) =
    let others = failures rest in if str_eq k "ok" then others else c + others

-- What an Add to one of the counters does to the sums.
pub record Incremented (key : String) (counts counts' : Counts) : Type 0 where
  pub keys : (k : String) → has k counts' ≡ has k counts
  pub sum : add_uint64 (summed counts') 0 ≡ add_uint64 (summed counts) 1
  pub failed :
      add_uint64 (failures counts') 0
      ≡ (if str_eq key "ok" then add_uint64 (failures counts) 0 else add_uint64 (failures counts) 1)

add_wrapped : (c rest : ℕ) → add_uint64 (add_uint64 c 1 + rest) 0 ≡ add_uint64 (c + rest) 1
unfolding add_uint64
add_wrapped c rest = omega arith

add_more :
    (c a b : ℕ) (n : ℕ)
    → add_uint64 a 0 ≡ add_uint64 b n
    → add_uint64 (c + a) 0 ≡ add_uint64 (c + b) n
unfolding add_uint64
add_more c a b n h = omega (arith, h)

-- The sum of the failures after an Add, by whether the counter's label and the added one are "ok".
abbrev unless : Bool → ℕ → ℕ → ℕ
unless b c r = if b then r else c + r

failed_here :
    (b : Bool) (c r : ℕ)
    → add_uint64 (unless b (add_uint64 c 1) r) 0
      ≡ (if b then add_uint64 (unless b c r) 0 else add_uint64 (unless b c r) 1)
failed_here true c r = refl
failed_here false c r = add_wrapped c r

failed_later :
    (b k : Bool) (c r' r : ℕ)
    → add_uint64 r' 0 ≡ (if k then add_uint64 r 0 else add_uint64 r 1)
    → add_uint64 (unless b c r') 0
      ≡ (if k then add_uint64 (unless b c r) 0 else add_uint64 (unless b c r) 1)
failed_later true k c r' r h = h
failed_later false true c r' r h = add_more c r' r 0 h
failed_later false false c r' r h = add_more c r' r 1 h

same_ok : (k key : String) → str_eq k key ≡ true → str_eq k "ok" ≡ str_eq key "ok"
same_ok k key e = let p : k ≡ key = (eq_iff k key).0 e in ap (λ s. str_eq s "ok") p

pub increment-Incremented :
    (key : String) (counts : Counts)
    → has key counts ≡ true
    → (counts' : Counts) × (increment key 1 counts ≡ some counts') × Incremented key counts counts'
unfolding increment
increment-Incremented key [] h = cc
increment-Incremented key ((k, c) ∷ rest) h = elim (Bool-cases (str_eq k key)) [
  | inl e ↦ (
    (k, add_uint64 c 1) ∷ rest,
    rw e refl,
    record {
      keys = λ k'. refl;
      sum = add_wrapped c (summed rest);
      failed =
          subst
            (λ b. add_uint64 (unless (str_eq k "ok") (add_uint64 c 1) (failures rest)) 0 ≡ (
              if b
              then add_uint64 (unless (str_eq k "ok") c (failures rest)) 0
              else add_uint64 (unless (str_eq k "ok") c (failures rest)) 1))
            (same_ok k key e) (failed_here (str_eq k "ok") c (failures rest));
    },
  )
  | inr e ↦
      let (rest', done, i) =
        increment-Incremented key rest (sym (ap (λ b. b || has key rest) e) ∙ h) in
      (
        (k, c) ∷ rest',
        rw (e, done) refl,
        record {
          keys = λ k'. ap (λ b. str_eq k k' || b) (i.keys k');
          sum = add_more c (summed rest') (summed rest) 1 i.sum;
          failed =
              failed_later (str_eq k "ok") (str_eq key "ok") c (failures rest') (failures rest)
                i.failed;
        },
      )
]

-- The counters of a request state: its labels are there, the requests are the sum of the outcomes,
-- and the errors the sum of those other than "ok", as uint64.
pub record Balanced (labels : List String) (state : RequestState) : Type 0 where
  pub present : All (λ k. has k state.outcomes ≡ true) labels
  pub requests : add_uint64 (summed state.outcomes) 0 ≡ add_uint64 state.requests 0
  pub errors : add_uint64 (failures state.outcomes) 0 ≡ add_uint64 state.errors 0

pub add_one_more :
    (a b c : ℕ)
    → add_uint64 a 0 ≡ add_uint64 b 1
    → add_uint64 b 0 ≡ add_uint64 c 0
    → add_uint64 a 0 ≡ add_uint64 (add_uint64 c 1) 0
unfolding add_uint64
add_one_more a b c h k = omega (arith, h, k)

pub errors_step :
    (ok : Bool) (a b c : ℕ)
    → add_uint64 a 0 ≡ (if ok then add_uint64 b 0 else add_uint64 b 1)
    → add_uint64 b 0 ≡ add_uint64 c 0
    → add_uint64 a 0 ≡ add_uint64 (if ok then c else add_uint64 c 1) 0
errors_step true a b c h k = h ∙ k
errors_step false a b c h k = add_one_more a b c h k

pub observe-Balanced :
    (labels : List String) (state : RequestState) (outcome : String) (duration : ℤ)
    → has outcome state.outcomes ≡ true
    → Balanced labels state
    → (state' : RequestState) × (observe state outcome duration ≡ some state')
      × Balanced labels state'
unfolding observe
observe-Balanced labels state outcome duration h balanced =
    let (outcomes', done, i) = increment-Incremented outcome state.outcomes h in
    (
      record {
        requests = add_uint64 state.requests 1;
        errors = if str_eq outcome "ok" then state.errors else add_uint64 state.errors 1;
        outcomes = outcomes';
        duration = observe_duration state.duration duration;
      },
      ap (counted state outcome duration) done,
      record {
        present = All-map (λ (k : String) p. i.keys k ∙ p) labels balanced.present;
        requests =
            add_one_more (summed outcomes') (summed state.outcomes) state.requests i.sum
              balanced.requests;
        errors =
            errors_step (str_eq outcome "ok") (failures outcomes') (failures state.outcomes)
              state.errors i.failed balanced.errors;
      },
    )
