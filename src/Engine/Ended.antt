-- ===== src/Engine/Ended.antt =====
-- internal/engine/engine.go: drainPassLocked ends, and an unbounded pass empties the queue.
use tailapps.Prelude.{
  ℕ, zero, suc, ◌≤◌, ◌<◌, ◌≡◌, refl, subst, inl, inr, String, Bool, true, false, ◌&&◌, List, [],
  ◌∷◌, any, Option, some, Result, ok, err, str_eq, eq_iff, leb, ltb, length, total, All, Bool-cases,
  arith,
}
use tailapps.Inbox.Tables.{Delivery, Tables}
use tailapps.Inbox.WellFormed.{WellFormed}
use tailapps.Inbox.Outstanding.{outstanding}
use tailapps.Projection.Host.{Host}
use tailapps.Engine.Drain.{
  Resident, DrainError, no_wave, active_names, process_wave, after_wave, run_items, drain_waves,
  drain_ready, drain_pass_locked,
}
use tailapps.Engine.Waves.{Due, select_wave-Selected}
use tailapps.Engine.Moves.{process_wave-Settled}

-- How much some tailapps owe.
abbrev pub owing : Tables → List String → ℕ
owing t ns = total (λ a. length (outstanding a t)) ns

total-le :
    (f g : String → ℕ) (ns : List String) → ((a : String) → f a ≤ g a) → total f ns ≤ total g ns
total-le f g [] h = omega arith
total-le f g (n ∷ ns) h = omega (arith, h n, total-le f g ns h)

total-lt :
    (f g : String → ℕ) (name : String) (ns : List String)
    → ((a : String) → f a ≤ g a)
    → f name < g name
    → any (λ n. str_eq n name) ns ≡ true
    → total f ns < total g ns
total-lt f g name [] h k e = cc
total-lt f g name (n ∷ ns) h k e = elim (Bool-cases (str_eq n name)) [
  | inl same ↦
      let here : f n < g n = rw ((eq_iff n name).0 same) k in omega (arith, here, total-le f g ns h)
  | inr other ↦ omega (arith, h n, total-lt f g name ns h k (ground (arith, other, e)))
]

module _ (host : Host) (done : String → ℕ → Bool) (now : String → ℕ → ℕ) where
  abbrev State : Type 0
  State = Resident host.Rows

  -- An answer, sound tables, and after `false` nobody owes anything.
  pub record Ends (ns : List String) (x : State × Option (Result DrainError Bool)) : Type 0 where
    pub answer : Result DrainError Bool
    pub is_answer : x.1 ≡ some answer
    pub formed : WellFormed x.0.queue.tables
    pub same_names : active_names x.0.active ≡ ns
    pub drained : answer ≡ ok false → All (λ n. outstanding n x.0.queue.tables ≡ []) ns

  after_wave-Ends :
      (ns : List String) (again : State → State × Option (Result DrainError Bool)) (enough : Bool)
      (x : State × Result DrainError (Unit {0}))
      → WellFormed x.0.queue.tables
      → active_names x.0.active ≡ ns
      → (x.1 ≡ ok tt → Ends ns (again x.0))
      → Ends ns (after_wave again enough x)
  after_wave-Ends ns again enough (r, err e) wf same more = record {
    answer = err e;
    is_answer = refl;
    formed = wf;
    same_names = same;
    drained = λ h. cc;
  }
  after_wave-Ends ns again true (r, ok finished) wf same more = record {
    answer = ok true;
    is_answer = refl;
    formed = wf;
    same_names = same;
    drained = λ h. cc;
  }
  after_wave-Ends ns again false (r, ok finished) wf same more = more refl

  run_items-Ends :
      (fuel : ℕ) (again : State → State × Option (Result DrainError Bool)) (enough : Bool)
      (r : State) (items : List (String × Delivery)) (wf : WellFormed r.queue.tables)
      → owing r.queue.tables (active_names r.active) < suc fuel
      → All (Due r.queue wf (active_names r.active)) items
      → (items ≡ [] → All (λ n. outstanding n r.queue.tables ≡ []) (active_names r.active))
      → ((r' : State)
          → WellFormed r'.queue.tables
          → active_names r'.active ≡ active_names r.active
          → owing r'.queue.tables (active_names r'.active) < fuel
          → Ends (active_names r'.active) (again r'))
      → Ends (active_names r.active) (run_items host done now again enough r items)
  run_items-Ends fuel again enough r [] wf small due empty more = record {
    answer = ok false;
    is_answer = refl;
    formed = wf;
    same_names = refl;
    drained = λ h. empty refl;
  }
  run_items-Ends fuel again enough r ((name, d) ∷ items) wf small due empty more =
      let first = due.0 in
      let x = process_wave host done now ((name, d) ∷ items) r in
      let (moved, settled) = process_wave-Settled host done now name d items r wf first.is_active in
      after_wave-Ends (active_names r.active) again enough x moved.0.formed moved.1 (λ k.
        let less =
          total-lt (λ a. length (outstanding a x.0.queue.tables))
            (λ a. length (outstanding a r.queue.tables)) name (active_names r.active) moved.0.less
            (settled k first.rest first.first) first.is_active in
        let smaller : owing x.0.queue.tables (active_names x.0.active) < fuel =
          rw moved.1 (omega (arith, less, small)) in
        subst (λ ns. Ends ns (again x.0)) moved.1 (more x.0 moved.0.formed moved.1 smaller))

  drain_waves-Ends :
      (fuel limit waves : ℕ) (r : State)
      → WellFormed r.queue.tables
      → owing r.queue.tables (active_names r.active) < fuel
      → Ends (active_names r.active) (drain_waves host done now fuel limit waves r)
  unfolding drain_waves
  drain_waves-Ends zero limit waves r wf small = ground (arith, small)
  drain_waves-Ends (suc fuel) limit waves r wf small =
      let (w, run, selected) =
        select_wave-Selected r.queue wf (active_names r.active) (active_names r.active) no_wave
          (λ n e. e) (λ k. refl) tt in
      rw run (
        run_items-Ends fuel (drain_waves host done now fuel limit (suc waves))
          (ltb 0 limit && leb limit (suc waves)) r w.items wf small selected.due
          (λ k. (selected.empty k).1)
          (λ r' wf' same less. drain_waves-Ends fuel limit (suc waves) r' wf' less))

  ready_lem :
      (ns : List String) (answer : State × Option (Result DrainError Bool)) (r : State)
      (upgrades : List String)
      → upgrades ≡ []
      → Ends ns answer
      → Ends ns (drain_ready answer r upgrades)
  ready_lem ns answer r [] e h = h
  ready_lem ns answer r (name ∷ rest) e h = cc

  -- A pass over well formed tables, with more fuel than its tailapps owe deliveries, ends whatever
  -- the projections answer: with an error, with `true` at the limit of waves, or with `false`, and
  -- then, if no upgrade is pending, no active tailapp owes anything. The tables stay well formed.
  pub drain_pass_locked-Ends :
      (fuel limit : ℕ) (r : State)
      → WellFormed r.queue.tables
      → r.upgrade_pending ≡ []
      → owing r.queue.tables (active_names r.active) < fuel
      → Ends (active_names r.active) (drain_pass_locked host done now fuel limit r)
  unfolding drain_pass_locked
  drain_pass_locked-Ends fuel limit r wf ready small =
      let answer = drain_waves host done now fuel limit 0 r in
      ready_lem (active_names r.active) answer r r.upgrade_pending ready
        (drain_waves-Ends fuel limit 0 r wf small)
