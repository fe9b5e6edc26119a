-- ===== src/Engine/Progress.antt =====
-- internal/engine/engine.go: what the parts of a wave do to the queue.
use tailapps.Prelude.{
  ℕ, ◌≤◌, ◌<◌, ◌≡◌, refl, ◌∙◌, String, Bool, true, false, not, List, [], ◌∷◌, Option, none, some,
  ok, str_eq, eq_iff, ◌==◌, if◌then◌else◌, length, filter, length-filter, arith,
}
use tailapps.Inbox.Tables.{Queue, Tables, State, consumed}
use tailapps.Inbox.WellFormed.{WellFormed}
use tailapps.Inbox.Settle.{complete, settle, detach_all, state_of}
use tailapps.Inbox.Outstanding.{outstanding, without}
use tailapps.Inbox.Settled.{
  conflict, Settles, owed_without, settle_tables_ok, settle_tables-conflict, detach_tables_ok,
}

-- The tables stay well formed and nobody owes more.
pub record Shrinks (t t' : Tables) : Type 0 where
  pub formed : WellFormed t'
  pub less : (a : String) → length (outstanding a t') ≤ length (outstanding a t)

filter-le {ℓ} : {A : Type ℓ} (p : A → Bool) (xs : List A) → length (filter p xs) ≤ length xs
filter-le p xs = omega (arith, length-filter p xs)

without-less : (p : ℕ) (rest xs : List ℕ) → xs ≡ p ∷ rest → length (without p xs) < length xs
without-less p rest xs e = rw e (ground (arith, filter-le (λ x. not (x == p)) rest))

-- The tailapp owes less than before.
abbrev pub Settled : Tables → Tables → String → ℕ → Type 0
Settled t t' a p =
    (rest : List ℕ)
    → outstanding a t ≡ p ∷ rest
    → length (outstanding a t') < length (outstanding a t)

module _ (q : Queue) (a : String) (wf : WellFormed q.tables) where
  without-Shrinks :
      (p : ℕ) (t' : Tables) → Settles q.tables t' (owed_without a p q.tables) → Shrinks q.tables t'
  without-Shrinks p t' s = record {
    formed = s.formed;
    less = λ b. rw (s.owing b) (branch (str_eq b a) b);
  }
    where
      branch :
          (c : Bool) (b : String)
          → length (if c then without p (outstanding b q.tables) else outstanding b q.tables)
            ≤ length (outstanding b q.tables)
      branch true b = filter-le (λ x. not (x == p)) (outstanding b q.tables)
      branch false b = omega arith

  without-Settled :
      (p : ℕ) (t' : Tables)
      → Settles q.tables t' (owed_without a p q.tables)
      → Settled q.tables t' a p
  without-Settled p t' s rest e =
      let same = (eq_iff a a).1 refl in
      let left : outstanding a t' ≡ without p (outstanding a q.tables) =
        (s.owing a ∙ rw same refl) in
      rw left (without-less p rest (outstanding a q.tables) e)

  self-Shrinks : Shrinks q.tables q.tables
  self-Shrinks = record { formed = wf; less = λ b. omega arith }

  complete_by :
      (p : ℕ) (c : Option State)
      → conflict consumed (state_of p a q.tables.obligations) ≡ c
      → Shrinks q.tables (complete q a p).0.tables
        × ((complete q a p).1 ≡ ok tt → Settled q.tables (complete q a p).0.tables a p)
  unfolding complete settle
  complete_by p none e =
      let (t', run, s) = settle_tables_ok a p consumed "" q.tables refl wf e in
      rw run (without-Shrinks p t' s, λ h. without-Settled p t' s)
  complete_by p (some other) e =
      rw (settle_tables-conflict a p consumed "" q.tables refl wf other e) (self-Shrinks, λ h. cc)

  pub complete-Shrinks :
      (p : ℕ)
      → Shrinks q.tables (complete q a p).0.tables
        × ((complete q a p).1 ≡ ok tt → Settled q.tables (complete q a p).0.tables a p)
  complete-Shrinks p = complete_by p (conflict consumed (state_of p a q.tables.obligations)) refl

  pub detach_all-Shrinks :
      (p : ℕ) (code : String)
      → Shrinks q.tables (detach_all q a code).0.tables
        × Settled q.tables (detach_all q a code).0.tables a p
  unfolding detach_all
  detach_all-Shrinks p code =
      let (t', run, s) = detach_tables_ok a code q.tables wf in
      rw run (
        record { formed = s.formed; less = λ b. rw (s.owing b) (branch (str_eq b a) b) },
        λ rest e.
            let none_left : outstanding a t' ≡ [] = (s.owing a ∙ rw ((eq_iff a a).1 refl) refl) in
            rw (none_left, e) (omega arith),
      )
    where
      branch :
          (c : Bool) (b : String)
          → length (if c then [] else outstanding b q.tables) ≤ length (outstanding b q.tables)
      branch true b = omega arith
      branch false b = omega arith
