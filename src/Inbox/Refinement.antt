-- ===== src/Inbox/Refinement.antt =====
-- The queue against its abstract view: what each tailapp owes is a list of positions, to which
-- Enqueue appends, from which settling takes, and which DetachAll empties.
use tailapps.Prelude.{
  ℕ, suc, ◌+◌, ◌<◌, ◌≡◌, refl, false, List, [], ◌∷◌, ◌++◌, map, arith, Option, none, some, Result,
  ok, err, String, length, filter, take, str_eq, if◌then◌else◌, length-map,
}
use tailapps.Prelude.Int.{pos}
use tailapps.Inbox.Tables.{
  Consumer, Record, Delivery, Tables, Queue, State, Error, is_pending, already,
}
use tailapps.Inbox.Enqueue.{commit, enqueue, transaction}
use tailapps.Inbox.Settle.{settle, state_of, detach_all, pending_of}
use tailapps.Inbox.Pending.{pending, pending_rows}
use tailapps.Inbox.WellFormed.{WellFormed}
use tailapps.Inbox.Outstanding.{outstanding}
use tailapps.Inbox.Settled.{
  conflict, owed_without, settle_tables_ok, settle_tables-conflict, detach_tables_ok,
}
use tailapps.Inbox.Admitted.{positions}
use tailapps.Inbox.Batch.{subscribed}
use tailapps.Inbox.Enqueued.{transaction-Enqueues}
use tailapps.Inbox.Fifo.{pending_rows-outstanding}

-- What the caller of `Enqueue` may rely on: an error changes nothing; success gives consecutive
-- positions, which every captured consumer then owes after what it owed before.
abbrev pub EnqueuePost :
    Queue → List Record → List Consumer → Queue → Result Error (List ℕ) → Type 0
EnqueuePost q rs cs q' (ok ps) =
    (ps ≡ positions q.tables.delivery_head 0 rs)
    × (q'.tables.delivery_head ≡ q.tables.delivery_head + length rs)
    × ((a : String)
        → outstanding a q'.tables ≡ outstanding a q.tables ++ (if subscribed a cs then ps else []))
EnqueuePost q rs cs q' (err e) = q' ≡ q

committed :
    (clock : ℕ → ℕ) (q : Queue) (r : Record) (rs : List Record) (cs : List Consumer)
    → WellFormed q.tables
    → (res : Result Error (List ℕ × Tables)) → transaction clock q (r ∷ rs) cs ≡ res
    → EnqueuePost q (r ∷ rs) cs (commit q res).0 (commit q res).1
committed clock q r rs cs wf (ok (ps, t')) e =
    let (m, same, _) = transaction-Enqueues clock q r rs cs ps t' wf e in
    (same, m.head, λ a. rw same (m.owing a))
committed clock q r rs cs wf (err x) e = refl

-- On well formed tables `Enqueue` refines appending to the lists of positions: on success the
-- positions are the next ones in request order, the head moves past them, and what a tailapp owes
-- grows by exactly them if it was captured, and by nothing otherwise; on an error the queue is
-- unchanged.
pub enqueue-refines :
    (clock : ℕ → ℕ) (q : Queue) (r : Record) (rs : List Record) (cs : List Consumer)
    → WellFormed q.tables
    → EnqueuePost q (r ∷ rs) cs (enqueue clock q (r ∷ rs) cs).0 (enqueue clock q (r ∷ rs) cs).1
unfolding enqueue
enqueue-refines clock q r rs cs wf =
    committed clock q r rs cs wf (transaction clock q (r ∷ rs) cs) refl

-- The reply of `Complete` and `Detach`, from the state in which the obligation was.
abbrev pub reply : Option State → Result Error (Unit {0})
reply none = ok tt
reply (some other) = err (already other)

abbrev pub settle_reply : State → Option State → Result Error (Unit {0})
settle_reply state found = reply (conflict state found)

abbrev pub owed_after : Queue → String → ℕ → Result Error (Unit {0}) → String → List ℕ
owed_after q tailapp position (ok u) a = owed_without tailapp position q.tables a
owed_after q tailapp position (err e) a = outstanding a q.tables

module _ (q : Queue) (tailapp : String) (position : ℕ) (state : State) (code : String)
    (settled : is_pending state ≡ false) (wf : WellFormed q.tables) where
  abbrev found : Option State
  found = state_of position tailapp q.tables.obligations

  settle_cases :
      (c : Option State)
      → conflict state found ≡ c
      → ((settle q tailapp position state code).1 ≡ reply c)
        × ((a : String)
            → outstanding a (settle q tailapp position state code).0.tables
              ≡ owed_after q tailapp position (reply c) a)
  unfolding settle
  settle_cases none e =
      let (t', run, s) = settle_tables_ok tailapp position state code q.tables settled wf e in
      rw run (refl, s.owing)
  settle_cases (some other) e =
      rw (settle_tables-conflict tailapp position state code q.tables settled wf other e)
        (refl, λ a. refl)

  -- On well formed tables, settling to a settled state answers by the state in which the obligation
  -- was: no row, pending, or the same state is success, and another settled state is an error that
  -- names it. After success the tailapp owes the position no more and nothing else has changed in
  -- what anyone owes; after an error nothing has.
  pub settle-refines :
      ((settle q tailapp position state code).1 ≡ settle_reply state found)
      × ((a : String)
          → outstanding a (settle q tailapp position state code).0.tables
            ≡ owed_after q tailapp position (settle_reply state found) a)
  settle-refines = settle_cases (conflict state found) refl

-- On well formed tables `DetachAll` succeeds, counts the pending obligations of the tailapp, and
-- leaves it owing nothing; what the other tailapps owe stays.
pub detach_all-refines :
    (q : Queue) (tailapp code : String)
    → WellFormed q.tables
    → ((detach_all q tailapp code).1 ≡ ok (length (outstanding tailapp q.tables)))
      × ((a : String)
          → outstanding a (detach_all q tailapp code).0.tables
            ≡ (if str_eq a tailapp then [] else outstanding a q.tables))
unfolding detach_all
detach_all-refines q tailapp code wf =
    let (t', run, s) = detach_tables_ok tailapp code q.tables wf in
    rw (run, length-map (filter (pending_of tailapp) q.tables.obligations) (λ o. o.position))
      (refl, s.owing)

-- On well formed tables, for a limit from 1 to 1024, `Pending` returns deliveries at the first
-- positions that the tailapp owes, oldest first, as many as the limit allows.
pub pending-refines :
    (q : Queue) (a : String) (n : ℕ)
    → WellFormed q.tables
    → n < 1024
    → (ds : List Delivery) × (pending q a (pos (suc n)) ≡ ok ds)
      × (map (λ d. d.position) ds ≡ take (suc n) (outstanding a q.tables))
unfolding pending
pending-refines q a n wf h =
    (pending_rows q.tables a (suc n), ground arith, pending_rows-outstanding q.tables a (suc n) wf)
