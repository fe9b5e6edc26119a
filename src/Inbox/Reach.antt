-- ===== src/Inbox/Reach.antt =====
-- Every queue that the program can reach: any methods, in any order, with any arguments.
use tailapps.Prelude.{
  ℕ, ◌+◌, ◌^◌, ◌≤◌, ◌<◌, ◌≡◌, refl, true, false, List, [], ◌∷◌, arith, Option, none, some, Result,
  ok, err, String, length,
}
use tailapps.Prelude.Int.{ℤ, pos, leb_ℤ, int64_fits}
use tailapps.Inbox.Tables.{
  Consumer, Record, Tables, Queue, Limits, State, Error, normalized, is_pending, consumed, detached,
}
use tailapps.Inbox.Enqueue.{commit, enqueue, transaction, fits}
use tailapps.Inbox.Settle.{settle, complete, detach, state_of, detach_all}
use tailapps.Inbox.WellFormed.{WellFormed}
use tailapps.Inbox.Settled.{conflict, settle_tables_ok, settle_tables-conflict, detach_tables_ok}
use tailapps.Inbox.Batch.{weight}
use tailapps.Inbox.Enqueued.{retained, transaction-Enqueues}

-- The rows that `initialize` leaves in a new database.
unfoldable pub fresh : Limits → Queue
unfolding normalized
fresh l = record {
  tables = record {
    events = [];
    obligations = [];
    delivery_head = 0;
    queued_records = 0;
    queued_bytes = 0;
  };
  limits = normalized l;
}

-- The counters are within the limits.
pub record IsWithin (q : Queue) : Type 0 where
  pub records : leb_ℤ (pos q.tables.queued_records) q.limits.records ≡ true
  pub bytes : leb_ℤ (pos q.tables.queued_bytes) q.limits.bytes ≡ true

-- Batches are small enough for their counts to be summed in an int64.
pub record Representable (q : Queue) (rs : List Record) : Type 0 where
  pub records : q.tables.queued_records + length rs < 2 ^ 63
  pub bytes : q.tables.queued_bytes + weight rs < 2 ^ 63

pub data Step (q q' : Queue) : Type 0 where
  enqueued :
      (clock : ℕ → ℕ) (rs : List Record) (cs : List Consumer)
      → Representable q rs
      → q' ≡ (enqueue clock q rs cs).0
      → Step q q'
  completed : (a : String) (p : ℕ) → q' ≡ (complete q a p).0 → Step q q'
  detached_one : (a : String) (p : ℕ) (code : String) → q' ≡ (detach q a p code).0 → Step q q'
  detached_all : (a : String) (code : String) → q' ≡ (detach_all q a code).0 → Step q q'

pub data Reach (l : Limits) : Queue → Type 0 where
  start : Reach l (fresh l)
  next : {q q' : Queue} → Reach l q → Step q q' → Reach l q'

pub record Sound (q : Queue) : Type 0 where
  pub formed : WellFormed q.tables
  pub within : IsWithin q

le_within : (a b : ℕ) (l : ℤ) → a ≤ b → leb_ℤ (pos b) l ≡ true → leb_ℤ (pos a) l ≡ true
le_within a b (pos n) h k = ground arith
le_within a b _ h k = k

retained_within :
    (cs : List Consumer) (a n : ℕ) (l : ℤ)
    → leb_ℤ (pos a) l ≡ true
    → leb_ℤ (pos (a + n)) l ≡ true
    → leb_ℤ (pos (a + retained cs n)) l ≡ true
retained_within [] a n l h k = le_within (a + 0) a l (omega arith) h
retained_within (c ∷ cs) a n l h k = k

module _ (q : Queue) (s : Sound q) where
  fits_within :
      (rs : List Record)
      → Representable q rs
      → fits q (length rs) (weight rs) ≡ true
      → (leb_ℤ (pos (q.tables.queued_records + length rs)) q.limits.records ≡ true)
        × (leb_ℤ (pos (q.tables.queued_bytes + weight rs)) q.limits.bytes ≡ true)
  unfolding fits
  fits_within rs small h = ground (
    arith,
    int64_fits (q.tables.queued_records + length rs) small.records,
    int64_fits (q.tables.queued_bytes + weight rs) small.bytes,
  )

  enqueue_commit :
      (clock : ℕ → ℕ) (r : Record) (rs : List Record) (cs : List Consumer)
      → Representable q (r ∷ rs)
      → (res : Result Error (List ℕ × Tables)) → transaction clock q (r ∷ rs) cs ≡ res
      → Sound (commit q res).0
  enqueue_commit clock r rs cs small (ok (ps, t')) e =
      let (m, _, room) = transaction-Enqueues clock q r rs cs ps t' s.formed e in
      let (a, b) = fits_within (r ∷ rs) small room in
      record {
        formed = m.formed;
        within = record {
          records = rw m.count (
              retained_within cs q.tables.queued_records (length (r ∷ rs)) q.limits.records
                s.within.records a);
          bytes = rw m.bytes (
              retained_within cs q.tables.queued_bytes (weight (r ∷ rs)) q.limits.bytes
                s.within.bytes b);
        };
      }
  enqueue_commit clock r rs cs small (err x) e = s

  enqueue-Sound :
      (clock : ℕ → ℕ) (rs : List Record) (cs : List Consumer)
      → Representable q rs
      → Sound (enqueue clock q rs cs).0
  unfolding enqueue
  enqueue-Sound clock [] cs small = s
  enqueue-Sound clock (r ∷ rs) cs small =
      enqueue_commit clock r rs cs small (transaction clock q (r ∷ rs) cs) refl

  settle-Sound :
      (a : String) (p : ℕ) (state : State) (code : String)
      → is_pending state ≡ false
      → (c : Option State) → conflict state (state_of p a q.tables.obligations) ≡ c
      → Sound (settle q a p state code).0
  unfolding settle
  settle-Sound a p state code settled none e =
      let (t', run, m) = settle_tables_ok a p state code q.tables settled s.formed e in
      rw run (record {
        formed = m.formed;
        within = record {
          records = le_within _ _ q.limits.records m.records s.within.records;
          bytes = le_within _ _ q.limits.bytes m.bytes s.within.bytes;
        };
      })
  settle-Sound a p state code settled (some other) e =
      rw (settle_tables-conflict a p state code q.tables settled s.formed other e) s

  detach_all-Sound : (a code : String) → Sound (detach_all q a code).0
  unfolding detach_all
  detach_all-Sound a code =
      let (t', run, m) = detach_tables_ok a code q.tables s.formed in
      rw run (record {
        formed = m.formed;
        within = record {
          records = le_within _ _ q.limits.records m.records s.within.records;
          bytes = le_within _ _ q.limits.bytes m.bytes s.within.bytes;
        };
      })

Step-Sound : {q q' : Queue} → Step q q' → Sound q → Sound q'
unfolding complete detach
Step-Sound {q} (enqueued clock rs cs small e) s = rw e (enqueue-Sound q s clock rs cs small)
Step-Sound {q} (completed a p e) s = rw e (settle-Sound q s a p consumed "" refl _ refl)
Step-Sound {q} (detached_one a p code e) s = rw e (settle-Sound q s a p detached code refl _ refl)
Step-Sound {q} (detached_all a code e) s = rw e (detach_all-Sound q s a code)

fresh-Sound : (l : Limits) → Sound (fresh l)
unfolding fresh
fresh-Sound l = record {
  formed = record {
    counted = refl;
    weighed = refl;
    bounded = tt;
    ascending = tt;
    live = tt;
    keyed = tt;
    ordered = tt;
    owned = tt;
  };
  within = record { records = ground arith; bytes = ground arith };
}

-- From an empty database, whatever methods are called, in any order, with any limits, records,
-- consumers and codes, so long as each batch can be counted in an int64: the counters tell the
-- rows and stay within the limits; positions ascend up to the head; every record kept is owed to
-- some tailapp; every obligation belongs to a record kept, and its key is unique.
pub Reach-Sound : (l : Limits) {q : Queue} → Reach l q → Sound q
Reach-Sound l start = fresh-Sound l
Reach-Sound l (next r st) = Step-Sound st (Reach-Sound l r)
