-- ===== src/Inbox/Enqueued.antt =====
-- `Enqueue` keeps the tables well formed, and appends the batch to what its consumers owe.
use tailapps.Prelude.{
  ℕ, ◌+◌, ◌≡◌, ap, sym, ◌∙◌, true, not, List, [], ◌∷◌, ◌++◌, arith, Result, ok, >>=-eq-ok,
  guard-eq-ok, String, ◌>>=◌, ◌>>◌, guard, length-append, total-append, length, filter, All-map,
  All-append, any-append, filter-append, if◌then◌else◌,
}
use mathlib.Core.List.{append-nil}
use tailapps.Inbox.Tables.{Consumer, Record, Event, Obligation, Tables, Queue, Error, full}
use tailapps.Inbox.Enqueue.{
  at_position, incoming, admit, account, fits, transaction, last_or, within,
}
use tailapps.Inbox.Settle.{pending_at}
use tailapps.Inbox.WellFormed.{WellFormed}
use tailapps.Inbox.Outstanding.{owed, outstanding}
use tailapps.Inbox.Admitted.{positions, event_rows, obligation_rows, Captured, admit-Captured}
use tailapps.Inbox.Batch.{
  Ascending-append, weight, incoming-weight, rows_above, rows_Ascending, rows_bounded,
  length-event_rows, bytes_of-event_rows, rows_live, rows_owned, last-positions,
  obligation_rows-nil, drop_range, drop_rows, subscribed, owed-append, owed-obligation_rows,
  Keyed-right, Ordered-append, obligations_Ordered, obligations_above, owned_bounded,
}

-- How much of a batch stays in the queue.
abbrev pub retained : List Consumer → ℕ → ℕ
retained [] n = 0
retained (c ∷ cs) n = n

pub record Enqueues (t t' : Tables) (rs : List Record) (cs : List Consumer) : Type 0 where
  pub formed : WellFormed t'
  pub head : t'.delivery_head ≡ t.delivery_head + length rs
  pub count : t'.queued_records ≡ t.queued_records + retained cs (length rs)
  pub bytes : t'.queued_bytes ≡ t.queued_bytes + retained cs (weight rs)
  pub owing :
      (a : String)
      → outstanding a t'
        ≡ outstanding a t ++ (if subscribed a cs then positions t.delivery_head 0 rs else [])

module _ (clock : ℕ → ℕ) (t t₁ : Tables) (r : Record) (rs : List Record) (wf : WellFormed t) where
  abbrev m : ℕ
  m = t.delivery_head

  abbrev rows : List Event
  rows = event_rows clock m 0 (r ∷ rs)

  -- A batch without consumers takes positions, and leaves no row.
  account_nobody :
      Captured t t₁ rows (obligation_rows m 0 (r ∷ rs) [])
      → (n b : ℕ) → Enqueues t (account n b (positions m 0 (r ∷ rs)) [] t₁) (r ∷ rs) []
  unfolding account
  account_nobody c n b = record {
    formed = record {
      counted = rw (es, c.queued_records) wf.counted;
      weighed = rw (es, c.queued_bytes) wf.weighed;
      bounded = rw (es, last) (All-map (λ e h. omega arith) t.events wf.bounded);
      ascending = rw es wf.ascending;
      live = rw (es, os) wf.live;
      keyed = rw os wf.keyed;
      ordered = rw os wf.ordered;
      owned = rw (es, os) wf.owned;
    };
    head = last;
    count = c.queued_records ∙ omega arith;
    bytes = c.queued_bytes ∙ omega arith;
    owing = λ a. ap (owed a) os ∙ sym (append-nil _);
  }
    where
      last : last_or 0 (positions m 0 (r ∷ rs)) ≡ m + length (r ∷ rs)
      last = last-positions 0 m 0 r rs ∙ omega arith

      os : t₁.obligations ≡ t.obligations
      os =
          c.obligations
          ∙ ap (λ l. t.obligations ++ l) (obligation_rows-nil m 0 (r ∷ rs))
          ∙ append-nil t.obligations

      es :
          filter (λ e. not (within (m + 0 + 1) (last_or 0 (positions m 0 (r ∷ rs))) e)) t₁.events
          ≡ t.events
      es =
          rw
            (
              c.events,
              last,
              filter-append (λ e. not (within (m + 0 + 1) (m + length (r ∷ rs)) e)) t.events rows,
              drop_range (m + 0 + 1) (m + length (r ∷ rs)) t.events
                  (All-map (λ e h. omega arith) t.events wf.bounded),
              drop_rows (m + 0 + 1) (m + length (r ∷ rs)) rows
                  (All-map (λ e h. omega arith) rows (rows_above clock m 0 (r ∷ rs)))
                  (All-map (λ e h. omega arith) rows (rows_bounded clock m 0 (r ∷ rs))),
            )
            (append-nil t.events)

  account_somebody :
      (k : Consumer) (ks : List Consumer)
      → Captured t t₁ rows (obligation_rows m 0 (r ∷ rs) (k ∷ ks))
      → Enqueues t
          (account (length (r ∷ rs)) (weight (r ∷ rs)) (positions m 0 (r ∷ rs)) (k ∷ ks) t₁)
          (r ∷ rs)
          (k ∷ ks)
  unfolding account
  account_somebody k ks c = record {
    formed = record {
      counted =
          rw (c.events, c.queued_records)
            (omega (
              arith,
              wf.counted,
              length-append t.events rows,
              length-event_rows clock m 0 (r ∷ rs),
            ));
      weighed =
          rw (c.events, c.queued_bytes)
            (omega (
              arith,
              wf.weighed,
              total-append (λ e. e.canonical_bytes) t.events rows,
              bytes_of-event_rows clock m 0 (r ∷ rs),
            ));
      bounded =
          rw (c.events, last)
            (All-append _ t.events rows (All-map (λ e h. omega arith) t.events wf.bounded)
              (All-map (λ e h. omega arith) rows (rows_bounded clock m 0 (r ∷ rs))));
      ascending = rw c.events (
          Ascending-append m t.events rows wf.ascending (rows_Ascending clock m 0 (r ∷ rs))
            wf.bounded (All-map (λ e h. omega arith) rows (rows_above clock m 0 (r ∷ rs))));
      live =
          rw (c.events, c.obligations)
            (All-append _ t.events rows
              (All-map (λ e h. rw (any-append (pending_at e.position) t.obligations new, h))
                t.events wf.live)
              (All-map
                (λ e h. rw (any-append (pending_at e.position) t.obligations new, h) (ground arith))
                rows (rows_live clock m 0 (r ∷ rs) k ks)));
      keyed = c.keyed wf.keyed;
      ordered = rw c.obligations (
          Ordered-append m t.obligations new wf.ordered (obligations_Ordered m 0 (r ∷ rs) (k ∷ ks))
            (All-map (λ o h. owned_bounded m t.events wf.bounded o.position h) t.obligations
              wf.owned)
            (All-map (λ o h. omega arith) new (obligations_above m 0 (r ∷ rs) (k ∷ ks))));
      owned =
          rw (c.events, c.obligations)
            (All-append _ t.obligations new
              (All-map (λ o h. rw (any-append (at_position o.position) t.events rows, h))
                t.obligations wf.owned)
              (All-map
                (λ o h. rw (any-append (at_position o.position) t.events rows, h) (ground arith))
                new (rows_owned clock m 0 (r ∷ rs) (k ∷ ks))));
    };
    head = last;
    count = rw c.queued_records;
    bytes = rw c.queued_bytes;
    owing = λ a. rw (
      c.obligations,
      owed-append a t.obligations new,
      owed-obligation_rows a m 0 (r ∷ rs) (k ∷ ks)
          (Keyed-right t.obligations new (rw c.obligations at (c.keyed wf.keyed))),
    );
  }
    where
      new : List Obligation
      new = obligation_rows m 0 (r ∷ rs) (k ∷ ks)

      last : last_or 0 (positions m 0 (r ∷ rs)) ≡ m + length (r ∷ rs)
      last = last-positions 0 m 0 r rs ∙ omega arith

  account-Enqueues :
      (cs : List Consumer)
      → Captured t t₁ rows (obligation_rows m 0 (r ∷ rs) cs)
      → Enqueues t
          (account (length (r ∷ rs)) (weight (r ∷ rs)) (positions m 0 (r ∷ rs)) cs t₁)
          (r ∷ rs)
          cs
  account-Enqueues [] c = account_nobody c _ _
  account-Enqueues (k ∷ ks) c = account_somebody k ks c

-- A transaction that commits has inserted the whole batch.
pub transaction-Enqueues :
    (clock : ℕ → ℕ) (q : Queue) (r : Record) (rs : List Record) (cs : List Consumer) (ps : List ℕ)
    (t' : Tables)
    → WellFormed q.tables
    → transaction clock q (r ∷ rs) cs ≡ ok (ps, t')
    → Enqueues q.tables t' (r ∷ rs) cs
      × (ps ≡ positions q.tables.delivery_head 0 (r ∷ rs))
      × (fits q (length (r ∷ rs)) (weight (r ∷ rs)) ≡ true)
unfolding transaction
transaction-Enqueues clock q r rs cs ps t' wf h =
    let t = q.tables in
    let finish : ℕ → List ℕ × Tables → Result Error (List ℕ × Tables) =
      λ bytes out. ok (out.0, account (length (r ∷ rs)) bytes out.0 cs out.1) in
    let rest : ℕ → Result Error (List ℕ × Tables) =
      λ bytes. admit clock t.delivery_head 0 (r ∷ rs) cs t >>= finish bytes in
    let (n, h₁, k₁) =
      >>=-eq-ok (incoming 0 (r ∷ rs)) (λ n. guard (fits q (length (r ∷ rs)) n) full >> rest n) h in
    let (room, k₂) = guard-eq-ok (fits q (length (r ∷ rs)) n) full (rest n) k₁ in
    let (out, h₃, k₃) = >>=-eq-ok (admit clock t.delivery_head 0 (r ∷ rs) cs t) (finish n) k₂ in
    let (c, e) = admit-Captured clock t.delivery_head 0 (r ∷ rs) cs t out.1 out.0 h₃ in
    let w : weight (r ∷ rs) ≡ n = incoming-weight 0 (r ∷ rs) n h₁ in
    let et : account (length (r ∷ rs)) n out.0 cs out.1 ≡ t' = cc in
    let ep : out.0 ≡ ps = cc in
    (rw (← et, e, ← w) (account-Enqueues clock t out.1 r rs wf cs c), sym ep ∙ e, rw w room)
