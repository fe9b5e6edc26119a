-- ===== src/Inbox/Enqueue.antt =====
-- internal/inbox/inbox.go: `Enqueue`. A statement that meets a CHECK or a key in use is an error.
-- `clock` gives the reading of time.Now() for the record at each index.
use tailapps.Prelude.{
  ℕ, ◌+◌, String, Bool, not, ◌&&◌, ◌||◌, Option, none, some, List, [], ◌∷◌, ◌++◌, Result, ok, err,
  ◌>>=◌, ◌>>◌, guard, length, filter, any, str_eq, ◌==◌, leb,
}
use tailapps.Prelude.Int.{leb_ℤ, int64}
use tailapps.Inbox.Tables.{
  Consumer, Record, Event, Obligation, Tables, Error, Queue, local, State, full, empty_json,
  consumer_required, constraint, is_signal,
}

-- The first loop: the bytes of the batch, or the index of a record with no content.
unfoldable pub incoming : ℕ → List Record → Result Error ℕ
incoming index [] = ok 0
incoming index (r ∷ rest) = do
  guard (not (length r.json == 0)) (empty_json index)
  n ← incoming (index + 1) rest
  ok (length r.json + n)

abbrev pub or_now : ℕ → Option ℕ → ℕ
or_now now none = now
or_now now (some t) = t

abbrev pub event_row : ℕ → ℕ → Record → Event
event_row now position r = record {
  position = position;
  event_id = local position;
  signal = r.signal;
  name = r.name;
  source = r.source;
  time_unix_nano = r.time_unix_nano;
  observed_unix_nano = r.observed_unix_nano;
  trace_id = r.trace_id;
  span_id = r.span_id;
  content_digest = r.content_digest;
  json = r.json;
  canonical_bytes = length r.json;
  received_at = or_now now r.received_at;
}

abbrev pub obligation_row : ℕ → Consumer → Obligation
obligation_row position c = record {
  position = position;
  tailapp = c.tailapp;
  revision = c.revision;
  state = State.pending;
  error_code = none;
}

abbrev pub at_position : ℕ → Event → Bool
at_position position e = e.position == position

abbrev pub has_key : ℕ → String → Obligation → Bool
has_key position tailapp o = o.position == position && str_eq o.tailapp tailapp

-- INSERT INTO inbox_events: the CHECK on the signal, and the primary key.
unfoldable pub insert_event : ℕ → ℕ → Record → Tables → Result Error Tables
unfolding is_signal
insert_event now position r t = do
  guard (is_signal r.signal) constraint
  guard (not (any (at_position position) t.events)) constraint
  ok (record t { events = t.events ++ event_row now position r ∷ [] })

-- INSERT INTO inbox_obligations: the primary key (position, tailapp).
unfoldable pub insert_obligation : ℕ → Consumer → Tables → Result Error Tables
insert_obligation position c t = do
  guard (not (any (has_key position c.tailapp) t.obligations)) constraint
  ok (record t { obligations = t.obligations ++ obligation_row position c ∷ [] })

-- The inner loop, over the consumers.
unfoldable pub capture : ℕ → List Consumer → Tables → Result Error Tables
unfolding insert_obligation
capture position [] t = ok t
capture position (c ∷ rest) t = do
  guard (not (str_eq c.tailapp "" || str_eq c.revision "")) consumer_required
  t' ← insert_obligation position c t
  capture position rest t'

-- The outer loop, over the records; the positions come back in request order.
unfoldable pub admit :
    (ℕ → ℕ) → ℕ → ℕ → List Record → List Consumer → Tables → Result Error (List ℕ × Tables)
unfolding insert_event capture
admit clock maximum index [] cs t = ok ([], t)
admit clock maximum index (r ∷ rest) cs t =
    let position = maximum + index + 1 in
    do
      t₁ ← insert_event (clock index) position r t
      t₂ ← capture position cs t₁
      out ← admit clock maximum (index + 1) rest cs t₂
      ok (position ∷ out.0, out.1)

abbrev pub last_or : ℕ → List ℕ → ℕ
last_or d [] = d
last_or d (x ∷ xs) = last_or x xs

abbrev pub first_or : ℕ → List ℕ → ℕ
first_or d [] = d
first_or d (x ∷ xs) = x

abbrev pub within : ℕ → ℕ → Event → Bool
within first last e = leb first e.position && leb e.position last

-- The two statements after the loops: the counters, and a batch that nobody consumes is dropped.
unfoldable pub account : ℕ → ℕ → List ℕ → List Consumer → Tables → Tables
account n bytes positions [] t = record t {
  delivery_head = last_or 0 positions;
  events = filter (λ e. not (within (first_or 0 positions) (last_or 0 positions) e)) t.events;
}
account n bytes positions (c ∷ cs) t = record t {
  delivery_head = last_or 0 positions;
  queued_records = t.queued_records + n;
  queued_bytes = t.queued_bytes + bytes;
}

-- count + len(records) and bytes + incomingBytes are int64 sums.
unfoldable pub fits : Queue → ℕ → ℕ → Bool
unfolding int64
fits q n bytes =
    leb_ℤ (int64 (q.tables.queued_records + n)) q.limits.records
    && leb_ℤ (int64 (q.tables.queued_bytes + bytes)) q.limits.bytes

unfoldable pub transaction :
    (ℕ → ℕ) → Queue → List Record → List Consumer → Result Error (List ℕ × Tables)
unfolding incoming fits admit account
transaction clock q rs cs = do
  bytes ← incoming 0 rs
  guard (fits q (length rs) bytes) full
  out ← admit clock q.tables.delivery_head 0 rs cs q.tables
  ok (out.0, account (length rs) bytes out.0 cs out.1)

-- Commit what a transaction made, or roll it back.
abbrev pub commit {ℓ} : {A : Type ℓ} → Queue → Result Error (A × Tables) → Queue × Result Error A
commit q (ok (a, t)) = (record q { tables = t }, ok a)
commit q (err e) = (q, err e)

unfoldable pub enqueue :
    (ℕ → ℕ) → Queue → List Record → List Consumer → Queue × Result Error (List ℕ)
unfolding transaction
enqueue clock q [] cs = (q, ok [])
enqueue clock q (r ∷ rs) cs = commit q (transaction clock q (r ∷ rs) cs)
