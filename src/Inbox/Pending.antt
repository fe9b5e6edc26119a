-- ===== src/Inbox/Pending.antt =====
-- internal/inbox/inbox.go: `Pending` and `Stats`.
use tailapps.Prelude.{
  ℕ, zero, String, Option, none, some, List, [], ◌∷◌, ◌++◌, map, Result, ok, err, length, filter,
  take, ltb, leb, if◌then◌else◌,
}
use tailapps.Prelude.Int.{ℤ, pos, negsuc}
use tailapps.Inbox.Tables.{
  Event, Obligation, Delivery, Tables, Stats, Error, Queue, pending_limit, is_pending,
}
use tailapps.Inbox.Enqueue.{at_position}
use tailapps.Inbox.Settle.{pending_of}

abbrev pub delivery_row : Obligation → Event → Delivery
delivery_row o e = record {
  position = e.position;
  event_id = e.event_id;
  signal = e.signal;
  name = e.name;
  source = e.source;
  time_unix_nano = e.time_unix_nano;
  observed_unix_nano = e.observed_unix_nano;
  trace_id = e.trace_id;
  span_id = e.span_id;
  content_digest = e.content_digest;
  json = e.json;
  revision = o.revision;
  received_at = e.received_at;
}

-- ORDER BY o.position
abbrev pub insert_by_position : Obligation → List Obligation → List Obligation
insert_by_position o [] = o ∷ []
insert_by_position o (x ∷ xs) =
    if leb o.position x.position then o ∷ x ∷ xs else x ∷ insert_by_position o xs

unfoldable pub order_by_position : List Obligation → List Obligation
order_by_position [] = []
order_by_position (o ∷ os) = insert_by_position o (order_by_position os)

-- JOIN inbox_events e ON e.position=o.position
abbrev pub join_rows : List Event → List Obligation → List Delivery
join_rows events [] = []
join_rows events (o ∷ os) =
    map (delivery_row o) (filter (at_position o.position) events) ++ join_rows events os

unfoldable pub pending_rows : Tables → String → ℕ → List Delivery
unfolding order_by_position
pending_rows t tailapp limit =
    take limit (join_rows t.events (order_by_position (filter (pending_of tailapp) t.obligations)))

unfoldable pub pending : Queue → String → ℤ → Result Error (List Delivery)
unfolding pending_rows
pending q tailapp (negsuc n) = err pending_limit
pending q tailapp (pos zero) = err pending_limit
pending q tailapp (pos n) =
    if ltb 1024 n then err pending_limit else ok (pending_rows q.tables tailapp n)

-- The aggregates of an empty table are NULL.
abbrev pub min_option : ℕ → Option ℕ → Option ℕ
min_option n none = some n
min_option n (some m) = some (if leb n m then n else m)

abbrev pub max_option : ℕ → Option ℕ → Option ℕ
max_option n none = some n
max_option n (some m) = some (if leb m n then n else m)

abbrev pub minimum : (Event → ℕ) → List Event → Option ℕ
minimum f [] = none
minimum f (e ∷ es) = min_option (f e) (minimum f es)

abbrev pub maximum : (Event → ℕ) → List Event → Option ℕ
maximum f [] = none
maximum f (e ∷ es) = max_option (f e) (maximum f es)

unfoldable pub stats : Queue → Stats
stats q = record {
  records = q.tables.queued_records;
  canonical_bytes = q.tables.queued_bytes;
  delivery_head = q.tables.delivery_head;
  oldest_position = minimum (λ e. e.position) q.tables.events;
  newest_position = maximum (λ e. e.position) q.tables.events;
  oldest_received_at = minimum (λ e. e.received_at) q.tables.events;
  pending_obligations = length (filter (λ o. is_pending o.state) q.tables.obligations);
}
