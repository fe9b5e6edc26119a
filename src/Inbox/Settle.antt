-- ===== src/Inbox/Settle.antt =====
-- internal/inbox/inbox.go: `settle`, `Complete`, `Detach` and `DetachAll`.
use tailapps.Prelude.{
  ℕ, ◌-◌, String, Bool, not, ◌&&◌, Option, none, some, List, [], ◌∷◌, map, Result, ok, ◌>>=◌, ◌>>◌,
  guard, length, filter, any, total, str_eq, ◌==◌, leb, if◌then◌else◌,
}
use tailapps.Inbox.Tables.{
  Event, Obligation, Tables, Error, Queue, State, consumed, detached, constraint, already,
  is_pending, same_state,
}
use tailapps.Inbox.Enqueue.{at_position, has_key, commit}

-- Whether the obligation is one that the WHERE clause of the UPDATE selects.
abbrev pub selected : ℕ → String → Obligation → Bool
selected position tailapp o = has_key position tailapp o && is_pending o.state

abbrev pub null_if_empty : String → Option String
null_if_empty code = if str_eq code "" then none else some code

-- UPDATE inbox_obligations SET state=?, error_code=? WHERE the test holds.
abbrev pub update : (Obligation → Bool) → State → Option String → List Obligation → List Obligation
update test state code =
    map (λ o. if test o then record o { state = state; error_code = code } else o)

-- The state of an obligation, if there is a row.
abbrev pub state_of : ℕ → String → List Obligation → Option State
state_of position tailapp [] = none
state_of position tailapp (o ∷ os) =
    if has_key position tailapp o then some o.state else state_of position tailapp os

abbrev pub pending_at : ℕ → Obligation → Bool
pending_at position o = o.position == position && is_pending o.state

-- EXISTS (SELECT 1 FROM inbox_obligations WHERE position=? AND state='pending')
abbrev pub has_pending : List Obligation → ℕ → Bool
has_pending os position = any (pending_at position) os

abbrev pub bytes_of : List Event → ℕ
bytes_of = total (λ e. e.canonical_bytes)

-- DELETE FROM inbox_events WHERE the test holds, with ON DELETE CASCADE: an obligation goes with
-- its event.
unfoldable pub delete_events : (Event → Bool) → Tables → Tables
delete_events test t =
    let gone = filter test t.events in
    record t {
      events = filter (λ e. not (test e)) t.events;
      obligations = filter (λ o. not (any (at_position o.position) gone)) t.obligations;
    }

-- UPDATE inbox_state, whose columns may not fall below 0.
unfoldable pub release : ℕ → ℕ → Tables → Result Error Tables
release n bytes t = do
  guard (leb n t.queued_records) constraint
  guard (leb bytes t.queued_bytes) constraint
  ok (record t { queued_records = t.queued_records - n; queued_bytes = t.queued_bytes - bytes })

abbrev pub settled_event : List Obligation → ℕ → Event → Bool
settled_event os position e = e.position == position && not (has_pending os position)

-- The statements that remove the record at the position once nobody waits for it.
unfoldable pub collect : ℕ → Tables → Result Error Tables
unfolding delete_events release
collect position t =
    let gone = filter (settled_event t.obligations position) t.events in
    let t' = delete_events (settled_event t.obligations position) t in
    if length gone == 0 then ok t' else release 1 (bytes_of gone) t'

-- The branch of `settle` that found no pending obligation.
unfoldable pub recheck : State → ℕ → Tables → Option State → Result Error Tables
unfolding collect
recheck state position t none = ok t
recheck state position t (some current) = do
  guard (same_state current state) (already current)
  collect position t

unfoldable pub settle_tables : String → ℕ → State → String → Tables → Result Error Tables
unfolding recheck collect
settle_tables tailapp position state code t =
    let test = selected position tailapp in
    if any test t.obligations
    then collect position
        (record t { obligations = update test state (null_if_empty code) t.obligations })
    else recheck state position t (state_of position tailapp t.obligations)

abbrev pub done : Result Error Tables → Result Error (Unit {0} × Tables)
done r = r >>= λ t. ok (tt, t)

unfoldable pub settle : Queue → String → ℕ → State → String → Queue × Result Error (Unit {0})
unfolding settle_tables
settle q tailapp position state code =
    commit q (done (settle_tables tailapp position state code q.tables))

unfoldable pub complete : Queue → String → ℕ → Queue × Result Error (Unit {0})
unfolding settle
complete q tailapp position = settle q tailapp position consumed ""

unfoldable pub detach : Queue → String → ℕ → String → Queue × Result Error (Unit {0})
unfolding settle
detach q tailapp position code = settle q tailapp position detached code

abbrev pub pending_of : String → Obligation → Bool
pending_of tailapp o = str_eq o.tailapp tailapp && is_pending o.state

abbrev pub unwanted : List Obligation → Event → Bool
unwanted os e = not (has_pending os e.position)

-- The tables that the first UPDATE of `DetachAll` leaves.
abbrev pub relinquished : String → String → Tables → Tables
relinquished tailapp code t = record t {
  obligations = update (pending_of tailapp) detached (some code) t.obligations;
}

unfoldable pub detach_tables : String → String → Tables → Result Error (ℕ × Tables)
unfolding delete_events release
detach_tables tailapp code t =
    let t' = relinquished tailapp code t in
    let gone = filter (unwanted t'.obligations) t'.events in
    do
      t'' ← release (length gone) (bytes_of gone) (delete_events (unwanted t'.obligations) t')
      ok (length (filter (pending_of tailapp) t.obligations), t'')

unfoldable pub detach_all : Queue → String → String → Queue × Result Error ℕ
unfolding detach_tables
detach_all q tailapp code = commit q (detach_tables tailapp code q.tables)
