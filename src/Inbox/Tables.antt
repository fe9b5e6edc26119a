-- ===== src/Inbox/Tables.antt =====
-- internal/inbox/inbox.go: the types of the package, and the three tables of the queue's schema.
use tailapps.Prelude.{ℕ, String, Bool, true, false, ◌||◌, Option, List, str_eq, ◌*◌, if◌then◌else◌}
use tailapps.Prelude.Int.{ℤ, pos, leb_ℤ}

-- A setting that is not positive stands for its default.
pub record Limits : Type 0 where
  pub records : ℤ
  pub bytes : ℤ

unfoldable pub normalized : Limits → Limits
normalized l = record {
  records = if leb_ℤ l.records (pos 0) then pos 100_000 else l.records;
  bytes = if leb_ℤ l.bytes (pos 0) then pos (256 * 1_048_576) else l.bytes;
}

pub record Consumer : Type 0 where
  pub tailapp : String
  pub revision : String

-- `json` holds the bytes of the canonical record, and `received_at` is `none` for the zero time.
pub record Record : Type 0 where
  pub signal : String
  pub name : String
  pub source : String
  pub time_unix_nano : Option String
  pub observed_unix_nano : Option String
  pub trace_id : Option String
  pub span_id : Option String
  pub content_digest : String
  pub json : List ℕ
  pub received_at : Option ℕ

-- The texts that the program writes for event identities: "" at an activation boundary,
-- "local:<position>" for a delivery, and "<id>#<ordinal>" for an event that it emits.
pub data EventId : Type 0 where
  blank : EventId
  local : ℕ → EventId
  emitted : EventId → ℕ → EventId

pub data State : Type 0 where
  pending consumed detached : State

-- A row of inbox_events.
pub record Event : Type 0 where
  pub position : ℕ
  pub event_id : EventId
  pub signal : String
  pub name : String
  pub source : String
  pub time_unix_nano : Option String
  pub observed_unix_nano : Option String
  pub trace_id : Option String
  pub span_id : Option String
  pub content_digest : String
  pub json : List ℕ
  pub canonical_bytes : ℕ
  pub received_at : ℕ

-- A row of inbox_obligations.
pub record Obligation : Type 0 where
  pub position : ℕ
  pub tailapp : String
  pub revision : String
  pub state : State
  pub error_code : Option String

-- The row of inbox_state, beside the rows of the two other tables in the order of insertion.
pub record Tables : Type 0 where
  pub events : List Event
  pub obligations : List Obligation
  pub delivery_head : ℕ
  pub queued_records : ℕ
  pub queued_bytes : ℕ

pub data Error : Type 0 where
  full : Error
  empty_json : ℕ → Error
  consumer_required : Error
  constraint : Error
  already : State → Error
  pending_limit : Error

-- What `Pending` hands to a consumer.
pub record Delivery : Type 0 where
  pub position : ℕ
  pub event_id : EventId
  pub signal : String
  pub name : String
  pub source : String
  pub time_unix_nano : Option String
  pub observed_unix_nano : Option String
  pub trace_id : Option String
  pub span_id : Option String
  pub content_digest : String
  pub json : List ℕ
  pub revision : String
  pub received_at : ℕ

pub record Stats : Type 0 where
  pub records : ℕ
  pub canonical_bytes : ℕ
  pub delivery_head : ℕ
  pub oldest_position : Option ℕ
  pub newest_position : Option ℕ
  pub oldest_received_at : Option ℕ
  pub pending_obligations : ℕ

pub record Queue : Type 0 where
  pub tables : Tables
  pub limits : Limits

abbrev pub is_pending : State → Bool
is_pending pending = true
is_pending _ = false

abbrev pub same_state : State → State → Bool
same_state pending pending = true
same_state consumed consumed = true
same_state detached detached = true
same_state _ _ = false

-- The CHECK on the column `signal`.
unfoldable pub is_signal : String → Bool
is_signal s = str_eq s "log" || str_eq s "span" || str_eq s "metric"
