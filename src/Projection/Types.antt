-- ===== src/Projection/Types.antt =====
-- internal/projection/projection.go: the types of the package; internal/profile/types.go and
-- evaluate.go: what the projection uses of a compiled profile.
use tailapps.Prelude.{ℕ, String, Bool, Option, none, some, List, []}
use tailapps.Inbox.Tables.{EventId}

-- The kinds of error that `transientProcessError` tells apart.
pub data SqliteCode : Type 0 where
  busy locked nomem readonly interrupt ioerr full cantopen protocol schema : SqliteCode
  other_code : ℕ → SqliteCode

pub data Kind : Type 0 where
  canceled deadline_exceeded evaluation_timeout application : Kind
  sqlite : SqliteCode → Kind

-- An error and the bytes of its text.
pub record Failure : Type 0 where
  pub kind : Kind
  pub message : List ℕ

pub data Cardinality : Type 0 where
  one optional_one many unknown : Cardinality

pub record Read : Type 0 where
  pub name : String
  pub cardinality : Cardinality
  pub limit : ℕ
  pub sql : String
  pub table : String
  pub columns : List String
  pub parameters : List String

pub record Program : Type 0 where
  pub name : String
  pub reads : List Read
  pub writes : List String

pub record Column : Type 0 where
  pub name : String
  pub type : String
  pub not_null : Bool
  pub primary_key : Bool

-- A Go slice, where the nil slice is not the empty one: their JSON encodings differ.
abbrev pub Slice {ℓ} : Type ℓ → Type ℓ
Slice A = Option (List A)

abbrev pub elements {ℓ} : {A : Type ℓ} → Slice A → List A
elements none = []
elements (some xs) = xs

pub record Table : Type 0 where
  pub name : String
  pub columns : Slice Column
  pub primary_key : Slice String
  pub unique_keys : Slice (Slice String)
  pub storage_shape : String
  pub sql : String
  pub writer : String

-- The exports are given by their names and their SQL.
pub record Profile : Type 0 where
  pub name : String
  pub revision : String
  pub runtime_profile : String
  pub normalizer : Program
  pub folds : List Program
  pub tables : List (String × Table)
  pub exports : List (String × String)
  pub replaceable_sql : List String

-- tailapp_frontier, with the revision of the identity row.
pub record Frontier : Type 0 where
  pub revision : String
  pub activation_boundary : ℕ
  pub interpreted_position : ℕ
  pub last_event_id : EventId
  pub complete : Bool
  pub gap_position : Option ℕ
  pub gap_reason : Option (List ℕ)
  pub gap_observed_unix_nano : Option ℕ
  pub last_record_unix_nano : Option String

pub record Stats : Type 0 where
  pub consumed_records : ℕ
  pub ineffective_records : ℕ
  pub emitted_events : ℕ

pub record Identity : Type 0 where
  pub name : String
  pub revision : String
  pub runtime : String

-- An open projection: the compiled profile, and the database with the tailapp's own tables.
pub record Projection (Rows : Type 0) : Type 0 where
  pub profile : Profile
  pub identity : Identity
  pub frontier : Frontier
  pub stats : Stats
  pub rows : Rows

pub record Outcome : Type 0 where
  pub already_applied : Bool
  pub frontier : Frontier
  pub ineffective : Bool
  pub emitted_events : ℕ
