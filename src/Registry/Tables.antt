-- ===== src/Registry/Tables.antt =====
-- internal/definition/registry.go: the types of the package, the five tables of its schema, and the
-- functions outside the repository that it calls.
use tailapps.Prelude.{ℕ, String, Option, List, Result}
use tailapps.Prelude.Int.{ℤ}

-- A Go map from paths to contents: its entries, in the order in which a `range` meets them.
abbrev pub Sources : Type 0
Sources = List (String × List ℕ)

-- crypto/sha256, encoding/hex, encoding/json, and the bytes of a Go string.
pub record Host : Type 0 where
  pub bytes : String → List ℕ
  pub sum256 : List ℕ → List ℕ
  pub encode_to_string : List ℕ → String
  pub marshal : Sources → List ℕ
  pub unmarshal : List ℕ → Option Sources

pub record MutationRecord : Type 0 where
  pub response : List ℕ
  pub error_code : String
  pub error_message : String

pub record App : Type 0 where
  pub name : String
  pub draft_revision : String
  pub active_revision : Option String
  pub runtime_profile : Option String
  pub activation_mode : Option String
  pub boundary : Option ℤ

pub record ActivationJournal : Type 0 where
  pub name : String
  pub new_revision : String
  pub runtime : String
  pub mode : String
  pub boundary : ℤ
  pub expected_draft : String
  pub old_revision : Option String

-- A row of definition_elements.
pub record Element : Type 0 where
  pub tailapp : String
  pub path : String
  pub content : List ℕ
  pub digest : String

-- A row of definition_revisions.
pub record Revision : Type 0 where
  pub digest : String
  pub tailapp : String
  pub runtime_profile : String
  pub source_json : List ℕ

pub data MutationState : Type 0 where
  pending complete : MutationState

-- A row of definition_mutation_idempotency, whose response columns are NULL until it is complete.
pub record Mutation : Type 0 where
  pub key : String
  pub operation : String
  pub request_digest : String
  pub state : MutationState
  pub response_json : List ℕ
  pub error_code : Option String
  pub error_message : Option String

-- The rows of definition_tailapps are of the type App.
pub record Registry : Type 0 where
  pub tailapps : List App
  pub elements : List Element
  pub revisions : List Revision
  pub journal : List ActivationJournal
  pub mutations : List Mutation

pub data Error : Type 0 where
  revision_changed : Error
  idempotency_conflict : Error
  idempotency_in_doubt : Error
  no_rows : Error
  constraint : Error
  json : Error

-- A method's new registry and its answer.
abbrev pub Answer : Type 0 → Type 0
Answer A = Result Error (A × Registry)
