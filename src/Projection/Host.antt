-- ===== src/Projection/Host.antt =====
-- What the projection asks of code outside the repository: the JSON decoder, SQLite on the tailapp's
-- own tables, and the JSONata evaluator. Each is a function, so it answers alike on like arguments.
use tailapps.Prelude.{ℕ, String, Bool, List, Result}
use tailapps.Inbox.Tables.{EventId}
use tailapps.Projection.Types.{Failure, Read, Table}

-- A JSON object, and the changes that a program asks of one table.
abbrev pub Object : Type 0 → Type 0
Object Value = List (String × Value)

pub record Changes (Value : Type 0) : Type 0 where
  pub insert : List (Object Value)
  pub upsert : List (Object Value)
  pub delete : List (Object Value)

pub record Evaluated (Value : Type 0) : Type 0 where
  pub decision : String
  pub events : List (String × List (Object Value))
  pub tables : List (String × Changes Value)

pub record Input (Value : Type 0) : Type 0 where
  pub meta : Object Value
  pub event : Object Value
  pub rows : Object Value

pub record Host : Type 1 where
  -- the contents of the tailapp's tables, and the values of JSON
  pub Rows : Type 0
  pub Value : Type 0
  pub null : Value
  pub text : String → Value
  pub number : ℕ → Value
  pub identity_text : EventId → Value
  pub object : Object Value → Value
  pub array : List (Object Value) → Value
  -- encoding/json
  pub decode : List ℕ → Result Failure Value
  -- the core's input contract, and its evaluation of a program
  pub validate_program_input : String → Object Value → Object Value → Result Failure (Unit {0})
  pub evaluate : String → Input Value → Result Failure (Evaluated Value)
  -- SQLite: a read, and the changes of one row of a table
  pub select : Rows → Read → List Value → Result Failure (List (Object Value))
  pub insert_row : String → Object Value → Bool → Rows → Result Failure Rows
  pub delete_row : String → Object Value → Rows → Result Failure Rows
  -- encoding/json: the encoding of a table of a profile
  pub marshal_table : Table → String
  -- SQLite: a schema statement, the views and indexes with their types, and the declared type of
  -- the column of a table
  pub exec : String → Rows → Result Failure Rows
  pub schema_objects : Rows → Result Failure (List (String × String))
  pub declared_type : Rows → String → String → Result Failure String
