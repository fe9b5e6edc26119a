-- ===== src/Jsonataddl/Types.antt =====
-- jsonataddl/application.go and dialect.go: the parts of a compiled application and of a dialect;
-- decoded JSON values, and the functions of Go's libraries on them.
use tailapps.Prelude.{ℕ, String, Bool, List, [], ◌∷◌, Option}
use tailapps.Prelude.Int.{ℤ}

-- What a number-preserving decoder makes of JSON: a `json.Number` keeps its text.
mutual
  pub data Json : Type 0 where
    null : Json
    bool : Bool → Json
    number : String → Json
    string : String → Json
    array : Array → Json
    object : Members → Json

  pub data Array : Type 0 where
    no_items : Array
    item : Json → Array → Array

  pub data Members : Type 0 where
    no_members : Members
    member : String → Json → Members → Members

abbrev pub items : Array → List Json
items no_items = []
items (item v vs) = v ∷ items vs

-- A Go map from names to values: the entries, in the order in which a `range` meets them.
abbrev pub entries : Members → List (String × Json)
entries no_members = []
entries (member name v rest) = (name, v) ∷ entries rest

-- encoding/json, encoding/base64, strconv and math: the answers of their functions, and a float64.
pub record Codec : Type 1 where
  pub Float : Type 0
  pub is_finite : Float → Bool
  pub int64 : String → Option ℤ
  pub float64 : String → Option Float
  pub format_int : ℤ → String
  pub decode_base64 : String → Option (List ℕ)
  pub encode_base64 : List ℕ → String
  pub marshal : Json → String
  pub decode : String → Option Json
  pub is_valid : String → Bool
  pub string_of : List ℕ → String

pub data LogicalType : Type 0 where
  type_text type_integer type_real type_boolean type_blob type_json : LogicalType
  type_other : String → LogicalType

pub record Column : Type 0 where
  pub name : String
  pub type : LogicalType
  pub not_null : Bool
  pub primary_key : Bool

pub record Table : Type 0 where
  pub name : String
  pub columns : List Column
  pub primary_key : List String
  pub unique_keys : List (List String)
  pub storage_shape : String
  pub sql : String
  pub writer : String

pub record View : Type 0 where
  pub name : String
  pub sql : String
  pub dependencies : List String

pub data Cardinality : Type 0 where
  one optional_one many : Cardinality
  unsupported : String → Cardinality

pub record Read : Type 0 where
  pub name : String
  pub cardinality : Cardinality
  pub limit : ℕ
  pub sql : String
  pub table : String
  pub columns : List String
  pub parameters : List String
  pub order_by : List String

-- A program without its compiled expression.
pub record Program : Type 0 where
  pub name : String
  pub event : String
  pub path : String
  pub reads : List Read
  pub writes : List String
  pub emits : String
  pub normalizer : Bool

pub data ReadVisibility : Type 0 where
  own_tables own_and_normalizer_tables : ReadVisibility
  not_implemented : String → ReadVisibility

pub record Limits : Type 0 where
  pub max_element_bytes : ℕ
  pub max_source_bytes : ℕ
  pub max_program_bytes : ℕ
  pub max_input_bytes : ℕ
  pub max_input_depth : ℕ
  pub max_output_bytes : ℕ
  pub max_depth : ℕ
  pub max_range : ℕ
  pub max_events : ℕ
  pub max_facts : ℕ
  pub max_row_changes : ℕ
  pub max_many_rows : ℕ
