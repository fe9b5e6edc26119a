-- ===== src/Projection/Schema.antt =====
-- internal/projection/projection.go: the schema statements of `Continue`, quote and checkJSONStorage.
use tailapps.Prelude.{
  ℕ, String, Bool, List, [], ◌∷◌, map, Result, ok, ◌>>=◌, ◌>>◌, guard, str_eq, if◌then◌else◌, ◌==◌,
}
use Prim.Native.Char.{code}
use tailapps.Projection.Types.{Failure, Column, Table, elements}
use tailapps.Projection.Host.{Host}
use tailapps.Projection.Evaluation.{member, by_key}
use tailapps.Projection.Process.{is_some}
use tailapps.Projection.Compatible.{failure}
use tailapps.Jsonataddl.Names.{to_lower, same_codes}

abbrev pub append : String → String → String
append String.[] t = t
append (String.◌∷◌ c s) t = String.◌∷◌ c (append s t)

abbrev pub double_quotes : String → String
double_quotes String.[] = ""
double_quotes (String.◌∷◌ c s) =
    let rest = double_quotes s in if code c == 34 then append "\"\"" rest else String.◌∷◌ c rest

abbrev pub quote : String → String
quote identifier = append "\"" (append (double_quotes identifier) "\"")

-- `strings.EqualFold` with JSON_TEXT; besides the case of ASCII, the long s is an s.
abbrev pub fold_code : ℕ → ℕ
fold_code n = if n == 383 then 115 else n

abbrev pub is_json_text : String → Bool
is_json_text declared = same_codes (map fold_code (to_lower declared)) (to_lower "JSON_TEXT")

abbrev pub drop_statement : String × String → String
drop_statement (kind, name) =
    append (if str_eq kind "index" then "DROP INDEX " else "DROP VIEW ") (quote name)

abbrev pub export_statement : String × String → String
export_statement (name, sql) =
    append "CREATE VIEW " (append (quote (append "__tailapp_export_" name)) (append " AS " sql))

module _ (host : Host) where
  open host use {Rows, exec, schema_objects, declared_type}

  unfoldable pub create_tables :
      List (String × Table) → List (String × Table) → Rows → Result Failure Rows
  create_tables old [] rows = ok rows
  create_tables old ((name, t) ∷ rest) rows =
      (if is_some (member name old) then ok rows else exec t.sql rows) >>= create_tables old rest

  unfoldable pub drop_objects : List (String × String) → Rows → Result Failure Rows
  drop_objects [] rows = ok rows
  drop_objects (object ∷ rest) rows = exec (drop_statement object) rows >>= drop_objects rest

  unfoldable pub replace_schema : List String → Rows → Result Failure Rows
  replace_schema [] rows = ok rows
  replace_schema (statement ∷ rest) rows = exec statement rows >>= replace_schema rest

  unfoldable pub create_exports : List (String × String) → Rows → Result Failure Rows
  create_exports [] rows = ok rows
  create_exports (e ∷ rest) rows = exec (export_statement e) rows >>= create_exports rest

  abbrev pub check_column : Rows → String → Column → Result Failure (Unit {0})
  check_column rows name column =
      if str_eq column.type "JSON"
      then (declared_type rows name column.name >>= λ declared.
          guard (is_json_text declared)
            (failure "continuation cannot migrate existing JSON values"))
      else ok tt

  unfoldable pub check_columns : Rows → String → List Column → Result Failure (Unit {0})
  check_columns rows name [] = ok tt
  check_columns rows name (column ∷ rest) =
      check_column rows name column >> check_columns rows name rest

  unfoldable pub check_storage : Rows → List (String × Table) → Result Failure (Unit {0})
  check_storage rows [] = ok tt
  check_storage rows ((name, t) ∷ rest) =
      check_columns rows name (elements t.columns) >> check_storage rows rest

  abbrev pub check_json_storage : List (String × Table) → Rows → Result Failure (Unit {0})
  check_json_storage tables rows = check_storage rows (by_key tables)
