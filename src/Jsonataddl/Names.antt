-- ===== src/Jsonataddl/Names.antt =====
-- strings.ToLower and strings.EqualFold on the ASCII names that the DDL admits, and
-- jsonataddl/application.go: keyColumnsOf.
use tailapps.Prelude.{
  ℕ, ◌+◌, String, Bool, true, false, ◌&&◌, List, [], ◌∷◌, map, Option, none, some, leb, ◌==◌, codes,
  if◌then◌else◌,
}
use tailapps.Jsonataddl.Types.{Column, Table, type_other}

abbrev lower_code : ℕ → ℕ
lower_code n = if leb b'A' n && leb n b'Z' then n + 32 else n

-- The code points of the lowercased text, which serve as a key.
unfoldable pub to_lower : String → List ℕ
to_lower s = map lower_code (codes s)

unfoldable pub same_codes : List ℕ → List ℕ → Bool
same_codes [] [] = true
same_codes (x ∷ xs) (y ∷ ys) = x == y && same_codes xs ys
same_codes [] (y ∷ ys) = false
same_codes (x ∷ xs) [] = false

unfoldable pub equal_fold : String → String → Bool
equal_fold s t = same_codes (to_lower s) (to_lower t)

abbrev no_column : Column
no_column = record { name = ""; type = type_other ""; not_null = false; primary_key = false }

-- `byName[strings.ToLower(name)]`: of columns of one name the last one is kept.
unfoldable pub column_by_name : String → List Column → Option Column
column_by_name name [] = none
column_by_name name (column ∷ rest) =
    let later = column_by_name name rest in
    let here = if equal_fold column.name name then some column else none in
    elim later [ none ↦ here | some found ↦ some found ]

abbrev column_or_zero : Option Column → Column
column_or_zero none = no_column
column_or_zero (some column) = column

unfoldable pub key_columns_of : Table → List Column
key_columns_of t = map (λ name. column_or_zero (column_by_name name t.columns)) t.primary_key
