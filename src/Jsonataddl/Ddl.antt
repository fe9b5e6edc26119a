-- ===== src/Jsonataddl/Ddl.antt =====
-- jsonataddl/compile.go: splitDDLStatements and splitTopLevelComma, on the runes of a text.
use tailapps.Prelude.{
  ℕ, zero, suc, Bool, true, false, not, ◌&&◌, ◌||◌, List, [], ◌∷◌, ◌++◌, any, Result, ok, err, ◌>>◌,
  guard, ◌==◌, if◌then◌else◌,
}

-- unicode.IsSpace and unicode.IsControl
pub record Unicode : Type 0 where
  pub is_space : ℕ → Bool
  pub is_control : ℕ → Bool

abbrev pub newline : ℕ
newline = 10

pub data Mode : Type 0 where
  plain line_comment block_comment : Mode
  quoted : ℕ → Mode

pub record Split : Type 0 where
  pub statements : List (List ℕ)
  pub current : List ℕ
  pub mode : Mode
  -- `index++` within the body of the loop
  pub skip : Bool

pub data DdlError : Type 0 where
  unterminated missing_semicolon unbalanced_parentheses unbalanced_declaration invalid_item :
      DdlError

abbrev pub peek : List ℕ → ℕ
peek [] = 0
peek (c ∷ rest) = c

abbrev pub is_empty : List ℕ → Bool
is_empty [] = true
is_empty (c ∷ rest) = false

abbrev pub is_quote : ℕ → Bool
is_quote c = c == 39 || c == 34

abbrev pub write : ℕ → Split → Split
write c s = record s { current = s.current ++ c ∷ [] }

module _ (u : Unicode) where
  unfoldable pub trim_left : List ℕ → List ℕ
  trim_left [] = []
  trim_left (c ∷ rest) = let later = trim_left rest in if u.is_space c then later else c ∷ rest

  unfoldable pub trim_right : List ℕ → List ℕ
  trim_right [] = []
  trim_right (c ∷ rest) =
      let later = trim_right rest in if u.is_space c && is_empty later then [] else c ∷ later

  unfoldable pub trim_space : List ℕ → List ℕ
  trim_space text = trim_right (trim_left text)

  abbrev pub with_statement : List ℕ → List (List ℕ) → List (List ℕ)
  with_statement [] statements = statements
  with_statement (c ∷ rest) statements = statements ++ (c ∷ rest) ∷ []

  abbrev finish_statement : Split → Split
  finish_statement s = record s {
    statements = with_statement (trim_space s.current) s.statements;
    current = [];
  }

  abbrev split_plain : ℕ → ℕ → Split → Split
  split_plain c next s =
      if c == b'-' && next == b'-'
      then record s { mode = line_comment; skip = true }
      else if c == b'/' && next == b'*'
      then record s { mode = block_comment; skip = true }
      else if is_quote c
      then record (write c s) { mode = quoted c }
      else if c == b';'
      then finish_statement s
      else write c s

  -- The switch of the loop.
  abbrev split_mode : Mode → ℕ → ℕ → Split → Split
  split_mode line_comment c next s = if c == newline then record (write c s) { mode = plain } else s
  split_mode block_comment c next s =
      if c == b'*' && next == b'/' then record (write b' ' s) { mode = plain; skip = true } else s
  split_mode (quoted q) c next s =
      if c == q
      then if next == q
        then record (write next (write c s)) { skip = true }
        else record (write c s) { mode = plain }
      else write c s
  split_mode plain c next s = split_plain c next s

  abbrev pub split_next : Bool → ℕ → ℕ → Split → Split
  split_next true c next s = record s { skip = false }
  split_next false c next s = split_mode s.mode c next s

  abbrev pub is_open : Mode → Bool
  is_open plain = false
  is_open line_comment = false
  is_open block_comment = true
  is_open (quoted q) = true

  abbrev split_end : Split → Result DdlError (List (List ℕ))
  split_end s =
      guard (not (is_open s.mode)) unterminated
      >> (guard (is_empty (trim_space s.current)) missing_semicolon >> ok s.statements)

  unfoldable pub split_runes : List ℕ → Split → Result DdlError (List (List ℕ))
  split_runes [] s = split_end s
  split_runes (c ∷ rest) s = split_runes rest (split_next s.skip c (peek rest) s)

  unfoldable pub split_ddl_statements : List ℕ → Result DdlError (List (List ℕ))
  split_ddl_statements source =
      split_runes source (record { statements = []; current = []; mode = plain; skip = false })

pub record Items : Type 0 where
  pub parts : List (List ℕ)
  pub item : List ℕ
  pub depth : ℕ
  -- 0 outside quotes
  pub quote : ℕ

abbrev pub put : ℕ → Items → Items
put c s = record s { item = s.item ++ c ∷ [] }

module _ (u : Unicode) where
  abbrev pub closed : ℕ → Items → ℕ → Result DdlError Items
  closed c s zero = err unbalanced_parentheses
  closed c s (suc depth) = ok (record (put c s) { depth = depth })

  abbrev split_item : ℕ → Items → Result DdlError Items
  split_item c s =
      if not (s.quote == 0)
      then ok (if c == s.quote then record (put c s) { quote = 0 } else put c s)
      else if is_quote c
      then ok (record (put c s) { quote = c })
      else if c == b'('
      then ok (record (put c s) { depth = suc s.depth })
      else if c == b')'
      then closed c s s.depth
      else if c == b',' && s.depth == 0
      then ok (record s { parts = s.parts ++ trim_space u s.item ∷ []; item = [] })
      else ok (put c s)

  unfoldable pub check_items : List (List ℕ) → Result DdlError (Unit {0})
  check_items [] = ok tt
  check_items (part ∷ parts) =
      guard (not (is_empty part || any u.is_control part)) invalid_item >> check_items parts

  abbrev items_end : Items → Result DdlError (List (List ℕ))
  items_end s =
      guard (s.quote == 0 && s.depth == 0) unbalanced_declaration
      >> (let parts = s.parts ++ trim_space u s.item ∷ [] in check_items parts >> ok parts)

  abbrev and_items :
      (Items → Result DdlError (List (List ℕ)))
      → Result DdlError Items
      → Result DdlError (List (List ℕ))
  and_items next (err e) = err e
  and_items next (ok s) = next s

  unfoldable pub split_items : List ℕ → Items → Result DdlError (List (List ℕ))
  split_items [] s = items_end s
  split_items (c ∷ rest) s = and_items (split_items rest) (split_item c s)

  unfoldable pub split_top_level_comma : List ℕ → Result DdlError (List (List ℕ))
  split_top_level_comma source =
      split_items source (record { parts = []; item = []; depth = 0; quote = 0 })
