-- ===== src/Jsonataddl/Statements.antt =====
-- jsonataddl/compile.go: splitDDLStatements against the printing of statements.
use tailapps.Prelude.{
  ℕ, ◌≡◌, refl, ap, sym, ◌∙◌, inl, inr, true, false, ◌&&◌, List, [], ◌∷◌, ◌++◌, append_assoc,
  append-nil, ok, ◌>>◌, guard, ◌==◌, if◌then◌else◌, Bool-cases, All, arith,
}
use tailapps.Jsonataddl.Ddl.{
  Unicode, newline, Mode, plain, line_comment, block_comment, quoted, Split, is_quote, write,
  is_empty, peek, trim_space, with_statement, split_next, split_runes, split_ddl_statements,
  missing_semicolon,
}

-- Runes outside of quotes and comments, literals, and the two kinds of comments.
pub data Piece : Type 0 where
  rune : ℕ → Piece
  literal : ℕ → List ℕ → Piece
  line : List ℕ → Piece
  block : List ℕ → Piece

-- The inside of a literal, with its quote doubled, before other runes.
abbrev escaped : ℕ → List ℕ → List ℕ → List ℕ
escaped q [] rest = rest
escaped q (c ∷ body) rest = if c == q then c ∷ c ∷ escaped q body rest else c ∷ escaped q body rest

abbrev piece_source : Piece → List ℕ → List ℕ
piece_source (rune c) rest = c ∷ rest
piece_source (literal q body) rest = q ∷ escaped q body (q ∷ rest)
piece_source (line note) rest = b'-' ∷ b'-' ∷ note ++ newline ∷ rest
piece_source (block note) rest = b'/' ∷ b'*' ∷ note ++ b'*' ∷ b'/' ∷ rest

-- What is kept of a piece.
abbrev piece_text : Piece → List ℕ
piece_text (rune c) = c ∷ []
piece_text (literal q body) = q ∷ escaped q body (q ∷ [])
piece_text (line note) = newline ∷ []
piece_text (block note) = b' ' ∷ []

abbrev pub source_of : List Piece → List ℕ → List ℕ
source_of [] rest = rest
source_of (piece ∷ pieces) rest = piece_source piece (source_of pieces rest)

abbrev pub text_of : List Piece → List ℕ
text_of [] = []
text_of (piece ∷ pieces) = piece_text piece ++ text_of pieces

-- Each statement with its semicolon, and what comes after the last one.
abbrev pub sources : List (List Piece) → List Piece → List ℕ
sources [] tail = source_of tail []
sources (statement ∷ rest) tail = source_of statement (b';' ∷ sources rest tail)

-- A comment's text that does not close it: a star is not before a slash.
abbrev IsOpen : List ℕ → Type 0
IsOpen [] = Unit
IsOpen (c ∷ note) = (c == b'*' && peek note == b'/' ≡ false) × IsOpen note

-- A piece that reads as itself before a rune: a dash is not before a dash, nor a slash before a
-- star; a literal is not before its own quote; comments end where they are closed.
abbrev Reads : Piece → ℕ → Type 0
Reads (rune c) next =
    (c == b'-' && next == b'-' ≡ false)
    × (c == b'/' && next == b'*' ≡ false)
    × (is_quote c ≡ false)
    × ((c == b';') ≡ false)
Reads (literal q body) next = (is_quote q ≡ true) × ((next == q) ≡ false)
Reads (line note) next = All (λ c. (c == newline) ≡ false) note
Reads (block note) next = IsOpen note

-- Every piece reads as itself, the last one before a rune that is given.
abbrev pub ReadAs : List Piece → ℕ → Type 0
ReadAs [] end = Unit
ReadAs (piece ∷ pieces) end = Reads piece (peek (source_of pieces (end ∷ []))) × ReadAs pieces end

quote_apart : (q : ℕ) → is_quote q ≡ true → ((q == b'-') ≡ false) × ((q == b'/') ≡ false)
quote_apart q h = (ground (arith, h), ground (arith, h))

-- The first rune is that of the pieces, or the one after them.
peek-source_of :
    (pieces : List Piece) (rest : List ℕ)
    → peek (source_of pieces rest) ≡ peek (source_of pieces (peek rest ∷ []))
peek-source_of [] rest = refl
peek-source_of (rune c ∷ pieces) rest = refl
peek-source_of (literal q body ∷ pieces) rest = refl
peek-source_of (line note ∷ pieces) rest = refl
peek-source_of (block note ∷ pieces) rest = refl

open_before :
    (c : ℕ) (note rest : List ℕ)
    → c == b'*' && peek note == b'/' ≡ false
    → c == b'*' && peek (note ++ b'*' ∷ rest) == b'/' ≡ false
open_before c [] rest h = ground arith
open_before c (d ∷ note) rest h = h

module _ (u : Unicode) where
  -- The texts, trimmed, without the empty ones.
  abbrev pub texts : List (List Piece) → List (List ℕ) → List (List ℕ)
  texts [] before = before
  texts (statement ∷ rest) before =
      texts rest (with_statement u (trim_space u (text_of statement)) before)

  abbrev at : List (List ℕ) → List ℕ → Mode → Split
  at statements current mode = record {
    statements = statements;
    current = current;
    mode = mode;
    skip = false;
  }

  module _ (done : List (List ℕ)) where
    scan_rune :
        (c : ℕ) (rest now : List ℕ)
        → Reads (rune c) (peek rest)
        → split_runes u (c ∷ rest) (at done now plain)
          ≡ split_runes u rest (at done (now ++ c ∷ []) plain)
    unfolding split_runes
    scan_rune c rest now (dash, slash, quote, semicolon) =
        let kept : split_next u false c (peek rest) (at done now plain)
            ≡ at done (now ++ c ∷ []) plain =
          rw (dash, slash, quote, semicolon) refl in
        ap (λ s. split_runes u rest s) kept

    scan_line :
        (note rest now : List ℕ)
        → All (λ c. (c == newline) ≡ false) note
        → split_runes u (note ++ newline ∷ rest) (at done now line_comment)
          ≡ split_runes u rest (at done (now ++ newline ∷ []) plain)
    unfolding split_runes
    scan_line [] rest now h = refl
    scan_line (c ∷ note) rest now h =
        let s = at done now line_comment in
        ap
          (λ b.
            split_runes u (note ++ newline ∷ rest)
              (if b then record (write c s) { mode = plain } else s))
          h.0
        ∙ scan_line note rest now h.1

    scan_block :
        (note rest now : List ℕ)
        → IsOpen note
        → split_runes u (note ++ b'*' ∷ b'/' ∷ rest) (at done now block_comment)
          ≡ split_runes u rest (at done (now ++ b' ' ∷ []) plain)
    unfolding split_runes
    scan_block [] rest now h = refl
    scan_block (c ∷ note) rest now h =
        let s = at done now block_comment in
        ap
          (λ b.
            split_runes u (note ++ b'*' ∷ b'/' ∷ rest)
              (if b then record (write b' ' s) { mode = plain; skip = true } else s))
          (open_before c note (b'/' ∷ rest) h.0)
        ∙ scan_block note rest now h.1

    joined :
        (rest now mine more : List ℕ)
        → split_runes u rest (at done ((now ++ mine) ++ more) plain)
          ≡ split_runes u rest (at done (now ++ (mine ++ more)) plain)
    joined rest now mine more =
        ap (λ l. split_runes u rest (at done l plain)) (append_assoc now mine more)

    -- The inside of a literal and its closing quote.
    scan_body :
        (q : ℕ) (body rest now : List ℕ)
        → (peek rest == q) ≡ false
        → split_runes u (escaped q body (q ∷ rest)) (at done now (quoted q))
          ≡ split_runes u rest (at done (now ++ escaped q body (q ∷ [])) plain)
    unfolding split_runes
    scan_body q [] rest now h =
        let same : (q == q) ≡ true = ground arith in
        let closes : split_next u false q (peek rest) (at done now (quoted q))
            ≡ at done (now ++ q ∷ []) plain =
          rw (same, h) refl in
        ap (λ s. split_runes u rest s) closes
    scan_body q (d ∷ body) rest now h = elim (Bool-cases (d == q)) [
      | inl e ↦
          let left = escaped q body (q ∷ rest) in
          let twice : split_next u false d d (at done now (quoted q))
              ≡ record (at done ((now ++ d ∷ []) ++ d ∷ []) (quoted q)) { skip = true } =
            rw e refl in
          rw e (
            ap (λ s. split_runes u (d ∷ left) s) twice
            ∙ scan_body q body rest ((now ++ d ∷ []) ++ d ∷ []) h
            ∙ joined rest (now ++ d ∷ []) (d ∷ []) (escaped q body (q ∷ []))
            ∙ joined rest now (d ∷ []) (d ∷ escaped q body (q ∷ [])))
      | inr e ↦
          let left = escaped q body (q ∷ rest) in
          let once : split_next u false d (peek left) (at done now (quoted q))
              ≡ at done (now ++ d ∷ []) (quoted q) =
            rw e refl in
          rw e (
            ap (λ s. split_runes u left s) once
            ∙ scan_body q body rest (now ++ d ∷ []) h
            ∙ joined rest now (d ∷ []) (escaped q body (q ∷ [])))
    ]

    scan_piece :
        (piece : Piece) (rest now : List ℕ)
        → Reads piece (peek rest)
        → split_runes u (piece_source piece rest) (at done now plain)
          ≡ split_runes u rest (at done (now ++ piece_text piece) plain)
    unfolding split_runes
    scan_piece (rune c) rest now h = scan_rune c rest now h
    scan_piece (literal q body) rest now h =
        let (dash, slash) = quote_apart q h.0 in
        let left = escaped q body (q ∷ rest) in
        let opens : split_next u false q (peek left) (at done now plain)
            ≡ at done (now ++ q ∷ []) (quoted q) =
          rw (dash, slash, h.0) refl in
        ap (λ s. split_runes u left s) opens
        ∙ scan_body q body rest (now ++ q ∷ []) h.1
        ∙ joined rest now (q ∷ []) (escaped q body (q ∷ []))
    scan_piece (line note) rest now h = scan_line note rest now h
    scan_piece (block note) rest now h = scan_block note rest now h

    scan_pieces :
        (pieces : List Piece) (rest now : List ℕ)
        → ReadAs pieces (peek rest)
        → split_runes u (source_of pieces rest) (at done now plain)
          ≡ split_runes u rest (at done (now ++ text_of pieces) plain)
    scan_pieces [] rest now h =
        ap (λ l. split_runes u rest (at done l plain)) (sym (append-nil now))
    scan_pieces (piece ∷ pieces) rest now h =
        let reads : Reads piece (peek (source_of pieces rest)) =
          rw (peek-source_of pieces rest) h.0 in
        scan_piece piece (source_of pieces rest) now reads
        ∙ scan_pieces pieces rest (now ++ piece_text piece) h.1
        ∙ joined rest now (piece_text piece) (text_of pieces)

  -- The statements, and a tail of which nothing is left.
  abbrev pub Printed : List (List Piece) → List Piece → Type 0
  Printed statements tail =
      All (λ statement. ReadAs statement b';') statements
      × ReadAs tail 0
      × (trim_space u (text_of tail) ≡ [])

  scan_sources :
      (statements : List (List Piece)) (tail : List Piece) (done : List (List ℕ))
      → Printed statements tail
      → split_runes u (sources statements tail) (at done [] plain) ≡ ok (texts statements done)
  unfolding split_runes
  scan_sources [] tail done (each, last, blank) =
      scan_pieces done tail [] [] last
      ∙ ap (λ l. guard (is_empty l) missing_semicolon >> ok done) blank
  scan_sources (statement ∷ rest) tail done (each, last, blank) =
      scan_pieces done statement (b';' ∷ sources rest tail) [] each.0
      ∙ scan_sources rest tail (with_statement u (trim_space u (text_of statement)) done)
          (each.1, last, blank)

  -- Statements that are printed - runes, literals with any inside and the quote doubled, and
  -- comments, where each piece reads as itself before what follows it - with a semicolon each, and
  -- with blanks and comments after the last one, are split at those semicolons: their texts come
  -- back, trimmed and without empty ones, with the literals as they were and a space or a line break
  -- for each comment.
  pub split_ddl_statements-sources :
      (statements : List (List Piece)) (tail : List Piece)
      → Printed statements tail
      → split_ddl_statements u (sources statements tail) ≡ ok (texts statements [])
  unfolding split_ddl_statements
  split_ddl_statements-sources statements tail h = scan_sources statements tail [] h
