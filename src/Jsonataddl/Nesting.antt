-- ===== src/Jsonataddl/Nesting.antt =====
-- jsonataddl/input.go: inputDepth against the nesting of a JSON text's containers.
use tailapps.Prelude.{
  ℕ, zero, suc, ◌+◌, ◌≡◌, refl, ap, ◌∙◌, Bool, true, false, ◌&&◌, List, [], ◌∷◌, if◌then◌else◌,
  ◌==◌, leb, arith, Bool-cases, inl, inr,
}
use tailapps.Prelude.Int.{pos}
use tailapps.Jsonataddl.Depth.{Scan, is_opening, is_closing, scan_byte, scan_bytes, input_depth}

-- A byte that stands for itself in a string, and one outside strings that opens and closes nothing.
abbrev IsBare : ℕ → Type 0
IsBare b = ((b == 34) ≡ false) × ((b == b'\\') ≡ false)

abbrev IsPlain : ℕ → Type 0
IsPlain b = ((b == 34) ≡ false) × (is_opening b ≡ false) × (is_closing b ≡ false)

-- The inside of a JSON string.
pub data Pieces : Type 0 where
  string_end : Pieces
  bare : (b : ℕ) → IsBare b → Pieces → Pieces
  escape : ℕ → Pieces → Pieces

-- A JSON text: other bytes, strings, and containers with a text inside.
pub data Text : Type 0 where
  text_end : Text
  plain : (b : ℕ) → IsPlain b → Text → Text
  quoted : Pieces → Text → Text
  nested :
      (opening closing : ℕ)
      → is_opening opening ≡ true
      → is_closing closing ≡ true
      → Text
      → Text
      → Text

abbrev pieces_bytes : Pieces → List ℕ → List ℕ
pieces_bytes string_end rest = 34 ∷ rest
pieces_bytes (bare b h ps) rest = b ∷ pieces_bytes ps rest
pieces_bytes (escape b ps) rest = b'\\' ∷ b ∷ pieces_bytes ps rest

-- The bytes of a text, before others.
abbrev pub text_bytes : Text → List ℕ → List ℕ
text_bytes text_end rest = rest
text_bytes (plain b h t) rest = b ∷ text_bytes t rest
text_bytes (quoted ps t) rest = 34 ∷ pieces_bytes ps (text_bytes t rest)
text_bytes (nested o c ho hc inside t) rest = o ∷ text_bytes inside (c ∷ text_bytes t rest)

-- Whether the containers of a text are nested at most so deep.
abbrev pub nests : Text → ℕ → Bool
nests text_end n = true
nests (plain b h t) n = nests t n
nests (quoted ps t) n = nests t n
nests (nested o c ho hc inside t) zero = false
nests (nested o c ho hc inside t) (suc n) = nests inside n && nests t (suc n)

abbrev at : ℕ → Scan
at depth = record { depth = pos depth; quoted = false; escaped = false }

scan-pieces :
    (maximum depth : ℕ) (ps : Pieces) (rest : List ℕ)
    → scan_bytes maximum
        (pieces_bytes ps rest)
        (record { depth = pos depth; quoted = true; escaped = false })
      ≡ scan_bytes maximum rest (at depth)
unfolding scan_bytes scan_byte
scan-pieces maximum depth string_end rest = refl
scan-pieces maximum depth (bare b h ps) rest = rw (h.1, h.0) (scan-pieces maximum depth ps rest)
scan-pieces maximum depth (escape b ps) rest = scan-pieces maximum depth ps rest

and_assoc : (a b c : Bool) → (a && (b && c)) ≡ ((a && b) && c)
and_assoc true b c = refl
and_assoc false b c = refl

and_true : (a : Bool) → (a && true) ≡ a
and_true true = refl
and_true false = refl

opening_quote : (b : ℕ) → is_opening b ≡ true → (b == 34) ≡ false
opening_quote b h = ground arith

closing_quote : (b : ℕ) → is_closing b ≡ true → ((b == 34) ≡ false) × (is_opening b ≡ false)
closing_quote b h = (ground arith, ground arith)

opened :
    (maximum depth o : ℕ) (bs : List ℕ)
    → is_opening o ≡ true
    → scan_bytes maximum (o ∷ bs) (at depth)
      ≡ (if leb (suc depth) maximum then scan_bytes maximum bs (at (suc depth)) else false)
unfolding scan_bytes scan_byte
opened maximum depth o bs h =
    rw (opening_quote o h, h)
      (elim (Bool-cases (leb (suc depth) maximum)) [ inl e ↦ rw e refl | inr e ↦ rw e refl ])

closed :
    (maximum depth c : ℕ) (bs : List ℕ)
    → is_closing c ≡ true
    → scan_bytes maximum (c ∷ bs) (at (suc depth)) ≡ scan_bytes maximum bs (at depth)
unfolding scan_bytes scan_byte
closed maximum depth c bs h = let (e, f) = closing_quote c h in rw (e, f, h) refl

-- With `room` levels left below the maximum.
scan-text :
    (room depth maximum : ℕ) (t : Text) (rest : List ℕ)
    → depth + room ≡ maximum
    → scan_bytes maximum (text_bytes t rest) (at depth)
      ≡ (nests t room && scan_bytes maximum rest (at depth))
unfolding scan_bytes scan_byte
scan-text room depth maximum text_end rest e = refl
scan-text room depth maximum (plain b h t) rest e =
    rw (h.0, h.1, h.2) (scan-text room depth maximum t rest e)
scan-text room depth maximum (quoted ps t) rest e =
    scan-pieces maximum depth ps (text_bytes t rest) ∙ scan-text room depth maximum t rest e
scan-text zero depth maximum (nested o c ho hc inside t) rest e =
    let full : leb (suc depth) maximum ≡ false = ground (arith, e) in
    opened maximum depth o (text_bytes inside (c ∷ text_bytes t rest)) ho
    ∙ ap
        (λ b.
          if b
          then scan_bytes maximum (text_bytes inside (c ∷ text_bytes t rest)) (at (suc depth))
          else false)
        full
scan-text (suc room) depth maximum (nested o c ho hc inside t) rest e =
    let fits : leb (suc depth) maximum ≡ true = ground (arith, e) in
    opened maximum depth o (text_bytes inside (c ∷ text_bytes t rest)) ho
    ∙ ap
        (λ b.
          if b
          then scan_bytes maximum (text_bytes inside (c ∷ text_bytes t rest)) (at (suc depth))
          else false)
        fits
    ∙ scan-text room (suc depth) maximum inside (c ∷ text_bytes t rest) (omega (arith, e))
    ∙ ap (λ b. nests inside room && b)
        (closed maximum depth c (text_bytes t rest) hc
          ∙ scan-text (suc room) depth maximum t rest e)
    ∙ and_assoc (nests inside room) (nests t (suc room)) (scan_bytes maximum rest (at depth))

-- inputDepth accepts a JSON text exactly where its containers are nested at most as deep as the
-- maximum, whatever brackets, quotes and escapes its strings hold.
pub input_depth-nests :
    (t : Text) (maximum : ℕ) → input_depth (text_bytes t []) maximum ≡ nests t maximum
unfolding input_depth scan_bytes
input_depth-nests t maximum =
    scan-text maximum 0 maximum t [] (omega arith) ∙ and_true (nests t maximum)
