-- ===== src/Jsonataddl/Depth.antt =====
-- jsonataddl/input.go: inputDepth.
use tailapps.Prelude.{
  ℕ, zero, suc, Bool, true, false, not, ◌||◌, List, [], ◌∷◌, Option, none, some, if◌then◌else◌,
  ◌==◌,
}
use tailapps.Prelude.Int.{ℤ, pos, negsuc, leb_ℤ}

pub record Scan : Type 0 where
  pub depth : ℤ
  pub quoted : Bool
  pub escaped : Bool

abbrev increased : ℤ → ℤ
increased (pos n) = pos (suc n)
increased (negsuc zero) = pos 0
increased (negsuc (suc n)) = negsuc n

abbrev decreased : ℤ → ℤ
decreased (pos zero) = negsuc 0
decreased (pos (suc n)) = pos n
decreased (negsuc n) = negsuc (suc n)

abbrev pub is_opening : ℕ → Bool
is_opening b = b == b'{' || b == b'['

abbrev pub is_closing : ℕ → Bool
is_closing b = b == b'}' || b == b']'

-- Inside quotes.
abbrev scan_quoted : Scan → ℕ → Scan
scan_quoted s b =
    if s.escaped
    then record s { escaped = false }
    else if b == b'\\'
    then record s { escaped = true }
    else if b == 34
    then record s { quoted = false }
    else s

-- Outside quotes; `none` where the depth passes the maximum.
abbrev scan_plain : ℕ → Scan → ℕ → Option Scan
scan_plain maximum s b =
    if b == 34
    then some (record s { quoted = true })
    else if is_opening b
    then if not (leb_ℤ (increased s.depth) (pos maximum))
      then none
      else some (record s { depth = increased s.depth })
    else if is_closing b
    then some (record s { depth = decreased s.depth })
    else some s

unfoldable pub scan_byte : ℕ → Scan → ℕ → Option Scan
scan_byte maximum s b = if s.quoted then some (scan_quoted s b) else scan_plain maximum s b

abbrev scan_next : (Scan → Bool) → Option Scan → Bool
scan_next go none = false
scan_next go (some s) = go s

-- Whether the loop ends without an error.
unfoldable pub scan_bytes : ℕ → List ℕ → Scan → Bool
scan_bytes maximum [] s = true
scan_bytes maximum (b ∷ bs) s = scan_next (scan_bytes maximum bs) (scan_byte maximum s b)

-- `true` where inputDepth returns no error.
unfoldable pub input_depth : List ℕ → ℕ → Bool
input_depth encoded maximum =
    scan_bytes maximum encoded (record { depth = pos 0; quoted = false; escaped = false })
