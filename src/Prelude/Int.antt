-- ===== src/Prelude/Int.antt =====
-- Signed integers over the native numbers, and the reading of a sum as a Go int64.
use Prim.Native.Nat.{ℕ, ◌-◌, ◌%◌, ◌^◌, ◌<◌}
use mathlib.Core.Path.{◌≡◌, refl}
use mathlib.Core.Bool.{Bool, true, false}
use native.Mathlib.Omega.{arith}
use tailapps.Prelude.Tests.{ltb, leb, if◌then◌else◌}

-- `negsuc n` is -(n + 1).
pub data ℤ : Type 0 where
  pos : ℕ → ℤ
  negsuc : ℕ → ℤ

abbrev pub leb_ℤ : ℤ → ℤ → Bool
leb_ℤ (pos a) (pos b) = leb a b
leb_ℤ (pos a) (negsuc b) = false
leb_ℤ (negsuc a) (pos b) = true
leb_ℤ (negsuc a) (negsuc b) = leb b a

-- A natural number as the int64 that its low 64 bits stand for.
unfoldable pub int64 : ℕ → ℤ
int64 n = let low = n % 2 ^ 64 in if ltb low (2 ^ 63) then pos low else negsuc (2 ^ 64 - low - 1)

-- A sum that fits is itself.
pub int64_fits : (n : ℕ) → n < 2 ^ 63 → int64 n ≡ pos n
unfolding int64
int64_fits n h = ground arith

int64_wraps : int64 (2 ^ 63) ≡ negsuc (2 ^ 63 - 1)
unfolding int64
int64_wraps = refl
