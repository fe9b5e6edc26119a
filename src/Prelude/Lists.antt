-- ===== src/Prelude/Lists.antt =====
-- Lists measured by native numbers and searched by Boolean tests, under the library's names.
use Prim.Native.Nat.{ℕ, zero, suc, ◌+◌}
use mathlib.Core.Path.{◌≡◌, refl, ap}
use mathlib.Core.Bool.{Bool, true, false, not, ◌||◌}
use mathlib.Core.List.{List, [], ◌∷◌, ◌++◌, map}
use native.Mathlib.Omega.{arith}
use mathlib.Core.Logic.{inl, inr}
use tailapps.Prelude.Tests.{if◌then◌else◌, Bool-cases}

module _ {ℓ} {A : Type ℓ} where
  abbrev pub length : List A → ℕ
  length [] = 0
  length (x ∷ xs) = suc (length xs)

  abbrev pub take : ℕ → List A → List A
  take zero xs = []
  take (suc n) [] = []
  take (suc n) (x ∷ xs) = x ∷ take n xs

  abbrev pub drop : ℕ → List A → List A
  drop zero xs = xs
  drop (suc n) [] = []
  drop (suc n) (x ∷ xs) = drop n xs

  abbrev pub filter : (A → Bool) → List A → List A
  filter p [] = []
  filter p (x ∷ xs) = let rest = filter p xs in if p x then x ∷ rest else rest

  abbrev pub any : (A → Bool) → List A → Bool
  any p [] = false
  any p (x ∷ xs) = p x || any p xs

  -- The sum of a measure over a list.
  abbrev pub total : (A → ℕ) → List A → ℕ
  total w [] = 0
  total w (x ∷ xs) = w x + total w xs

  -- A predicate of every element, which computes to a tuple.
  abbrev pub All {κ} : (A → Type κ) → List A → Type κ
  All Holds (first ∷ rest) = Holds first × All Holds rest
  All Holds [] = Unit

  pub length-append : (xs ys : List A) → length (xs ++ ys) ≡ length xs + length ys
  length-append [] ys = omega arith
  length-append (x ∷ xs) ys = omega (arith, length-append xs ys)

  pub total-append : (w : A → ℕ) (xs ys : List A) → total w (xs ++ ys) ≡ total w xs + total w ys
  total-append w [] ys = omega arith
  total-append w (x ∷ xs) ys = omega (arith, total-append w xs ys)

  pub any-append : (p : A → Bool) (xs ys : List A) → any p (xs ++ ys) ≡ (any p xs || any p ys)
  any-append p [] ys = refl
  any-append p (x ∷ xs) ys = ground (arith, any-append p xs ys)

  pub filter-append :
      (p : A → Bool) (xs ys : List A) → filter p (xs ++ ys) ≡ filter p xs ++ filter p ys
  filter-append p [] ys = refl
  filter-append p (x ∷ xs) ys = ground (arith, filter-append p xs ys)

  -- What a filter keeps and what it drops make up the whole.
  pub total-filter :
      (w : A → ℕ) (p : A → Bool) (xs : List A)
      → total w (filter p xs) + total w (filter (λ x. not (p x)) xs) ≡ total w xs
  total-filter w p [] = refl
  total-filter w p (x ∷ xs) = ground (arith, total-filter w p xs)

  pub length-filter :
      (p : A → Bool) (xs : List A)
      → length (filter p xs) + length (filter (λ x. not (p x)) xs) ≡ length xs
  length-filter p [] = refl
  length-filter p (x ∷ xs) = ground (arith, length-filter p xs)

  pub All-append {κ} :
      (Holds : A → Type κ) (front back : List A)
      → All Holds front
      → All Holds back
      → All Holds (front ++ back)
  All-append Holds (first ∷ rest) back h k = (h.0, All-append Holds rest back h.1 k)
  All-append Holds [] back h k = k

  All-if {κ} :
      (P : A → Type κ) (b : Bool) (xs ys : List A)
      → All P xs
      → All P ys
      → All P (if b then xs else ys)
  All-if P true xs ys hx hy = hx
  All-if P false xs ys hx hy = hy

  pub All-filter {κ} :
      (P : A → Type κ) (p : A → Bool) (xs : List A) → All P xs → All P (filter p xs)
  All-filter P p [] h = tt
  All-filter P p (x ∷ xs) h =
      let rest = All-filter P p xs h.1 in
      All-if P (p x) (x ∷ filter p xs) (filter p xs) (h.0, rest) rest

  pub All-map {κ ι} :
      {P : A → Type κ} {Q : A → Type ι} (f : (x : A) → P x → Q x) (xs : List A)
      → All P xs
      → All Q xs
  All-map f [] h = tt
  All-map f (x ∷ xs) h = (f x h.0, All-map f xs h.1)

  pub All-filter_self : (p : A → Bool) (xs : List A) → All (λ x. p x ≡ true) (filter p xs)
  All-filter_self p [] = tt
  All-filter_self p (x ∷ xs) = elim (Bool-cases (p x)) [
    | inl h ↦ rw h (h, All-filter_self p xs)
    | inr h ↦ rw h (All-filter_self p xs)
  ]

  -- A filter that keeps all that a test finds does not change the test.
  pub any-filter :
      (q p : A → Bool)
      → ((x : A) → q x ≡ true → p x ≡ true)
      → (xs : List A) → any q (filter p xs) ≡ any q xs
  any-filter q p h [] = refl
  any-filter q p h (x ∷ xs) = ground (arith, any-filter q p h xs, h x)

  pub any-split :
      (q p : A → Bool) (xs : List A)
      → any q xs ≡ (any q (filter p xs) || any q (filter (λ x. not (p x)) xs))
  any-split q p [] = refl
  any-split q p (x ∷ xs) = ground (arith, any-split q p xs)

  -- What a test finds among the elements that pass another has both properties.
  pub any-filter-false :
      (q p : A → Bool)
      → ((x : A) → p x ≡ true → q x ≡ false)
      → (xs : List A) → any q (filter p xs) ≡ false
  any-filter-false q p h [] = refl
  any-filter-false q p h (x ∷ xs) = ground (arith, any-filter-false q p h xs, h x)

  pub filter-filter :
      (q p : A → Bool)
      → ((x : A) → q x ≡ true → p x ≡ true)
      → (xs : List A) → filter q (filter p xs) ≡ filter q xs
  filter-filter q p h [] = refl
  filter-filter q p h (x ∷ xs) = ground (arith, filter-filter q p h xs, h x)

  pub any-filter_none :
      (q p : A → Bool) (xs : List A) → any q xs ≡ false → any q (filter p xs) ≡ false
  any-filter_none q p [] h = refl
  any-filter_none q p (x ∷ xs) h = ground (arith, any-filter_none q p xs)

module _ {ℓ κ} {A : Type ℓ} {B : Type κ} where
  pub length-map : (xs : List A) (f : A → B) → length (map f xs) ≡ length xs
  length-map [] f = refl
  length-map (x ∷ xs) f = ap suc (length-map xs f)
