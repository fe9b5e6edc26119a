-- ===== src/Prelude/Results.antt =====
-- The results of fallible methods: a value, or the method's error of type `E`.
use mathlib.Core.Path.{◌≡◌, refl}
use mathlib.Core.Logic.{◌↔◌}
use mathlib.Core.Bool.{Bool, true, false}

pub data Result {ℓ κ} (E : Type ℓ) (A : Type κ) : Type (ℓ ⊔ κ) where
  ok : A → Result E A
  err : E → Result E A

infixl 5 ◌>>=◌ ◌>>◌
abbrev pub ◌>>=◌ {ℓ κ ι} :
    {E : Type ℓ} {A : Type κ} {B : Type ι} → Result E A → (A → Result E B) → Result E B
◌>>=◌ (err failure) next = err failure
◌>>=◌ (ok value) next = next value

abbrev pub ◌>>◌ {ℓ κ} : {E : Type ℓ} {B : Type κ} → Result E (Unit {0}) → Result E B → Result E B
◌>>◌ step next = step >>= λ done. next

-- `if !test { return failure }`
abbrev pub guard {ℓ} : {E : Type ℓ} → Bool → E → Result E (Unit {0})
guard false failure = err failure
guard true failure = ok tt

-- Where a chain succeeded, each of its steps did.
pub >>=-eq-ok {ℓ κ ι} :
    {E : Type ℓ} {A : Type κ} {B : Type ι} (step : Result E A) (next : A → Result E B) {b : B}
    → (step >>= next) ≡ ok b
    → (value : A) × (step ≡ ok value) × (next value ≡ ok b)
>>=-eq-ok (err failure) next h = cc
>>=-eq-ok (ok value) next h = (value, refl, h)

pub guard-eq-ok {ℓ κ} :
    {E : Type ℓ} {B : Type κ} (test : Bool) (e : E) (k : Result E B) {b : B}
    → (guard test e >> k) ≡ ok b
    → (test ≡ true) × (k ≡ ok b)
guard-eq-ok true e k h = (refl, h)
guard-eq-ok false e k h = cc

-- A sequence of two checks succeeds where both do.
pub >>_iff {ℓ} :
    {E : Type ℓ} (first second : Result E (Unit {0}))
    → ((first >> second) ≡ ok tt) ↔ ((first ≡ ok tt) × (second ≡ ok tt))
>>_iff (ok done) second = ((λ h. (refl, h)), λ h. h.1)
>>_iff (err e) second = ((λ h. cc), λ h. cc)

pub guard_iff {ℓ} : {E : Type ℓ} (test : Bool) (e : E) → (guard test e ≡ ok tt) ↔ (test ≡ true)
guard_iff true e = ((λ h. refl), λ h. refl)
guard_iff false e = ((λ h. cc), λ h. cc)
