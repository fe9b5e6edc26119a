-- ===== src/Engine/Recent.antt =====
-- internal/engine/engine.go: the buffers of recordIneffectiveLocked.
use tailapps.Prelude.{
  ℕ, zero, suc, ◌+◌, ◌-◌, ◌≤◌, ◌≡◌, refl, ap, sym, ◌∙◌, inl, inr, String, List, [], ◌∷◌, ◌++◌,
  append_assoc, str_eq, eq_iff, ltb, if◌then◌else◌, length, length-append, drop, Bool-cases, arith,
}
use tailapps.Engine.Drain.{IneffectiveRecord, ineffective_buffer_capacity, ring, append_record}

module _ {ℓ} {A : Type ℓ} where
  length-drop : (n : ℕ) (xs : List A) → length (drop n xs) ≡ length xs - n
  length-drop zero xs = omega arith
  length-drop (suc n) [] = omega arith
  length-drop (suc n) (x ∷ xs) = omega (arith, length-drop n xs)

  drop-append : (n : ℕ) (xs ys : List A) → n ≤ length xs → drop n (xs ++ ys) ≡ drop n xs ++ ys
  drop-append zero xs ys h = refl
  drop-append (suc n) [] ys h = ground (arith, h)
  drop-append (suc n) (x ∷ xs) ys h = drop-append n xs ys (omega (arith, h))

  drop-nil : (n : ℕ) → ◌≡◌ {A = List A} (drop n []) []
  drop-nil zero = refl
  drop-nil (suc n) = refl

  drop-drop : (m n : ℕ) (xs : List A) → drop m (drop n xs) ≡ drop (n + m) xs
  drop-drop m zero xs = let sum : m ≡ 0 + m = omega arith in ap (λ k. drop k xs) sum
  drop-drop m (suc n) [] = drop-nil m ∙ sym (drop-nil (suc n + m))
  drop-drop m (suc n) (x ∷ xs) =
      let sum : suc (n + m) ≡ suc n + m = omega arith in
      drop-drop m n xs ∙ ap (λ k. drop k (x ∷ xs)) sum

-- The last ones, as many as a buffer has room for.
abbrev pub latest : List IneffectiveRecord → List IneffectiveRecord
latest rs = drop (length rs - ineffective_buffer_capacity) rs

ring-latest : (rs : List IneffectiveRecord) → ring rs ≡ latest rs
unfolding ring
ring-latest rs = elim (Bool-cases (ltb ineffective_buffer_capacity (length rs))) [
  | inl e ↦ rw e refl
  | inr e ↦
      let nothing : length rs - ineffective_buffer_capacity ≡ 0 = ground (arith, e) in
      rw e (sym (ap (λ n. drop n rs) nothing))
]

latest-append : (rs ss : List IneffectiveRecord) → latest (latest rs ++ ss) ≡ latest (rs ++ ss)
latest-append rs ss =
    let k = length rs - 16 in
    let front : drop k rs ++ ss ≡ drop k (rs ++ ss) = sym (drop-append k rs ss (omega arith)) in
    let counts : length (drop k rs ++ ss) ≡ length rs - k + length ss =
      omega (arith, length-append (drop k rs) ss, length-drop k rs) in
    let whole = length-append rs ss in
    let sum : k + (length (drop k rs ++ ss) - 16) ≡ length (rs ++ ss) - 16 =
      omega (arith, counts, whole) in
    ap (λ l. drop (length (drop k rs ++ ss) - 16) l) front
    ∙ drop-drop (length (drop k rs ++ ss) - 16) k (rs ++ ss)
    ∙ ap (λ n. drop n (rs ++ ss)) sum

abbrev pub buffer_of : String → List (String × List IneffectiveRecord) → List IneffectiveRecord
buffer_of name [] = []
buffer_of name ((key, items) ∷ rest) =
    let later = buffer_of name rest in if str_eq key name then items else later

abbrev pub record_all :
    String
    → List IneffectiveRecord
    → List (String × List IneffectiveRecord)
    → List (String × List IneffectiveRecord)
record_all name [] buffers = buffers
record_all name (r ∷ rs) buffers = record_all name rs (append_record name r buffers)

buffer_of-append_record :
    (name : String) (r : IneffectiveRecord) (buffers : List (String × List IneffectiveRecord))
    → buffer_of name (append_record name r buffers) ≡ latest (buffer_of name buffers ++ r ∷ [])
unfolding append_record
buffer_of-append_record name r [] = rw ((eq_iff name name).1 refl) (ring-latest (r ∷ []))
buffer_of-append_record name r ((key, items) ∷ rest) = elim (Bool-cases (str_eq key name)) [
  | inl e ↦ rw e (rw e (ring-latest (items ++ r ∷ [])))
  | inr e ↦ rw e (rw e (buffer_of-append_record name r rest))
]

-- After any records of a tailapp its buffer holds the latest of what it held and of them, in their
-- order, and never more than there is room for.
pub buffer_of-record_all :
    (name : String) (r : IneffectiveRecord) (rs : List IneffectiveRecord)
    (buffers : List (String × List IneffectiveRecord))
    → (buffer_of name (record_all name (r ∷ rs) buffers)
        ≡ latest (buffer_of name buffers ++ r ∷ rs))
      × (length (buffer_of name (record_all name (r ∷ rs) buffers)) ≤ ineffective_buffer_capacity)
buffer_of-record_all name r rs buffers = (
  same r rs buffers,
  bounded (buffer_of name (record_all name (r ∷ rs) buffers)) (buffer_of name buffers ++ r ∷ rs)
      (same r rs buffers),
)
  where
    same :
        (r : IneffectiveRecord) (rs : List IneffectiveRecord)
        (buffers : List (String × List IneffectiveRecord))
        → buffer_of name (record_all name (r ∷ rs) buffers)
          ≡ latest (buffer_of name buffers ++ r ∷ rs)
    same r [] buffers = buffer_of-append_record name r buffers
    same r (s ∷ rs) buffers =
        same s rs (append_record name r buffers)
        ∙ ap (λ l. latest (l ++ s ∷ rs)) (buffer_of-append_record name r buffers)
        ∙ latest-append (buffer_of name buffers ++ r ∷ []) (s ∷ rs)
        ∙ ap latest (append_assoc (buffer_of name buffers) (r ∷ []) (s ∷ rs))

    bounded :
        (xs ys : List IneffectiveRecord) → xs ≡ latest ys → length xs ≤ ineffective_buffer_capacity
    bounded xs ys e = rw e (omega (arith, length-drop (length ys - 16) ys))
