-- ===== src/Jsonataddl/Lookups.antt =====
-- jsonataddl/compile.go: the maps of an application under the changes that validateTopology makes.
use tailapps.Prelude.{
  ◌≡◌, refl, ap, sym, ◌∙◌, inl, inr, String, Bool, true, false, List, [], ◌∷◌, ◌++◌, Option, none,
  some, str_eq, eq_iff, if◌then◌else◌, All, Bool-cases,
}
use tailapps.Jsonataddl.Types.{Table}
use tailapps.Jsonataddl.Views.{find_key}
use tailapps.Jsonataddl.Topology.{set_writer}

str_eq_sym : (s t : String) → str_eq s t ≡ false → str_eq t s ≡ false
str_eq_sym s t h = elim (Bool-cases (str_eq t s)) [
  | inl e ↦ let back = (eq_iff s t).1 (sym ((eq_iff t s).0 e)) in cc
  | inr e ↦ e
]

module _ {ℓ} {A : Type ℓ} where
  -- No key occurs twice.
  abbrev pub Distinct : List (String × A) → Type ℓ
  Distinct [] = Unit
  Distinct (e ∷ es) = (find_key e.0 es ≡ none) × Distinct es

  pub find_key-append_other :
      (k j : String) (a : A) (es : List (String × A))
      → str_eq j k ≡ false
      → find_key k (es ++ (j, a) ∷ []) ≡ find_key k es
  unfolding find_key
  find_key-append_other k j a [] h = rw h refl
  find_key-append_other k j a ((i, b) ∷ es) h =
      ap (λ o. if str_eq i k then some b else o) (find_key-append_other k j a es h)

  pub find_key-append_new :
      (k : String) (a : A) (es : List (String × A))
      → find_key k es ≡ none
      → find_key k (es ++ (k, a) ∷ []) ≡ some a
  unfolding find_key
  find_key-append_new k a [] h = let same = (eq_iff k k).1 refl in rw same refl
  find_key-append_new k a ((i, b) ∷ es) h = elim (Bool-cases (str_eq i k)) [
    | inl e ↦
        let bad : some b ≡ none =
          (sym (ap (λ (t : Bool). if t then some b else find_key k es) e) ∙ h) in
        cc
    | inr e ↦
        let later : find_key k es ≡ none =
          (sym (ap (λ (t : Bool). if t then some b else find_key k es) e) ∙ h) in
        rw e (find_key-append_new k a es later)
  ]

  -- A new key may be added at the end.
  pub Distinct-append :
      (k : String) (a : A) (es : List (String × A))
      → find_key k es ≡ none
      → Distinct es
      → Distinct (es ++ (k, a) ∷ [])
  unfolding find_key
  Distinct-append k a [] h d = (refl, tt)
  Distinct-append k a ((i, b) ∷ es) h d = elim (Bool-cases (str_eq i k)) [
    | inl e ↦
        let bad : some b ≡ none =
          (sym (ap (λ (t : Bool). if t then some b else find_key k es) e) ∙ h) in
        cc
    | inr e ↦
        let later : find_key k es ≡ none =
          (sym (ap (λ (t : Bool). if t then some b else find_key k es) e) ∙ h) in
        (find_key-append_other i k a es (str_eq_sym i k e) ∙ d.0, Distinct-append k a es later d.1)
  ]

  pub All-find_key {κ} :
      (P : String × A → Type κ) (k : String) (a : A) (es : List (String × A))
      → All P es
      → find_key k es ≡ some a
      → P (k, a)
  unfolding find_key
  All-find_key P k a [] all h = cc
  All-find_key P k a ((i, b) ∷ es) all h = elim (Bool-cases (str_eq i k)) [
    | inl e ↦
        let same : some b ≡ some a =
          (sym (ap (λ (t : Bool). if t then some b else find_key k es) e) ∙ h) in
        let value : b ≡ a = cc in rw (sym ((eq_iff i k).0 e), sym value) all.0
    | inr e ↦
        All-find_key P k a es all.1
          (sym (ap (λ (t : Bool). if t then some b else find_key k es) e) ∙ h)
  ]

-- A table with another writer, where the name is its own.
abbrev pub written : Bool → String → Option Table → Option Table
written true w (some t) = some (record t { writer = w })
written true w none = none
written false w o = o

pub find_key-set_writer :
    (k name w : String) (es : List (String × Table))
    → find_key k (set_writer name w es) ≡ written (str_eq name k) w (find_key k es)
unfolding find_key set_writer
find_key-set_writer k name w [] = elim (Bool-cases (str_eq name k)) [
  | inl e ↦ rw e refl
  | inr e ↦ rw e refl
]
find_key-set_writer k name w ((i, t) ∷ es) = elim (Bool-cases (str_eq i name)) [
  | inl e ↦ elim (Bool-cases (str_eq i k)) [
    | inl f ↦
        let same : str_eq name k ≡ true = rw (sym ((eq_iff i name).0 e)) f in rw (e, same, f) refl
    | inr f ↦
        let other : str_eq name k ≡ false = rw (sym ((eq_iff i name).0 e)) f in
        rw (e, other, f) refl
  ]
  | inr e ↦ elim (Bool-cases (str_eq i k)) [
    | inl f ↦
        let other : str_eq name k ≡ false = rw (sym ((eq_iff i k).0 f)) (str_eq_sym i name e) in
        rw (e, f, other) refl
    | inr f ↦ rw (e, f) (find_key-set_writer k name w es)
  ]
]
