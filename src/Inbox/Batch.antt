-- ===== src/Inbox/Batch.antt =====
-- The rows of one batch in themselves: their order, their owners, their size, and to whom they are
-- owed.
use tailapps.Prelude.{
  ℕ, suc, ◌+◌, ◌≤◌, ◌<◌, ◌≡◌, refl, ap, ◌∙◌, inl, inr, Bool, true, false, not, List, [], ◌∷◌, ◌++◌,
  map, arith, Result, ok, >>=-eq-ok, guard-eq-ok, String, ◌>>=◌, length, filter, any, total, All,
  All-map, All-append, any-append, filter-append, ◌==◌, str_eq, eq_iff, Bool-cases, if◌then◌else◌,
}
use mathlib.Core.List.{map-append}
use tailapps.Inbox.Tables.{Consumer, Record, Event, Obligation, Error, empty_json}
use tailapps.Inbox.Enqueue.{
  at_position, has_key, event_row, obligation_row, incoming, last_or, within,
}
use tailapps.Inbox.Settle.{has_pending, pending_at, pending_of, bytes_of}
use tailapps.Inbox.WellFormed.{Ascending, Keyed, Ordered}
use tailapps.Inbox.Outstanding.{owed}
use tailapps.Inbox.Admitted.{positions, event_rows, obligation_rows}

pub Ascending-append :
    (m : ℕ) (xs ys : List Event)
    → Ascending xs
    → Ascending ys
    → All (λ e. e.position ≤ m) xs
    → All (λ e. m < e.position) ys
    → Ascending (xs ++ ys)
Ascending-append m [] ys ax ay bx by = ay
Ascending-append m (x ∷ xs) ys ax ay bx by = (
  All-append _ xs ys ax.0 (All-map (λ e h. omega (arith, bx.0)) ys by),
  Ascending-append m xs ys ax.1 ay bx.1 by,
)

abbrev pub weight : List Record → ℕ
weight = total (λ r. length r.json)

pub incoming-weight : (i : ℕ) (rs : List Record) (n : ℕ) → incoming i rs ≡ ok n → weight rs ≡ n
unfolding incoming
incoming-weight i [] n h = cc
incoming-weight i (r ∷ rs) n h =
    let add : ℕ → Result Error ℕ = λ k. ok (length r.json + k) in
    let (_, h₁) =
      guard-eq-ok (not (length r.json == 0)) (empty_json i) (incoming (i + 1) rs >>= add) h in
    let (k, h₂, h₃) = >>=-eq-ok (incoming (i + 1) rs) add h₁ in
    let e = incoming-weight (i + 1) rs k h₂ in ground arith

module _ (clock : ℕ → ℕ) (m : ℕ) where
  pub rows_above :
      (i : ℕ) (rs : List Record) → All (λ e. m + i < e.position) (event_rows clock m i rs)
  rows_above i [] = tt
  rows_above i (r ∷ rs) = (omega arith, All-map (λ e h. omega arith) _ (rows_above (i + 1) rs))

  pub rows_Ascending : (i : ℕ) (rs : List Record) → Ascending (event_rows clock m i rs)
  rows_Ascending i [] = tt
  rows_Ascending i (r ∷ rs) =
      (All-map (λ e h. omega arith) _ (rows_above (i + 1) rs), rows_Ascending (i + 1) rs)

  pub rows_bounded :
      (i : ℕ) (rs : List Record)
      → All (λ e. e.position ≤ m + i + length rs) (event_rows clock m i rs)
  rows_bounded i [] = tt
  rows_bounded i (r ∷ rs) = (omega arith, All-map (λ e h. omega arith) _ (rows_bounded (i + 1) rs))

  pub length-event_rows : (i : ℕ) (rs : List Record) → length (event_rows clock m i rs) ≡ length rs
  length-event_rows i [] = refl
  length-event_rows i (r ∷ rs) = ap suc (length-event_rows (i + 1) rs)

  pub bytes_of-event_rows :
      (i : ℕ) (rs : List Record) → bytes_of (event_rows clock m i rs) ≡ weight rs
  bytes_of-event_rows i [] = refl
  bytes_of-event_rows i (r ∷ rs) = omega (arith, bytes_of-event_rows (i + 1) rs)

  pub rows_live :
      (i : ℕ) (rs : List Record) (c : Consumer) (cs : List Consumer)
      → All
          (λ e. has_pending (obligation_rows m i rs (c ∷ cs)) e.position ≡ true)
          (event_rows clock m i rs)
  rows_live i [] c cs = tt
  rows_live i (r ∷ rs) c cs = (
    ground arith,
    All-map
        (λ e h.
          rw (any-append (pending_at e.position) (map (obligation_row (m + i + 1)) cs) _, h)
            (ground arith))
        _ (rows_live (i + 1) rs c cs),
  )

  head_owned :
      (p : ℕ) (e : Event) (es : List Event)
      → e.position ≡ p
      → (cs : List Consumer)
      → All (λ o. any (at_position o.position) (e ∷ es) ≡ true) (map (obligation_row p) cs)
  head_owned p e es h [] = tt
  head_owned p e es h (c ∷ cs) = (ground arith, head_owned p e es h cs)

  pub rows_owned :
      (i : ℕ) (rs : List Record) (cs : List Consumer)
      → All
          (λ o. any (at_position o.position) (event_rows clock m i rs) ≡ true)
          (obligation_rows m i rs cs)
  rows_owned i [] cs = tt
  rows_owned i (r ∷ rs) cs =
      All-append _ (map (obligation_row (m + i + 1)) cs) _
        (head_owned (m + i + 1) (event_row (clock i) (m + i + 1) r) (event_rows clock m (i + 1) rs)
          refl cs)
        (All-map (λ o h. ground (arith, h)) _ (rows_owned (i + 1) rs cs))

pub last-positions :
    (d m i : ℕ) (r : Record) (rs : List Record)
    → last_or d (positions m i (r ∷ rs)) ≡ m + i + length (r ∷ rs)
last-positions d m i r [] = omega arith
last-positions d m i r (s ∷ rs) = omega (arith, last-positions (m + i + 1) m (i + 1) s rs)

pub obligation_rows-nil : (m i : ℕ) (rs : List Record) → obligation_rows m i rs [] ≡ []
obligation_rows-nil m i [] = refl
obligation_rows-nil m i (r ∷ rs) = obligation_rows-nil m (i + 1) rs

-- What is dropped again when nobody consumes the batch.
pub drop_range :
    (first last : ℕ) (es : List Event)
    → All (λ e. e.position < first) es
    → filter (λ e. not (within first last e)) es ≡ es
drop_range first last [] h = refl
drop_range first last (e ∷ es) h = ground (arith, h.0, drop_range first last es h.1)

pub drop_rows :
    (first last : ℕ) (es : List Event)
    → All (λ e. first ≤ e.position) es
    → All (λ e. e.position ≤ last) es
    → filter (λ e. not (within first last e)) es ≡ []
drop_rows first last [] h k = refl
drop_rows first last (e ∷ es) h k = ground (arith, h.0, k.0, drop_rows first last es h.1 k.1)

abbrev pub subscribed : String → List Consumer → Bool
subscribed a = any (λ c. str_eq c.tailapp a)

pub Keyed-right : (xs ys : List Obligation) → Keyed (xs ++ ys) → Keyed ys
Keyed-right [] ys k = k
Keyed-right (x ∷ xs) ys k = Keyed-right xs ys k.1

All-left {ℓ κ} : {A : Type ℓ} (P : A → Type κ) (xs ys : List A) → All P (xs ++ ys) → All P xs
All-left P [] ys h = tt
All-left P (x ∷ xs) ys h = (h.0, All-left P xs ys h.1)

Keyed-left : (xs ys : List Obligation) → Keyed (xs ++ ys) → Keyed xs
Keyed-left [] ys k = tt
Keyed-left (x ∷ xs) ys k = (All-left _ xs ys k.0, Keyed-left xs ys k.1)

module _ (a : String) (p : ℕ) where
  owed_none :
      (c : Consumer)
      → str_eq c.tailapp a ≡ true
      → (cs : List Consumer) → All (λ x. has_key p c.tailapp x ≡ false) (map (obligation_row p) cs)
      → owed a (map (obligation_row p) cs) ≡ []
  owed_none c e [] h = refl
  owed_none c e (d ∷ cs) h = ground (
    arith,
    h.0,
    owed_none c e cs h.1,
    eq_iff c.tailapp a,
    eq_iff d.tailapp a,
    eq_iff d.tailapp c.tailapp,
  )

  -- A record is owed once to each consumer that was captured.
  owed-obligation_row :
      (cs : List Consumer)
      → Keyed (map (obligation_row p) cs)
      → owed a (map (obligation_row p) cs) ≡ (if subscribed a cs then p ∷ [] else [])
  owed-obligation_row [] k = refl
  owed-obligation_row (c ∷ cs) k = elim (Bool-cases (str_eq c.tailapp a)) [
    | inl hit ↦ rw (hit, owed_none c hit cs k.0)
    | inr miss ↦ rw miss (owed-obligation_row cs k.1)
  ]

pub owed-append :
    (a : String) (xs ys : List Obligation) → owed a (xs ++ ys) ≡ owed a xs ++ owed a ys
owed-append a xs ys =
    ap (map (λ o. o.position)) (filter-append (pending_of a) xs ys)
    ∙ map-append (λ o. o.position) (filter (pending_of a) xs) (filter (pending_of a) ys)

pub owed-obligation_rows :
    (a : String) (m i : ℕ) (rs : List Record) (cs : List Consumer)
    → Keyed (obligation_rows m i rs cs)
    → owed a (obligation_rows m i rs cs) ≡ (if subscribed a cs then positions m i rs else [])
owed-obligation_rows a m i [] cs k = ground arith
owed-obligation_rows a m i (r ∷ rs) cs k =
    let first =
      owed-obligation_row a (m + i + 1) cs (Keyed-left (map (obligation_row (m + i + 1)) cs) _ k) in
    let rest =
      owed-obligation_rows a m (i + 1) rs cs
        (Keyed-right (map (obligation_row (m + i + 1)) cs) _ k) in
    rw
      (
        owed-append a (map (obligation_row (m + i + 1)) cs) (obligation_rows m (i + 1) rs cs),
        first,
        rest,
      )
      (ground arith)

pub Ordered-append :
    (m : ℕ) (xs ys : List Obligation)
    → Ordered xs
    → Ordered ys
    → All (λ o. o.position ≤ m) xs
    → All (λ o. m ≤ o.position) ys
    → Ordered (xs ++ ys)
Ordered-append m [] ys ax ay bx by = ay
Ordered-append m (x ∷ xs) ys ax ay bx by = (
  All-append _ xs ys ax.0 (All-map (λ o h. omega (arith, bx.0)) ys by),
  Ordered-append m xs ys ax.1 ay bx.1 by,
)

pub same_position :
    (p : ℕ) (cs : List Consumer) → All (λ o. o.position ≡ p) (map (obligation_row p) cs)
same_position p [] = tt
same_position p (c ∷ cs) = (refl, same_position p cs)

row_Ordered : (p : ℕ) (cs : List Consumer) → Ordered (map (obligation_row p) cs)
row_Ordered p [] = tt
row_Ordered p (c ∷ cs) = (All-map (λ o h. omega arith) _ (same_position p cs), row_Ordered p cs)

pub obligations_above :
    (m i : ℕ) (rs : List Record) (cs : List Consumer)
    → All (λ o. m + i < o.position) (obligation_rows m i rs cs)
obligations_above m i [] cs = tt
obligations_above m i (r ∷ rs) cs =
    All-append _ (map (obligation_row (m + i + 1)) cs) _
      (All-map (λ o h. omega arith) _ (same_position (m + i + 1) cs))
      (All-map (λ o h. omega arith) _ (obligations_above m (i + 1) rs cs))

pub obligations_Ordered :
    (m i : ℕ) (rs : List Record) (cs : List Consumer) → Ordered (obligation_rows m i rs cs)
obligations_Ordered m i [] cs = tt
obligations_Ordered m i (r ∷ rs) cs =
    Ordered-append (m + i + 1) (map (obligation_row (m + i + 1)) cs) _ (row_Ordered (m + i + 1) cs)
      (obligations_Ordered m (i + 1) rs cs)
      (All-map (λ o h. omega arith) _ (same_position (m + i + 1) cs))
      (All-map (λ o h. omega arith) _ (obligations_above m (i + 1) rs cs))

-- An obligation stands at a position of some record.
pub owned_bounded :
    (m : ℕ) (es : List Event)
    → All (λ e. e.position ≤ m) es
    → (p : ℕ) → any (at_position p) es ≡ true
    → p ≤ m
owned_bounded m [] h p k = cc
owned_bounded m (e ∷ es) h p k = ground (arith, h.0, owned_bounded m es h.1 p)
