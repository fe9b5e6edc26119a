-- ===== src/Inbox/Fifo.antt =====
-- `Pending` serves what is outstanding, oldest first.
use tailapps.Prelude.{
  ℕ, zero, suc, ◌≤◌, ◌<◌, ◌≡◌, refl, ap, ◌∙◌, inl, inr, true, List, [], ◌∷◌, map, arith, String,
  filter, any, take, All, All-filter, All-map, Bool-cases,
}
use tailapps.Inbox.Tables.{Event, Obligation, Tables}
use tailapps.Inbox.Enqueue.{at_position}
use tailapps.Inbox.Settle.{pending_of}
use tailapps.Inbox.Pending.{insert_by_position, order_by_position, join_rows, pending_rows}
use tailapps.Inbox.WellFormed.{Ascending, Ordered, Ordered-filter, WellFormed}
use tailapps.Inbox.Outstanding.{outstanding}

map-take {ℓ κ} :
    {A : Type ℓ} {B : Type κ} (f : A → B) (n : ℕ) (xs : List A)
    → map f (take n xs) ≡ take n (map f xs)
map-take f zero xs = refl
map-take f (suc n) [] = refl
map-take f (suc n) (x ∷ xs) = ap (λ l. f x ∷ l) (map-take f n xs)

insert_first :
    (o : Obligation) (os : List Obligation)
    → All (λ x. o.position ≤ x.position) os
    → insert_by_position o os ≡ o ∷ os
insert_first o [] h = refl
insert_first o (x ∷ xs) h = ground (arith, h.0)

-- Rows that stand in order are not moved by ORDER BY.
order_by_position_lem : (os : List Obligation) → Ordered os → order_by_position os ≡ os
unfolding order_by_position
order_by_position_lem [] h = refl
order_by_position_lem (o ∷ os) h = rw (order_by_position_lem os h.1) (insert_first o os h.0)

none_at : (p : ℕ) (es : List Event) → All (λ x. p < x.position) es → filter (at_position p) es ≡ []
none_at p [] h = refl
none_at p (e ∷ es) h = ground (arith, h.0, none_at p es h.1)

-- The join finds exactly one record for an obligation.
one_at :
    (p : ℕ) (es : List Event)
    → Ascending es
    → any (at_position p) es ≡ true
    → (e : Event) × (filter (at_position p) es ≡ e ∷ []) × (e.position ≡ p)
one_at p [] a h = cc
one_at p (e ∷ es) a h = elim (Bool-cases (at_position p e)) [
  | inl here ↦
      let q : e.position ≡ p = ground arith in
      (e, rw (here, none_at p es (All-map (λ x l. omega arith) es a.0)), q)
  | inr later ↦ let (x, f, q) = one_at p es a.1 (ground arith) in (x, rw later f, q)
]

positions-join_rows :
    (es : List Event)
    → Ascending es
    → (os : List Obligation) → All (λ o. any (at_position o.position) es ≡ true) os
    → map (λ d. d.position) (join_rows es os) ≡ map (λ o. o.position) os
positions-join_rows es a [] h = refl
positions-join_rows es a (o ∷ os) h =
    let (e, f, q) = one_at o.position es a h.0 in
    rw f (ground (arith, positions-join_rows es a os h.1))

-- On well formed tables, the deliveries for a tailapp stand at the first positions that it owes.
pub pending_rows-outstanding :
    (t : Tables) (a : String) (n : ℕ)
    → WellFormed t
    → map (λ d. d.position) (pending_rows t a n) ≡ take n (outstanding a t)
unfolding pending_rows
pending_rows-outstanding t a n wf =
    let os = filter (pending_of a) t.obligations in
    rw (order_by_position_lem os (Ordered-filter (pending_of a) t.obligations wf.ordered)) (
      map-take (λ d. d.position) n (join_rows t.events os)
      ∙ ap (take n)
          (positions-join_rows t.events wf.ascending os (All-filter _ _ t.obligations wf.owned)))
