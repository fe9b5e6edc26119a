-- ===== src/Inbox/Accepts.antt =====
-- `Enqueue` refuses a sound batch for want of room only.
use tailapps.Prelude.{
  ℕ, ◌+◌, ◌≤◌, ◌<◌, ◌≡◌, refl, ap, inl, inr, true, false, List, [], ◌∷◌, ◌++◌, map, arith, Result,
  ok, err, String, length, any, All, All-map, All-append, any-append, ◌==◌, str_eq, Bool-cases,
  if◌then◌else◌,
}
use tailapps.Inbox.Tables.{
  Consumer, Record, Event, Obligation, Tables, Queue, Error, full, is_signal,
}
use tailapps.Inbox.Enqueue.{
  at_position, has_key, event_row, obligation_row, insert_event, insert_obligation, capture,
  incoming, admit, account, fits, transaction, enqueue,
}
use tailapps.Inbox.WellFormed.{WellFormed}
use tailapps.Inbox.Admitted.{positions, capture-Captured}
use tailapps.Inbox.Batch.{weight, owned_bounded}
use tailapps.Inbox.Enqueued.{transaction-Enqueues}

-- What the database and the first loop ask of a record.
abbrev pub IsSound : Record → Type 0
IsSound r = (is_signal r.signal ≡ true) × ((length r.json == 0) ≡ false)

abbrev pub IsNamed : Consumer → Type 0
IsNamed c = (str_eq c.tailapp "" ≡ false) × (str_eq c.revision "" ≡ false)

abbrev pub Distinct : List Consumer → Type 0
Distinct [] = Unit
Distinct (c ∷ cs) = All (λ d. str_eq c.tailapp d.tailapp ≡ false) cs × Distinct cs

pub incoming_ok : (i : ℕ) (rs : List Record) → All IsSound rs → incoming i rs ≡ ok (weight rs)
unfolding incoming
incoming_ok i [] h = refl
incoming_ok i (r ∷ rs) h = rw (h.0.1, incoming_ok (i + 1) rs h.1)

insert_event_ok :
    (now p : ℕ) (r : Record) (t : Tables)
    → is_signal r.signal ≡ true
    → any (at_position p) t.events ≡ false
    → insert_event now p r t ≡ ok (record t { events = t.events ++ event_row now p r ∷ [] })
unfolding insert_event
insert_event_ok now p r t h k = rw (h, k)

-- Nobody holds a key at a position above all.
no_event :
    (p m : ℕ)
    → m < p
    → (es : List Event) → All (λ e. e.position ≤ m) es
    → any (at_position p) es ≡ false
no_event p m lt [] h = refl
no_event p m lt (e ∷ es) h = ground (arith, h.0, no_event p m lt es h.1)

no_obligation :
    (p m : ℕ) (a : String)
    → m < p
    → (os : List Obligation) → All (λ o. o.position ≤ m) os
    → any (has_key p a) os ≡ false
no_obligation p m a lt [] h = refl
no_obligation p m a lt (o ∷ os) h = ground (arith, h.0, no_obligation p m a lt os h.1)

abbrev Free : ℕ → List Consumer → List Obligation → Type 0
Free p cs os = All (λ c. any (has_key p c.tailapp) os ≡ false) cs

Free-snoc :
    (p : ℕ) (c : Consumer) (cs : List Consumer) (os : List Obligation)
    → All (λ d. str_eq c.tailapp d.tailapp ≡ false) cs
    → Free p cs os
    → Free p cs (os ++ obligation_row p c ∷ [])
Free-snoc p c [] os d f = tt
Free-snoc p c (k ∷ ks) os d f = (
  rw (any-append (has_key p k.tailapp) os (obligation_row p c ∷ [])) (ground (arith, d.0, f.0)),
  Free-snoc p c ks os d.1 f.1,
)

capture_ok :
    (p : ℕ) (cs : List Consumer) (t : Tables)
    → All IsNamed cs
    → Distinct cs
    → Free p cs t.obligations
    → (t' : Tables) × (capture p cs t ≡ ok t')
unfolding capture insert_obligation
capture_ok p [] t n d f = (t, refl)
capture_ok p (c ∷ cs) t n d f =
    let (t', e) =
      capture_ok p cs (record t { obligations = t.obligations ++ obligation_row p c ∷ [] }) n.1 d.1
        (Free-snoc p c cs t.obligations d.0 f.1) in
    (t', rw (n.0.0, n.0.1, f.0) e)

Free-above :
    (p m : ℕ)
    → m < p
    → (cs : List Consumer) (os : List Obligation) → All (λ o. o.position ≤ m) os
    → Free p cs os
Free-above p m lt [] os h = tt
Free-above p m lt (c ∷ cs) os h = (no_obligation p m c.tailapp lt os h, Free-above p m lt cs os h)

row_positions : (p : ℕ) (cs : List Consumer) → All (λ o. o.position ≤ p) (map (obligation_row p) cs)
row_positions p [] = tt
row_positions p (c ∷ cs) = (omega arith, row_positions p cs)

admit_ok :
    (clock : ℕ → ℕ) (m i : ℕ) (rs : List Record) (cs : List Consumer) (t : Tables)
    → All IsSound rs
    → All IsNamed cs
    → Distinct cs
    → All (λ e. e.position ≤ m + i) t.events
    → All (λ o. o.position ≤ m + i) t.obligations
    → (out : List ℕ × Tables) × (admit clock m i rs cs t ≡ ok out)
unfolding admit
admit_ok clock m i [] cs t s n d es os = (([], t), refl)
admit_ok clock m i (r ∷ rs) cs t s n d es os =
    let p = m + i + 1 in
    let t₁ : Tables = record t { events = t.events ++ event_row (clock i) p r ∷ [] } in
    let e₁ = insert_event_ok (clock i) p r t s.0.0 (no_event p (m + i) (omega arith) t.events es) in
    let (t₂, e₂) =
      capture_ok p cs t₁ n d (Free-above p (m + i) (omega arith) cs t.obligations os) in
    let c = capture-Captured p cs t₁ t₂ e₂ in
    let (out, e₃) =
      admit_ok clock m (i + 1) rs cs t₂ s.1 n d
        (rw c.events (
          All-append _ (t₁.events) []
            (All-append _ t.events _ (All-map (λ e h. omega arith) t.events es) (omega arith, tt))
            tt))
        (rw c.obligations (
          All-append _ t.obligations _ (All-map (λ o h. omega arith) t.obligations os)
            (All-map (λ o h. omega arith) _ (row_positions p cs)))) in
    ((p ∷ out.0, out.1), rw (e₁, e₂, e₃))

-- Enqueueing a sound batch for distinct named consumers either finds no room, or gives the
-- positions that follow the head.
pub enqueue-accepts :
    (clock : ℕ → ℕ) (q : Queue) (r : Record) (rs : List Record) (cs : List Consumer)
    → WellFormed q.tables
    → All IsSound (r ∷ rs)
    → All IsNamed cs
    → Distinct cs
    → (enqueue clock q (r ∷ rs) cs).1 ≡ (
        if fits q (length (r ∷ rs)) (weight (r ∷ rs))
        then ok (positions q.tables.delivery_head 0 (r ∷ rs))
        else err full)
unfolding enqueue
enqueue-accepts clock q r rs cs wf s n d =
    elim (Bool-cases (fits q (length (r ∷ rs)) (weight (r ∷ rs)))) [
      | inl room ↦
          let t = q.tables in
          let (out, e) =
            admit_ok clock t.delivery_head 0 (r ∷ rs) cs t s n d
              (All-map (λ e h. omega arith) t.events wf.bounded)
              (All-map
                (λ o h.
                  omega (arith, owned_bounded t.delivery_head t.events wf.bounded o.position h))
                t.obligations wf.owned) in
          let made : Result Error (List ℕ × Tables) =
            ok (out.0, account (length (r ∷ rs)) (weight (r ∷ rs)) out.0 cs out.1) in
          let run : transaction clock q (r ∷ rs) cs ≡ made =
            unfold transaction in rw (incoming_ok 0 (r ∷ rs) s, room, e) in
          let (_, same, _) = transaction-Enqueues clock q r rs cs out.0 _ wf run in
          rw (run, room) (ap ok same)
      | inr no_room ↦ unfold transaction in rw (incoming_ok 0 (r ∷ rs) s, no_room)
    ]
