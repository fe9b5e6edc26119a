-- ===== src/Inbox/Admitted.antt =====
-- What the two loops of `Enqueue` insert.
use tailapps.Prelude.{
  ℕ, ◌+◌, ◌≡◌, refl, ap, sym, ◌∙◌, false, not, ◌||◌, List, [], ◌∷◌, ◌++◌, map, arith, Result, ok,
  >>=-eq-ok, guard-eq-ok, String, ◌>>=◌, any, All, All-append, str_eq, eq_iff,
}
use mathlib.Core.List.{append-nil, append_assoc}
use tailapps.Inbox.Tables.{Consumer, Record, Event, Obligation, Tables, Error, consumer_required}
use tailapps.Inbox.Enqueue.{
  has_key, event_row, obligation_row, insert_event, insert_obligation, capture, admit,
}
use tailapps.Inbox.WellFormed.{Keyed}

-- The rows of a batch, and their positions, which follow the delivery head.
abbrev pub positions : ℕ → ℕ → List Record → List ℕ
positions maximum index [] = []
positions maximum index (r ∷ rs) = (maximum + index + 1) ∷ positions maximum (index + 1) rs

abbrev pub event_rows : (ℕ → ℕ) → ℕ → ℕ → List Record → List Event
event_rows clock maximum index [] = []
event_rows clock maximum index (r ∷ rs) =
    event_row (clock index) (maximum + index + 1) r ∷ event_rows clock maximum (index + 1) rs

abbrev pub obligation_rows : ℕ → ℕ → List Record → List Consumer → List Obligation
obligation_rows maximum index [] cs = []
obligation_rows maximum index (r ∷ rs) cs =
    map (obligation_row (maximum + index + 1)) cs ++ obligation_rows maximum (index + 1) rs cs

insert_event_lem :
    (now p : ℕ) (r : Record) (t t' : Tables)
    → insert_event now p r t ≡ ok t'
    → t' ≡ record t { events = t.events ++ event_row now p r ∷ [] }
unfolding insert_event
insert_event_lem now p r t t' h = ground arith

pub insert_obligation_lem :
    (p : ℕ) (c : Consumer) (t t' : Tables)
    → insert_obligation p c t ≡ ok t'
    → (t' ≡ record t { obligations = t.obligations ++ obligation_row p c ∷ [] })
      × (any (has_key p c.tailapp) t.obligations ≡ false)
unfolding insert_obligation
insert_obligation_lem p c t t' h = ground arith

any-All :
    (p : ℕ) (a : String) (os : List Obligation)
    → any (has_key p a) os ≡ false
    → All (λ x. has_key p a x ≡ false) os
any-All p a [] h = tt
any-All p a (o ∷ os) h = (ground arith, any-All p a os (ground arith))

Keyed-snoc :
    (o : Obligation) (os : List Obligation)
    → any (has_key o.position o.tailapp) os ≡ false
    → Keyed os
    → Keyed (os ++ o ∷ [])
Keyed-snoc o [] h k = (tt, tt)
Keyed-snoc o (x ∷ xs) h k = (
  All-append _ xs (o ∷ []) k.0
      (ground (arith, eq_iff o.tailapp x.tailapp, eq_iff x.tailapp o.tailapp), tt),
  Keyed-snoc o xs (ground arith) k.1,
)

pub record Captured (t t' : Tables) (es : List Event) (os : List Obligation) : Type 0 where
  pub events : t'.events ≡ t.events ++ es
  pub obligations : t'.obligations ≡ t.obligations ++ os
  pub head : t'.delivery_head ≡ t.delivery_head
  pub queued_records : t'.queued_records ≡ t.queued_records
  pub queued_bytes : t'.queued_bytes ≡ t.queued_bytes
  pub keyed : Keyed t.obligations → Keyed t'.obligations

Captured-trans :
    {t u v : Tables} {es es' : List Event} {os os' : List Obligation}
    → Captured t u es os
    → Captured u v es' os'
    → Captured t v (es ++ es') (os ++ os')
Captured-trans {t} {es} {es'} {os} {os'} a b = record {
  events = b.events ∙ ap (λ l. l ++ es') a.events ∙ append_assoc t.events es es';
  obligations =
      b.obligations ∙ ap (λ l. l ++ os') a.obligations ∙ append_assoc t.obligations os os';
  head = b.head ∙ a.head;
  queued_records = b.queued_records ∙ a.queued_records;
  queued_bytes = b.queued_bytes ∙ a.queued_bytes;
  keyed = λ k. b.keyed (a.keyed k);
}

pub insert_event-Captured :
    (now p : ℕ) (r : Record) (t t' : Tables)
    → insert_event now p r t ≡ ok t'
    → Captured t t' (event_row now p r ∷ []) []
insert_event-Captured now p r t t' h = rw (insert_event_lem now p r t t' h) (record {
  events = refl;
  obligations = sym (append-nil t.obligations);
  head = refl;
  queued_records = refl;
  queued_bytes = refl;
  keyed = λ k. k;
})

pub insert_obligation-Captured :
    (p : ℕ) (c : Consumer) (t t' : Tables)
    → insert_obligation p c t ≡ ok t'
    → Captured t t' [] (obligation_row p c ∷ [])
insert_obligation-Captured p c t t' h =
    let (e, fresh) = insert_obligation_lem p c t t' h in
    rw e (record {
      events = sym (append-nil t.events);
      obligations = refl;
      head = refl;
      queued_records = refl;
      queued_bytes = refl;
      keyed = Keyed-snoc (obligation_row p c) t.obligations fresh;
    })

Captured-refl : (t : Tables) → Captured t t [] []
Captured-refl t = record {
  events = sym (append-nil t.events);
  obligations = sym (append-nil t.obligations);
  head = refl;
  queued_records = refl;
  queued_bytes = refl;
  keyed = λ k. k;
}

pub capture-Captured :
    (p : ℕ) (cs : List Consumer) (t t' : Tables)
    → capture p cs t ≡ ok t'
    → Captured t t' [] (map (obligation_row p) cs)
unfolding capture
capture-Captured p [] t t' h = let e : t ≡ t' = cc in rw (← e) (Captured-refl t)
capture-Captured p (c ∷ cs) t t' h =
    let (_, h₁) =
      guard-eq-ok (not (str_eq c.tailapp "" || str_eq c.revision "")) consumer_required
        (insert_obligation p c t >>= λ x. capture p cs x) h in
    let (t₁, h₂, h₃) = >>=-eq-ok (insert_obligation p c t) (λ x. capture p cs x) h₁ in
    Captured-trans (insert_obligation-Captured p c t t₁ h₂) (capture-Captured p cs t₁ t' h₃)

pub admit-Captured :
    (clock : ℕ → ℕ) (maximum index : ℕ) (rs : List Record) (cs : List Consumer) (t t' : Tables)
    (ps : List ℕ)
    → admit clock maximum index rs cs t ≡ ok (ps, t')
    → Captured t t' (event_rows clock maximum index rs) (obligation_rows maximum index rs cs)
      × (ps ≡ positions maximum index rs)
unfolding admit
admit-Captured clock maximum index [] cs t t' ps h =
    let e : t ≡ t' = cc in (rw (← e) (Captured-refl t), cc)
admit-Captured clock maximum index (r ∷ rs) cs t t' ps h =
    let p = maximum + index + 1 in
    let finish : List ℕ × Tables → Result Error (List ℕ × Tables) = λ out. ok (p ∷ out.0, out.1) in
    let rest : Tables → Result Error (List ℕ × Tables) =
      λ x. admit clock maximum (index + 1) rs cs x >>= finish in
    let (t₁, h₁, k₁) =
      >>=-eq-ok (insert_event (clock index) p r t) (λ x. capture p cs x >>= rest) h in
    let (t₂, h₂, k₂) = >>=-eq-ok (capture p cs t₁) rest k₁ in
    let (out, h₃, k₃) = >>=-eq-ok (admit clock maximum (index + 1) rs cs t₂) finish k₂ in
    let (c, e) = admit-Captured clock maximum (index + 1) rs cs t₂ out.1 out.0 h₃ in
    let e₁ : out.1 ≡ t' = cc in
    let e₀ : p ∷ out.0 ≡ ps = cc in
    (
      rw (← e₁) (
          Captured-trans (insert_event-Captured (clock index) p r t t₁ h₁)
            (Captured-trans (capture-Captured p cs t₁ t₂ h₂) c)),
      sym e₀ ∙ ap (λ l. p ∷ l) e,
    )
