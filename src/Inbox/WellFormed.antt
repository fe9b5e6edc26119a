-- ===== src/Inbox/WellFormed.antt =====
-- What holds of the queue's tables between two transactions, and the lemmas on deleting events.
use tailapps.Prelude.{
  ℕ, ◌≤◌, ◌<◌, ◌≡◌, refl, sym, ◌∙◌, inl, inr, Bool, true, false, not, ◌||◌, List, [], ◌∷◌, arith,
  length, filter, any, All, All-filter, length-filter, total-filter, ◌-◌, ok, any-filter, any-split,
  any-filter_none, Bool-cases,
}
use tailapps.Inbox.Tables.{Event, Obligation, Tables}
use tailapps.Inbox.Enqueue.{at_position, has_key}
use tailapps.Inbox.Settle.{pending_at, has_pending, bytes_of, delete_events, release}

-- The primary key of inbox_events, in the order of insertion.
abbrev pub Ascending : List Event → Type 0
Ascending [] = Unit
Ascending (e ∷ es) = All (λ x. e.position < x.position) es × Ascending es

-- The primary key (position, tailapp) of inbox_obligations.
abbrev pub Keyed : List Obligation → Type 0
Keyed [] = Unit
Keyed (o ∷ os) = All (λ x. has_key o.position o.tailapp x ≡ false) os × Keyed os

-- Obligations stand in the order in which their positions were assigned.
abbrev pub Ordered : List Obligation → Type 0
Ordered [] = Unit
Ordered (o ∷ os) = All (λ x. o.position ≤ x.position) os × Ordered os

-- The counters tell the rows, positions ascend to the head, every record is owed to somebody,
-- and every obligation has its record.
pub record WellFormed (t : Tables) : Type 0 where
  pub counted : t.queued_records ≡ length t.events
  pub weighed : t.queued_bytes ≡ bytes_of t.events
  pub bounded : All (λ e. e.position ≤ t.delivery_head) t.events
  pub ascending : Ascending t.events
  pub live : All (λ e. has_pending t.obligations e.position ≡ true) t.events
  pub keyed : Keyed t.obligations
  pub ordered : Ordered t.obligations
  pub owned : All (λ o. any (at_position o.position) t.events ≡ true) t.obligations

pub Ascending-filter : (p : Event → Bool) (es : List Event) → Ascending es → Ascending (filter p es)
Ascending-filter p [] h = tt
Ascending-filter p (e ∷ es) h = elim (Bool-cases (p e)) [
  | inl keep ↦ rw keep (All-filter _ p es h.0, Ascending-filter p es h.1)
  | inr drop ↦ rw drop (Ascending-filter p es h.1)
]

Keyed-filter : (p : Obligation → Bool) (os : List Obligation) → Keyed os → Keyed (filter p os)
Keyed-filter p [] h = tt
Keyed-filter p (o ∷ os) h = elim (Bool-cases (p o)) [
  | inl keep ↦ rw keep (All-filter _ p os h.0, Keyed-filter p os h.1)
  | inr drop ↦ rw drop (Keyed-filter p os h.1)
]

pub Ordered-filter :
    (p : Obligation → Bool) (os : List Obligation) → Ordered os → Ordered (filter p os)
Ordered-filter p [] h = tt
Ordered-filter p (o ∷ os) h = elim (Bool-cases (p o)) [
  | inl keep ↦ rw keep (All-filter _ p os h.0, Ordered-filter p os h.1)
  | inr drop ↦ rw drop (Ordered-filter p os h.1)
]

module _ (test : Event → Bool) (t : Tables)
    (idle : (e : Event) → test e ≡ true → has_pending t.obligations e.position ≡ false) where
  -- Deleting records that nobody waits for cascades to no pending obligation.
  pub gone_idle :
      (p : ℕ) (es : List Event)
      → any (at_position p) (filter test es) ≡ true
      → has_pending t.obligations p ≡ false
  gone_idle p [] h = cc
  gone_idle p (e ∷ es) h = ground (arith, gone_idle p es, idle e)

  pub has_pending-delete_events :
      (p : ℕ) → has_pending (delete_events test t).obligations p ≡ has_pending t.obligations p
  unfolding delete_events
  has_pending-delete_events p = elim (Bool-cases (any (at_position p) (filter test t.events))) [
    | inl gone ↦
        let idle_p = gone_idle p t.events gone in
        any-filter_none (pending_at p) _ t.obligations idle_p ∙ sym idle_p
    | inr kept ↦ any-filter (pending_at p) _ (λ o h. ground arith) t.obligations
  ]

  owned-delete_events :
      (os : List Obligation)
      → All (λ o. any (at_position o.position) t.events ≡ true) os
      → All
          (λ o. any (at_position o.position) (filter (λ e. not (test e)) t.events) ≡ true)
          (filter (λ o. not (any (at_position o.position) (filter test t.events))) os)
  owned-delete_events [] h = tt
  owned-delete_events (o ∷ os) h =
      elim (Bool-cases (any (at_position o.position) (filter test t.events))) [
        | inl gone ↦ rw gone (owned-delete_events os h.1)
        | inr kept ↦ rw kept (
          ground (arith, h.0, any-split (at_position o.position) test t.events),
          owned-delete_events os h.1,
        )
      ]

  live-delete_events :
      (es : List Event)
      → All (λ e. (test e || has_pending t.obligations e.position) ≡ true) es
      → All
          (λ e. has_pending (delete_events test t).obligations e.position ≡ true)
          (filter (λ e. not (test e)) es)
  live-delete_events [] h = tt
  live-delete_events (e ∷ es) h = elim (Bool-cases (test e)) [
    | inl gone ↦ rw gone (live-delete_events es h.1)
    | inr kept ↦
        rw kept
          (ground (arith, h.0, has_pending-delete_events e.position), live-delete_events es h.1)
  ]

  abbrev gone : List Event
  gone = filter test t.events

  -- Deleting what nobody waits for, and taking it off the counters.
  pub release-delete_events :
      t.queued_records ≡ length t.events
      → t.queued_bytes ≡ bytes_of t.events
      → All (λ e. e.position ≤ t.delivery_head) t.events
      → Ascending t.events
      → Keyed t.obligations
      → Ordered t.obligations
      → All (λ e. (test e || has_pending t.obligations e.position) ≡ true) t.events
      → All (λ o. any (at_position o.position) t.events ≡ true) t.obligations
      → (t' : Tables) × (release (length gone) (bytes_of gone) (delete_events test t) ≡ ok t')
        × WellFormed t'
        × (t'.delivery_head ≡ t.delivery_head)
        × ((t'.obligations ≡ (delete_events test t).obligations)
            × (t'.queued_records ≤ t.queued_records)
            × (t'.queued_bytes ≤ t.queued_bytes))
  unfolding release delete_events
  release-delete_events c w b a k r l o =
      let n = length-filter test t.events in
      let m = total-filter (λ e. e.canonical_bytes) test t.events in
      (
        record (delete_events test t) {
          queued_records = t.queued_records - length gone;
          queued_bytes = t.queued_bytes - bytes_of gone;
        },
        ground arith,
        record {
          counted = omega arith;
          weighed = omega arith;
          bounded = All-filter _ _ t.events b;
          ascending = Ascending-filter _ t.events a;
          keyed = Keyed-filter _ t.obligations k;
          ordered = Ordered-filter _ t.obligations r;
          live = live-delete_events t.events l;
          owned = owned-delete_events t.obligations o;
        },
        refl,
        (refl, omega arith, omega arith),
      )
