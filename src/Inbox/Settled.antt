-- ===== src/Inbox/Settled.antt =====
-- `settle` and `DetachAll` keep the tables well formed, and fail in one case only.
use tailapps.Prelude.{
  ℕ, ◌≤◌, ◌<◌, ◌≡◌, ◌≢◌, refl, ap, sym, ◌∙◌, inl, inr, Bool, true, false, ◌||◌, List, [], ◌∷◌,
  arith, Option, none, some, ok, err, String, length, filter, any, All, All-map, ◌==◌, str_eq,
  eq_iff, Bool-cases, if◌then◌else◌,
}
use tailapps.Inbox.Tables.{
  Event, Obligation, Tables, State, is_pending, same_state, already, pending,
}
use tailapps.Inbox.Enqueue.{at_position, has_key}
use tailapps.Inbox.Settle.{
  has_pending, bytes_of, delete_events, release, update, selected, pending_of, settled_event,
  unwanted, collect, recheck, settle_tables, detach_tables, relinquished, state_of, null_if_empty,
}
use tailapps.Inbox.Outstanding.{
  owed, outstanding, without, outstanding-delete_events, owed-update-selected,
  owed-update-pending_of,
}
use tailapps.Inbox.WellFormed.{Ascending, Keyed, Ordered, WellFormed, release-delete_events}

module _ (test : Obligation → Bool) (state : State) (code : Option String) where
  pub owned-update :
      (es : List Event) (os : List Obligation)
      → All (λ o. any (at_position o.position) es ≡ true) os
      → All (λ o. any (at_position o.position) es ≡ true) (update test state code os)
  owned-update es [] h = tt
  owned-update es (o ∷ os) h = (ground (arith, h.0), owned-update es os h.1)

All-has_key-update :
    (test : Obligation → Bool) (state : State) (code : Option String) (p : ℕ) (a : String)
    (os : List Obligation)
    → All (λ x. has_key p a x ≡ false) os
    → All (λ x. has_key p a x ≡ false) (update test state code os)
All-has_key-update test state code p a [] h = tt
All-has_key-update test state code p a (o ∷ os) h =
    (ground (arith, h.0), All-has_key-update test state code p a os h.1)

-- An UPDATE of the state keeps the keys.
Keyed-update :
    (test : Obligation → Bool) (state : State) (code : Option String) (os : List Obligation)
    → Keyed os
    → Keyed (update test state code os)
Keyed-update test state code [] h = tt
Keyed-update test state code (o ∷ os) h = elim (Bool-cases (test o)) [
  | inl hit ↦ rw hit (
    All-has_key-update test state code o.position o.tailapp os h.0,
    Keyed-update test state code os h.1,
  )
  | inr miss ↦ rw miss (
    All-has_key-update test state code o.position o.tailapp os h.0,
    Keyed-update test state code os h.1,
  )
]

All-le-update :
    (test : Obligation → Bool) (state : State) (code : Option String) (p : ℕ) (os : List Obligation)
    → All (λ x. p ≤ x.position) os
    → All (λ x. p ≤ x.position) (update test state code os)
All-le-update test state code p [] h = tt
All-le-update test state code p (o ∷ os) h =
    (ground (arith, h.0), All-le-update test state code p os h.1)

Ordered-update :
    (test : Obligation → Bool) (state : State) (code : Option String) (os : List Obligation)
    → Ordered os
    → Ordered (update test state code os)
Ordered-update test state code [] h = tt
Ordered-update test state code (o ∷ os) h = elim (Bool-cases (test o)) [
  | inl hit ↦
      rw hit
        (All-le-update test state code o.position os h.0, Ordered-update test state code os h.1)
  | inr miss ↦
      rw miss
        (All-le-update test state code o.position os h.0, Ordered-update test state code os h.1)
]

module _ (position : ℕ) (tailapp : String) (state : State) (code : Option String) where
  -- Settling one position keeps the pending rows of the others.
  has_pending-update_other :
      (p : ℕ) (os : List Obligation)
      → (p == position) ≡ false
      → has_pending (update (selected position tailapp) state code os) p ≡ has_pending os p
  has_pending-update_other p [] ne = refl
  has_pending-update_other p (o ∷ os) ne = ground (arith, has_pending-update_other p os ne)

module _ (position : ℕ) (t : Tables) where
  abbrev gone : List Event
  gone = filter (settled_event t.obligations position) t.events

  none_above :
      (es : List Event)
      → All (λ x. position < x.position) es
      → filter (settled_event t.obligations position) es ≡ []
  none_above [] h = refl
  none_above (e ∷ es) h = ground (arith, h.0, none_above es h.1)

  above :
      (p : ℕ)
      → p ≡ position
      → (es : List Event) → All (λ x. p < x.position) es
      → All (λ x. position < x.position) es
  above p e [] h = tt
  above p e (x ∷ xs) h = (omega arith, above p e xs h.1)

  -- A position belongs to one record at most.
  gone_unique :
      (es : List Event)
      → Ascending es
      → length (filter (settled_event t.obligations position) es) ≤ 1
  gone_unique [] h = omega arith
  gone_unique (e ∷ es) h = elim (Bool-cases (settled_event t.obligations position e)) [
    | inl found ↦ rw (found, none_above es (above e.position (ground arith) es h.0)) (omega arith)
    | inr other ↦ rw other (gone_unique es h.1)
  ]

release_gone :
    (g : List Event) (t : Tables)
    → length g ≤ 1
    → (if length g == 0 then ok t else release 1 (bytes_of g) t) ≡ release (length g) (bytes_of g) t
unfolding release
release_gone [] t h = ground arith
release_gone (e ∷ []) t h = ground arith
release_gone (e ∷ f ∷ g) t h = absurd (omega arith)

module _ (position : ℕ) (t : Tables) (counted : t.queued_records ≡ length t.events)
    (weighed : t.queued_bytes ≡ bytes_of t.events)
    (bounded : All (λ e. e.position ≤ t.delivery_head) t.events) (ascending : Ascending t.events)
    (keyed : Keyed t.obligations) (ordered : Ordered t.obligations)
    (others : All
      (λ e. (e.position == position || has_pending t.obligations e.position) ≡ true)
      t.events)
    (owned : All (λ o. any (at_position o.position) t.events ≡ true) t.obligations) where
  -- Collecting one position restores the invariant at that position.
  collect_lem :
      (t' : Tables) × (collect position t ≡ ok t')
      × WellFormed t'
      × (t'.delivery_head ≡ t.delivery_head)
      × ((t'.obligations ≡ (delete_events (settled_event t.obligations position) t).obligations)
          × (t'.queued_records ≤ t.queued_records)
          × (t'.queued_bytes ≤ t.queued_bytes))
  unfolding collect
  collect_lem =
      let (t', e, wf, head, os) =
        release-delete_events (settled_event t.obligations position) t (λ e h. ground arith) counted
          weighed bounded ascending keyed ordered (All-map (λ e h. ground arith) t.events others)
          owned in
      (t', release_gone _ _ (gone_unique position t t.events ascending) ∙ e, wf, head, os)

module _ (position : ℕ) (tailapp : String) where
  not_selected :
      (os : List Obligation)
      → All (λ x. has_key position tailapp x ≡ false) os
      → any (selected position tailapp) os ≡ false
  not_selected [] h = refl
  not_selected (o ∷ os) h = ground (arith, h.0, not_selected os h.1)

  same_key :
      (o : Obligation)
      → has_key position tailapp o ≡ true
      → (os : List Obligation) → All (λ x. has_key o.position o.tailapp x ≡ false) os
      → All (λ x. has_key position tailapp x ≡ false) os
  same_key o e = All-map (λ x h. ground (arith, eq_iff o.tailapp tailapp))

  -- The UPDATE finds a row exactly when the row of that key is pending.
  state_of-pending :
      (os : List Obligation)
      → Keyed os
      → any (selected position tailapp) os ≡ true
      → state_of position tailapp os ≡ some pending
  state_of-pending [] k h = cc
  state_of-pending (o ∷ os) k h = elim (Bool-cases (has_key position tailapp o)) [
    | inl here ↦ ground (arith, not_selected os (same_key o here os k.0))
    | inr later ↦ ground (arith, state_of-pending os k.1)
  ]

  state_of-settled :
      (os : List Obligation)
      → any (selected position tailapp) os ≡ false
      → state_of position tailapp os ≢ some pending
  state_of-settled [] h e = cc
  state_of-settled (o ∷ os) h e = ground (arith, state_of-settled os)

-- The settled state, other than the new one, in which an obligation is already.
abbrev pub conflict : State → Option State → Option State
conflict state none = none
conflict state (some current) =
    if is_pending current then none else if same_state current state then none else some current

-- What a transaction that settles gives: the tables stay well formed, nothing is admitted, and the
-- tailapp owes the position no more.
pub record Settles (t t' : Tables) (owed' : String → List ℕ) : Type 0 where
  pub formed : WellFormed t'
  pub head : t'.delivery_head ≡ t.delivery_head
  pub owing : (a : String) → outstanding a t' ≡ owed' a
  pub records : t'.queued_records ≤ t.queued_records
  pub bytes : t'.queued_bytes ≤ t.queued_bytes

abbrev pub owed_without : String → ℕ → Tables → String → List ℕ
owed_without tailapp position t a =
    if str_eq a tailapp then without position (outstanding a t) else outstanding a t

module _ (tailapp : String) (position : ℕ) (state : State) (code : String) (t : Tables)
    (settled : is_pending state ≡ false) (wf : WellFormed t) where
  abbrev updated : Tables
  updated = record t {
    obligations = update (selected position tailapp) state (null_if_empty code) t.obligations;
  }

  others-updated :
      (es : List Event)
      → All (λ e. has_pending t.obligations e.position ≡ true) es
      → All (λ e. (e.position == position || has_pending updated.obligations e.position) ≡ true) es
  others-updated [] h = tt
  others-updated (e ∷ es) h = (
    ground (
      arith,
      h.0,
      has_pending-update_other position tailapp state (null_if_empty code) e.position t.obligations,
    ),
    others-updated es h.1,
  )

  settle_pending :
      (t' : Tables) × (collect position updated ≡ ok t')
      × Settles t t' (owed_without tailapp position t)
  settle_pending =
      let (t', e, wf', head, os) =
        collect_lem position updated wf.counted wf.weighed wf.bounded wf.ascending
          (Keyed-update _ _ _ t.obligations wf.keyed)
          (Ordered-update _ _ _ t.obligations wf.ordered) (others-updated t.events wf.live)
          (owned-update _ _ _ t.events t.obligations wf.owned) in
      (
        t',
        e,
        record {
          formed = wf';
          head = head;
          records = os.1;
          bytes = os.2;
          owing = λ a.
              ap (owed a) os.0
              ∙ outstanding-delete_events (settled_event updated.obligations position) updated
                  (λ e h. ground arith) a
              ∙ owed-update-selected state (null_if_empty code) settled a position tailapp
                  t.obligations;
        },
      )

  -- Where no pending row has the key, the position is not outstanding.
  not_owed :
      (os : List Obligation)
      → any (selected position tailapp) os ≡ false
      → without position (owed tailapp os) ≡ owed tailapp os
  not_owed [] h = refl
  not_owed (o ∷ os) h = ground (arith, not_owed os)

  owed_same :
      any (selected position tailapp) t.obligations ≡ false
      → (a : String) → outstanding a t ≡ owed_without tailapp position t a
  owed_same h a = elim (Bool-cases (str_eq a tailapp)) [
    | inl same ↦ rw (same, (eq_iff a tailapp).0 same) (sym (not_owed t.obligations h))
    | inr other ↦ rw other
  ]

  settle_again :
      any (selected position tailapp) t.obligations ≡ false
      → (t' : Tables) × (collect position t ≡ ok t')
        × Settles t t' (owed_without tailapp position t)
  settle_again h =
      let (t', e, wf', head, os) =
        collect_lem position t wf.counted wf.weighed wf.bounded wf.ascending wf.keyed wf.ordered
          (All-map (λ e l. ground arith) t.events wf.live) wf.owned in
      (
        t',
        e,
        record {
          formed = wf';
          head = head;
          records = os.1;
          bytes = os.2;
          owing = λ a.
              ap (owed a) os.0
              ∙ outstanding-delete_events (settled_event t.obligations position) t
                  (λ e h. ground arith) a
              ∙ owed_same h a;
        },
      )

  abbrev found : Option State
  found = state_of position tailapp t.obligations

  recheck_lem :
      any (selected position tailapp) t.obligations ≡ false
      → (o : Option State) → o ≢ some pending
      → conflict state o ≡ none
      → (t' : Tables) × (recheck state position t o ≡ ok t')
        × Settles t t' (owed_without tailapp position t)
  unfolding recheck
  recheck_lem h none p c = (
    t,
    refl,
    record {
      formed = wf;
      head = refl;
      records = omega arith;
      bytes = omega arith;
      owing = owed_same h;
    },
  )
  recheck_lem h (some current) p c = let (t', e, s) = settle_again h in (t', ground arith, s)

  -- Without a conflict the transaction succeeds.
  pub settle_tables_ok :
      conflict state found ≡ none
      → (t' : Tables) × (settle_tables tailapp position state code t ≡ ok t')
        × Settles t t' (owed_without tailapp position t)
  unfolding settle_tables
  settle_tables_ok c = elim (Bool-cases (any (selected position tailapp) t.obligations)) [
    | inl hit ↦ rw hit settle_pending
    | inr miss ↦
        rw miss (recheck_lem miss found (state_of-settled position tailapp t.obligations miss) c)
  ]

  -- With one it fails, and says in which state the obligation is.
  pub settle_tables-conflict :
      (other : State)
      → conflict state found ≡ some other
      → settle_tables tailapp position state code t ≡ err (already other)
  unfolding settle_tables recheck
  settle_tables-conflict other c =
      ground (arith, state_of-pending position tailapp t.obligations wf.keyed)

-- `DetachAll` always succeeds on well formed tables.
module _ (tailapp code : String) (t : Tables) (wf : WellFormed t) where
  abbrev left : Tables
  left = relinquished tailapp code t

  abbrev owed_to_others : String → List ℕ
  owed_to_others a = if str_eq a tailapp then [] else outstanding a t

  pub detach_tables_ok :
      (t' : Tables) × (detach_tables tailapp code t
        ≡ ok (length (filter (pending_of tailapp) t.obligations), t'))
      × Settles t t' owed_to_others
  unfolding detach_tables
  detach_tables_ok =
      let (t', e, wf', head, os) =
        release-delete_events (unwanted left.obligations) left (λ e h. ground arith) wf.counted
          wf.weighed wf.bounded wf.ascending (Keyed-update _ _ _ t.obligations wf.keyed)
          (Ordered-update _ _ _ t.obligations wf.ordered)
          (All-map (λ e h. ground arith) t.events wf.bounded)
          (owned-update _ _ _ t.events t.obligations wf.owned) in
      (
        t',
        rw e,
        record {
          formed = wf';
          head = head;
          records = os.1;
          bytes = os.2;
          owing = λ a.
              ap (owed a) os.0
              ∙ outstanding-delete_events (unwanted left.obligations) left (λ e h. ground arith) a
              ∙ owed-update-pending_of State.detached (some code) refl a tailapp t.obligations;
        },
      )
