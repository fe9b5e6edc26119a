-- ===== src/Inbox/Outstanding.antt =====
-- The abstract view of the queue: for each tailapp, the positions that it still owes an answer, in
-- order. Obligation rows, revisions, counters and record contents are forgotten.
use tailapps.Prelude.{
  ℕ, ◌≡◌, refl, ap, inl, inr, Bool, true, false, not, List, [], ◌∷◌, map, arith, String, Option,
  filter, any, All, All-map, ◌==◌, str_eq, eq_iff, Bool-cases, if◌then◌else◌,
}
use tailapps.Inbox.Tables.{Event, Obligation, Tables, State, is_pending}
use tailapps.Inbox.Enqueue.{at_position}
use tailapps.Inbox.Settle.{has_pending, delete_events, update, selected, pending_of}
use tailapps.Inbox.WellFormed.{gone_idle}

abbrev pub owed : String → List Obligation → List ℕ
owed a os = map (λ o. o.position) (filter (pending_of a) os)

abbrev pub outstanding : String → Tables → List ℕ
outstanding a t = owed a t.obligations

abbrev pub without : ℕ → List ℕ → List ℕ
without p = filter (λ x. not (x == p))

-- Every pending row is found by a search for its position.
present :
    (os : List Obligation)
    → All (λ o. is_pending o.state ≡ true → has_pending os o.position ≡ true) os
present [] = tt
present (o ∷ os) = (λ h. ground arith, All-map (λ x h p. ground (arith, h p)) os (present os))

module _ (test : Event → Bool) (t : Tables)
    (idle : (e : Event) → test e ≡ true → has_pending t.obligations e.position ≡ false) where
  kept :
      (a : String) (os : List Obligation)
      → All (λ o. is_pending o.state ≡ true → has_pending t.obligations o.position ≡ true) os
      → filter
          (pending_of a)
          (filter (λ o. not (any (at_position o.position) (filter test t.events))) os)
        ≡ filter (pending_of a) os
  kept a [] h = refl
  kept a (o ∷ os) h = ground (arith, kept a os h.1, h.0, gone_idle test t idle o.position t.events)

  -- Deleting records that nobody waits for takes nothing from what is outstanding.
  pub outstanding-delete_events :
      (a : String) → outstanding a (delete_events test t) ≡ outstanding a t
  unfolding delete_events
  outstanding-delete_events a =
      ap (map (λ o. o.position)) (kept a t.obligations (present t.obligations))

not_both :
    (a b : String) → str_eq a b ≡ false → (x : String) → str_eq x b ≡ true → str_eq x a ≡ false
not_both a b h x e = ground (arith, eq_iff a b, eq_iff x b, eq_iff x a)

module _ (state : State) (code : Option String) (settled : is_pending state ≡ false) where
  -- Rows of other tailapps are not touched.
  owed-update_other :
      (a : String) (test : Obligation → Bool)
      → ((o : Obligation) → test o ≡ true → pending_of a o ≡ false)
      → (os : List Obligation) → owed a (update test state code os) ≡ owed a os
  owed-update_other a test other [] = refl
  owed-update_other a test other (o ∷ os) = elim (Bool-cases (test o)) [
    | inl hit ↦ rw (hit, settled, other o hit) (ground (arith, owed-update_other a test other os))
    | inr miss ↦ rw miss (ground (arith, owed-update_other a test other os))
  ]

  owed-update_self :
      (position : ℕ) (tailapp : String) (os : List Obligation)
      → owed tailapp (update (selected position tailapp) state code os)
        ≡ without position (owed tailapp os)
  owed-update_self position tailapp [] = refl
  owed-update_self position tailapp (o ∷ os) = ground (arith, owed-update_self position tailapp os)

  owed-update_all :
      (tailapp : String) (os : List Obligation)
      → owed tailapp (update (pending_of tailapp) state code os) ≡ []
  owed-update_all tailapp [] = refl
  owed-update_all tailapp (o ∷ os) = ground (arith, owed-update_all tailapp os)

  -- The effect of the two UPDATE statements on every tailapp.
  pub owed-update-selected :
      (a : String) (position : ℕ) (tailapp : String) (os : List Obligation)
      → owed a (update (selected position tailapp) state code os)
        ≡ (if str_eq a tailapp then without position (owed a os) else owed a os)
  owed-update-selected a position tailapp os = elim (Bool-cases (str_eq a tailapp)) [
    | inl same ↦ rw (same, (eq_iff a tailapp).0 same) (owed-update_self position tailapp os)
    | inr other ↦ rw other (
        owed-update_other a (selected position tailapp)
          (λ o h. ground (arith, not_both a tailapp other o.tailapp)) os)
  ]

  pub owed-update-pending_of :
      (a : String) (tailapp : String) (os : List Obligation)
      → owed a (update (pending_of tailapp) state code os)
        ≡ (if str_eq a tailapp then [] else owed a os)
  owed-update-pending_of a tailapp os = elim (Bool-cases (str_eq a tailapp)) [
    | inl same ↦ rw (same, (eq_iff a tailapp).0 same) (owed-update_all tailapp os)
    | inr other ↦ rw other (
        owed-update_other a (pending_of tailapp)
          (λ o h. ground (arith, not_both a tailapp other o.tailapp)) os)
  ]
