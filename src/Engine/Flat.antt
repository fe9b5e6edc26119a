-- ===== src/Engine/Flat.antt =====
-- internal/engine/engine.go: a wave is flat, and takes the oldest deliveries first.
use tailapps.Prelude.{
  ℕ, ◌≤◌, ◌<◌, ◌≡◌, refl, ap, sym, ◌∙◌, inl, inr, String, Bool, true, false, ◌||◌, List, [], ◌∷◌,
  ◌++◌, any, any-append, append_assoc, append-nil, subst, ok, str_eq, eq_iff, ◌==◌, ltb,
  if◌then◌else◌, All, All-append, All-map, Bool-cases, arith,
}
use tailapps.Inbox.Tables.{Queue, Delivery}
use tailapps.Inbox.WellFormed.{WellFormed}
use tailapps.Inbox.Outstanding.{outstanding}
use tailapps.Inbox.Refinement.{pending-refines}
use tailapps.Engine.Drain.{Wave, no_wave, join_wave, with_pending, select_wave}
use tailapps.Engine.Waves.{Finds, finds}

-- Whether a wave has a delivery for a name.
abbrev pub takes : String → List (String × Delivery) → Bool
takes name items = any (λ (i : String × Delivery). str_eq i.0 name) items

module _ (q : Queue) where
  -- A name owes nothing, or nothing before the minimum, and is taken if it owes that.
  pub data Placed (w : Wave) (name : String) : Type 0 where
    owes_nothing : outstanding name q.tables ≡ [] → Placed w name
    owes_first :
        (p : ℕ) (rest : List ℕ)
        → outstanding name q.tables ≡ p ∷ rest
        → w.minimum ≤ p
        → (p ≡ w.minimum → takes name w.items ≡ true)
        → Placed w name

  -- All deliveries of a wave are at its minimum, and every name is placed; a wave that has a
  -- minimum has a positive one.
  pub record Flat (names : List String) (w : Wave) : Type 0 where
    pub level : All (λ (i : String × Delivery). i.1.position ≡ w.minimum) w.items
    pub placed : All (Placed w) names
    pub unset : w.minimum ≡ 0 → All (λ n. outstanding n q.tables ≡ []) names

  -- A name placed by the old minimum is placed by a smaller one.
  lowered :
      (p : ℕ) (w : Wave) (name : String)
      → (w.minimum ≡ 0 → outstanding name q.tables ≡ [])
      → (w.minimum == 0 || ltb p w.minimum) ≡ true
      → (items : List (String × Delivery)) → Placed w name
      → Placed (record { minimum = p; items = items }) name
  lowered p w name zero_case h items (owes_nothing e) = owes_nothing e
  lowered p w name zero_case h items (owes_first o rest e low taken) =
      elim (Bool-cases (w.minimum == 0)) [
        | inl z ↦ owes_nothing (zero_case (ground (arith, z)))
        | inr z ↦
            owes_first o rest e (ground (arith, z, h, low)) (λ k. ground (arith, z, h, low, k))
      ]

  -- Another delivery takes no name away.
  joined :
      (w : Wave) (item : String × Delivery) (name : String)
      → Placed w name
      → Placed (record w { items = w.items ++ item ∷ [] }) name
  joined w item name (owes_nothing e) = owes_nothing e
  joined w item name (owes_first o rest e low taken) = owes_first o rest e low (λ k.
      any-append (λ (i : String × Delivery). str_eq i.0 name) w.items (item ∷ [])
      ∙ ap (λ b. b || takes name (item ∷ [])) (taken k))

  -- The first delivery of a name is at a positive position.
  abbrev Counted : String → Type 0
  Counted name = (p : ℕ) (rest : List ℕ) → outstanding name q.tables ≡ p ∷ rest → 0 < p

  module _ (seen : List String) (name : String) (w : Wave) (flat : Flat seen w) where
    nothing_owed :
        {P : String → Type 0}
        → ((n : String) → outstanding n q.tables ≡ [] → P n)
        → w.minimum ≡ 0
        → All P seen
    nothing_owed f z = All-map f seen (flat.unset z)

    kept_all : outstanding name q.tables ≡ [] → Flat (seen ++ name ∷ []) w
    kept_all e = record {
      level = flat.level;
      placed = All-append (Placed w) seen (name ∷ []) flat.placed (owes_nothing e, tt);
      unset = λ z.
          All-append (λ n. outstanding n q.tables ≡ []) seen (name ∷ []) (flat.unset z) (e, tt);
    }

    module _ (d : Delivery) (rest : List ℕ) (e : outstanding name q.tables ≡ d.position ∷ rest)
        (positive : 0 < d.position) where
      taken_last : (items : List (String × Delivery)) → takes name (items ++ (name, d) ∷ []) ≡ true
      taken_last items =
          let same = (eq_iff name name).1 refl in
          any-append (λ (i : String × Delivery). str_eq i.0 name) items ((name, d) ∷ [])
          ∙ ground (arith, same)

      -- The name is the first, or owes less than the minimum.
      restart :
          (w.minimum == 0 || ltb d.position w.minimum) ≡ true
          → Flat (seen ++ name ∷ []) (record { minimum = d.position; items = (name, d) ∷ [] })
      restart h =
          let w' : Wave = record { minimum = d.position; items = (name, d) ∷ [] } in
          record {
            level = (refl, tt);
            placed =
                All-append (Placed w') seen (name ∷ [])
                  (elim (Bool-cases (w.minimum == 0)) [
                    | inl z ↦ nothing_owed (λ n k. owes_nothing k) (ground (arith, z))
                    | inr z ↦
                        All-map
                          (λ n k.
                            lowered d.position w n (λ u. ground (arith, z, u)) h ((name, d) ∷ []) k)
                          seen flat.placed
                  ])
                  (owes_first d.position rest e (omega arith) (λ k. taken_last []), tt);
            unset = λ z. ground (arith, z, positive);
          }

      -- It owes the minimum.
      extend :
          (w.minimum == 0 || ltb d.position w.minimum) ≡ false
          → (d.position == w.minimum) ≡ true
          → Flat (seen ++ name ∷ []) (record w { items = w.items ++ (name, d) ∷ [] })
      extend h k =
          let w' : Wave = record w { items = w.items ++ (name, d) ∷ [] } in
          record {
            level =
                All-append (λ (i : String × Delivery). i.1.position ≡ w.minimum) w.items
                  ((name, d) ∷ []) flat.level (ground (arith, k), tt);
            placed =
                All-append (Placed w') seen (name ∷ [])
                  (All-map (λ n. joined w (name, d) n) seen flat.placed)
                  (owes_first d.position rest e (ground (arith, h)) (λ u. taken_last w.items), tt);
            unset = λ z. ground (arith, z, h);
          }

      -- It owes later ones only.
      later :
          (w.minimum == 0 || ltb d.position w.minimum) ≡ false
          → (d.position == w.minimum) ≡ false
          → Flat (seen ++ name ∷ []) w
      later h k = record {
        level = flat.level;
        placed =
            All-append (Placed w) seen (name ∷ []) flat.placed
              (owes_first d.position rest e (ground (arith, h)) (λ u. ground (arith, k, u)), tt);
        unset = λ z. ground (arith, z, h);
      }

      with_first-Flat :
          (ds : List Delivery) → Flat (seen ++ name ∷ []) (with_pending name (d ∷ ds) w)
      with_first-Flat ds = by (w.minimum == 0 || ltb d.position w.minimum) refl
        where
          same :
              (b : Bool)
              → (w.minimum == 0 || ltb d.position w.minimum) ≡ false
              → (d.position == w.minimum) ≡ b
              → Flat
                  (seen ++ name ∷ [])
                  (if b then record w { items = w.items ++ (name, d) ∷ [] } else w)
          same true h k = extend h k
          same false h k = later h k

          by :
              (b : Bool)
              → (w.minimum == 0 || ltb d.position w.minimum) ≡ b
              → Flat
                  (seen ++ name ∷ [])
                  (join_wave name d (if b then record { minimum = d.position; items = [] } else w))
          by true h =
              let equal : (d.position == d.position) ≡ true = ground arith in rw equal (restart h)
          by false h = same (d.position == w.minimum) h refl

    with_pending-Flat :
        (ds : List Delivery)
        → Counted name
        → Finds q name ds
        → Flat (seen ++ name ∷ []) (with_pending name ds w)
    with_pending-Flat [] counted e = kept_all e
    with_pending-Flat (d ∷ ds) counted (rest, e) =
        with_first-Flat d rest e (counted d.position rest e) ds

-- The positions that the active names owe first are positive.
abbrev pub AllCounted : Queue → List String → Type 0
AllCounted q names = All (Counted q) names

module _ (q : Queue) (wf : WellFormed q.tables) where
  selects :
      (names seen : List String) (w : Wave)
      → AllCounted q names
      → Flat q seen w
      → (w' : Wave) × (select_wave q names w ≡ ok w') × Flat q (seen ++ names) w'
  unfolding select_wave
  selects [] seen w counted flat = (w, refl, subst (λ l. Flat q l w) (sym (append-nil seen)) flat)
  selects (name ∷ names) seen w counted flat =
      let (ds, read, positions) = pending-refines q name 0 wf (omega arith) in
      let found = finds q name ds (outstanding name q.tables) refl positions in
      let next = with_pending-Flat q seen name w flat ds counted.0 found in
      let (w', run, all) =
        selects names (seen ++ name ∷ []) (with_pending name ds w) counted.1 next in
      (w', rw read run, subst (λ l. Flat q l w') (append_assoc seen (name ∷ []) names) all)

  -- On well formed tables, where the positions that the names owe first are positive, the selection
  -- gives a wave in which all deliveries are at one position; no name owes an earlier one first, and
  -- each that owes this one first is taken.
  pub select_wave-Flat :
      (names : List String)
      → AllCounted q names
      → (w : Wave) × (select_wave q names no_wave ≡ ok w) × Flat q names w
  select_wave-Flat names counted =
      selects names [] no_wave counted (record { level = tt; placed = tt; unset = λ z. tt })
