-- ===== src/Engine/Waves.antt =====
-- internal/engine/engine.go: the selection of a wave.
use tailapps.Prelude.{
  ℕ, ◌≡◌, ◌≢◌, refl, ap, sym, ◌∙◌, inl, inr, String, Bool, true, false, ◌||◌, List, [], ◌∷◌, ◌++◌,
  map, any, ok, str_eq, eq_iff, ◌==◌, ltb, if◌then◌else◌, take, All, All-append, Bool-cases, arith,
}
use tailapps.Inbox.Tables.{Queue, Delivery}
use tailapps.Inbox.WellFormed.{WellFormed}
use tailapps.Inbox.Outstanding.{outstanding}
use tailapps.Inbox.Refinement.{pending-refines}
use tailapps.Engine.Drain.{Wave, reset_wave, join_wave, with_pending, select_wave}

-- The deliveries that were found: none, or the first that is owed.
abbrev pub Finds : Queue → String → List Delivery → Type 0
Finds q a [] = outstanding a q.tables ≡ []
Finds q a (d ∷ ds) = (rest : List ℕ) × (outstanding a q.tables ≡ d.position ∷ rest)

pub finds :
    (q : Queue) (a : String) (ds : List Delivery) (owed : List ℕ)
    → outstanding a q.tables ≡ owed
    → map (λ (d : Delivery). d.position) ds ≡ take 1 owed
    → Finds q a ds
finds q a [] [] e h = e
finds q a [] (p ∷ rest) e h = cc
finds q a (d ∷ ds) [] e h = cc
finds q a (d ∷ ds) (p ∷ rest) e h =
    let same : d.position ≡ p = cc in (rest, e ∙ ap (λ x. x ∷ rest) (sym same))

module _ (q : Queue) (wf : WellFormed q.tables) (active : List String) where
  -- An active name with its first delivery.
  pub record Due (item : String × Delivery) : Type 0 where
    pub is_active : any (λ n. str_eq n item.0) active ≡ true
    pub rest : List ℕ
    pub first : outstanding item.0 q.tables ≡ item.1.position ∷ rest

  -- As the loop begins, or with a delivery.
  abbrev Begun : Wave → Type 0
  Begun w = w.items ≡ [] → w.minimum ≡ 0

  append-nonempty : (xs : List (String × Delivery)) (x : String × Delivery) → xs ++ x ∷ [] ≢ []
  append-nonempty [] x e = cc
  append-nonempty (y ∷ ys) x e = cc

  item_of :
      (name : String) (d : Delivery)
      → any (λ n. str_eq n name) active ≡ true
      → Finds q name (d ∷ [])
      → Due (name, d)
  item_of name d e (rest, first) = record { is_active = e; rest = rest; first = first }

  join_wave-Due :
      (name : String) (d : Delivery) (w : Wave)
      → Due (name, d)
      → All Due w.items
      → All Due (join_wave name d w).items
  join_wave-Due name d w due all = elim (Bool-cases (d.position == w.minimum)) [
    | inl e ↦ rw e (All-append Due w.items ((name, d) ∷ []) all (due, tt))
    | inr e ↦ rw e all
  ]

  with_pending-Due :
      (name : String) (d : Delivery) (ds : List Delivery) (w : Wave)
      → Due (name, d)
      → All Due w.items
      → All Due (with_pending name (d ∷ ds) w).items
  with_pending-Due name d ds w due all =
      join_wave-Due name d (reset_wave d.position w) due
        (elim (Bool-cases (w.minimum == 0 || ltb d.position w.minimum)) [
          | inl e ↦ rw e tt
          | inr e ↦ rw e all
        ])

  join_by : (name : String) (d : Delivery) → Bool → Wave → Wave
  join_by name d b v = if b then record v { items = v.items ++ (name, d) ∷ [] } else v

  join_wave-nonempty :
      (name : String) (d : Delivery) (v : Wave)
      → (d.position == v.minimum) ≡ true
      → (join_wave name d v).items ≢ []
  unfolding join_by
  join_wave-nonempty name d v same e =
      append-nonempty v.items (name, d) (sym (ap (λ b. (join_by name d b v).items) same) ∙ e)

  join_wave-items :
      (name : String) (d : Delivery) (v : Wave) → (join_wave name d v).items ≡ [] → v.items ≡ []
  unfolding join_by
  join_wave-items name d v e = elim (Bool-cases (d.position == v.minimum)) [
    | inl same ↦ elim (join_wave-nonempty name d v same e) [ ]
    | inr other ↦ sym (ap (λ b. (join_by name d b v).items) other) ∙ e
  ]

  with_pending-nonempty :
      (name : String) (d : Delivery) (ds : List Delivery) (w : Wave)
      → Begun w
      → (with_pending name (d ∷ ds) w).items ≢ []
  with_pending-nonempty name d ds w begun e = by (w.minimum == 0 || ltb d.position w.minimum) refl e
    where
      by :
          (b : Bool)
          → (w.minimum == 0 || ltb d.position w.minimum) ≡ b
          → (join_wave name d (if b then record { minimum = d.position; items = [] } else w)).items
            ≢ []
      by true h k =
          join_wave-nonempty name d (record { minimum = d.position; items = [] }) (ground arith) k
      by false h k = let unset = begun (join_wave-items name d w k) in ground (arith, unset, h)

  -- What the selection over some of the names makes of a wave.
  pub record Selected (names : List String) (w w' : Wave) : Type 0 where
    pub due : All Due w'.items
    pub empty : w'.items ≡ [] → (w.items ≡ []) × All (λ n. outstanding n q.tables ≡ []) names

  with_pending-Selected :
      (name : String) (ds : List Delivery) (w : Wave)
      → any (λ n. str_eq n name) active ≡ true
      → Finds q name ds
      → Begun w
      → All Due w.items
      → Begun (with_pending name ds w) × Selected (name ∷ []) w (with_pending name ds w)
  with_pending-Selected name [] w e found begun all =
      (begun, record { due = all; empty = λ k. (k, (found, tt)) })
  with_pending-Selected name (d ∷ ds) w e found begun all =
      let never = with_pending-nonempty name d ds w begun in
      (
        (λ k. elim (never k) [ ]),
        record {
          due = with_pending-Due name d ds w (item_of name d e found) all;
          empty = λ k. elim (never k) [ ];
        },
      )

  -- On well formed tables the selection never fails: it gives a wave of first deliveries, which is
  -- empty only where nobody owes anything.
  pub select_wave-Selected :
      (names : List String) (w : Wave)
      → ((n : String) → any (λ m. str_eq m n) names ≡ true → any (λ m. str_eq m n) active ≡ true)
      → Begun w
      → All Due w.items
      → (w' : Wave) × (select_wave q names w ≡ ok w') × Selected names w w'
  unfolding select_wave
  select_wave-Selected [] w among begun all = (w, refl, record { due = all; empty = λ k. (k, tt) })
  select_wave-Selected (name ∷ names) w among begun all =
      let (ds, read, positions) = pending-refines q name 0 wf (omega arith) in
      let found = finds q name ds (outstanding name q.tables) refl positions in
      let here = among name (let same = (eq_iff name name).1 refl in ground (arith, same)) in
      let (next, step) = with_pending-Selected name ds w here found begun all in
      let (w', run, rest) =
        select_wave-Selected names (with_pending name ds w) (λ n e. among n (ground (arith, e)))
          next step.due in
      (
        w',
        rw read run,
        record {
          due = rest.due;
          empty = λ k.
              let later = rest.empty k in
              let first = step.empty later.0 in (first.0, (first.1.0, later.1));
        },
      )
