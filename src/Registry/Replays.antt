-- ===== src/Registry/Replays.antt =====
-- internal/definition/registry.go: a completed mutation is replayed for good.
use tailapps.Prelude.{
  ◌≡◌, refl, ap, sym, ◌∙◌, String, Bool, true, false, ◌&&◌, Option, none, some, List, [], ◌∷◌, ◌++◌,
  map, Result, ok, err, str_eq, eq_iff, if◌then◌else◌, Option-cases, Bool-cases, arith, inl, inr,
  filter, length, ◌==◌, guard-eq-ok, ==_iff, ◌>>=◌,
}
use tailapps.Registry.Tables.{
  MutationRecord, Mutation, Registry, Answer, Error, idempotency_conflict,
}
use tailapps.Registry.Ledger.{
  find_mutation, replay_mutation, new_mutation, begin_mutation, answer_begin, nullable_string,
  column, is_open, is_complete, completed, complete_mutation,
}
use tailapps.Registry.Once.{
  Call, begin, finish, perform, perform_all, find-append_new, settled, settled-key, find-map,
  perform-Keeps, perform_new, perform_known, perform_cases,
}

-- Keys are unique, as the primary key of the table makes them.
abbrev Keyed : List Mutation → Type 0
Keyed [] = Unit
Keyed (m ∷ ms) = (find_mutation m.key ms ≡ none) × Keyed ms

Keyed-append :
    (ms : List Mutation) (m : Mutation)
    → find_mutation m.key ms ≡ none
    → Keyed ms
    → Keyed (ms ++ m ∷ [])
unfolding find_mutation
Keyed-append [] m h k = (refl, tt)
Keyed-append (y ∷ ms) m h k = elim (Bool-cases (str_eq y.key m.key)) [
  | inl e ↦ let bad : some y ≡ none = ground (arith, e, h) in cc
  | inr e ↦
      let apart : str_eq m.key y.key ≡ false =
        ground (arith, e, eq_iff y.key m.key, eq_iff m.key y.key) in
      (
        find-append_new y.key ms m k.0 ∙ ap (λ b. if b then some m else none) apart,
        Keyed-append ms m (ground (arith, e, h)) k.1,
      )
]

find-map-none :
    (k' k o d : String) (answer : MutationRecord) (ms : List Mutation)
    → find_mutation k' ms ≡ none
    → find_mutation k' (map (settled k o d answer) ms) ≡ none
unfolding find_mutation
find-map-none k' k o d answer [] h = refl
find-map-none k' k o d answer (y ∷ ms) h = elim (Bool-cases (str_eq y.key k')) [
  | inl e ↦ let bad : some y ≡ none = ground (arith, e, h) in cc
  | inr e ↦
      rw (settled-key k o d answer y, e) (find-map-none k' k o d answer ms (ground (arith, e, h)))
]

Keyed-map :
    (k o d : String) (answer : MutationRecord) (ms : List Mutation)
    → Keyed ms
    → Keyed (map (settled k o d answer) ms)
Keyed-map k o d answer [] h = tt
Keyed-map k o d answer (m ∷ ms) h = (
  ap (λ key. find_mutation key (map (settled k o d answer) ms)) (settled-key k o d answer m)
      ∙ find-map-none m.key k o d answer ms h.0,
  Keyed-map k o d answer ms h.1,
)

perform-Keyed : (r : Registry) (c : Call) → Keyed r.mutations → Keyed (perform r c).mutations
perform-Keyed r (begin k o d) h = elim (Option-cases (find_mutation k r.mutations)) [
  | inl e ↦
      rw (perform_new r k o d e)
        (Keyed-append r.mutations (new_mutation k o d) (unfold new_mutation in e) h)
  | inr (m, e) ↦ rw (perform_known r k o d m e) h
]
perform-Keyed r (finish k o d answer) h = elim (perform_cases r k o d answer) [
  | inl e ↦ rw e h
  | inr e ↦ rw e (Keyed-map k o d answer r.mutations h)
]

perform_all-Keyed :
    (r : Registry) (cs : List Call) → Keyed r.mutations → Keyed (perform_all r cs).mutations
unfolding perform_all
perform_all-Keyed r [] h = h
perform_all-Keyed r (c ∷ cs) h = perform_all-Keyed (perform r c) cs (perform-Keyed r c h)

is_open-key : (k o d : String) (m : Mutation) → is_open k o d m ≡ true → str_eq m.key k ≡ true
unfolding is_open
is_open-key k o d m h = ground arith

other_key :
    (k : String) (m x : Mutation) (ms : List Mutation)
    → find_mutation m.key ms ≡ none
    → find_mutation k ms ≡ some x
    → str_eq m.key k ≡ false
other_key k m x ms h found = elim (Bool-cases (str_eq m.key k)) [
  | inl e ↦
      let p : m.key ≡ k = ground (arith, e, eq_iff m.key k) in
      let bad : none ≡ some x = sym h ∙ ap (λ key. find_mutation key ms) p ∙ found in cc
  | inr e ↦ e
]

-- The row that an UPDATE of CompleteMutation meets is the row of its key.
open_found :
    (k o d : String) (ms : List Mutation)
    → Keyed ms
    → length (filter (is_open k o d) ms) ≡ 1
    → (m : Mutation) × (find_mutation k ms ≡ some m) × (is_open k o d m ≡ true)
unfolding find_mutation
open_found k o d [] h one = let bad : ⊥ = omega (arith, one) in elim bad [ ]
open_found k o d (m ∷ ms) h one = elim (Bool-cases (is_open k o d m)) [
  | inl e ↦ (m, rw (is_open-key k o d m e) refl, e)
  | inr e ↦
      let rest : length (filter (is_open k o d) ms) ≡ 1 =
        ap (λ b. length (if b then m ∷ filter (is_open k o d) ms else filter (is_open k o d) ms))
          (sym e)
        ∙ one in
      let (x, found, opened) = open_found k o d ms h.1 rest in
      (x, rw (other_key k m x ms h.0 found) found, opened)
]

column-nullable : (s : String) → column (nullable_string s) ≡ s
unfolding nullable_string
column-nullable s = elim (Bool-cases (str_eq s "")) [
  | inl e ↦ rw e (ground (arith, e, eq_iff s ""))
  | inr e ↦ rw e refl
]

-- A complete row stays whatever calls follow.
perform_all-held :
    (k : String) (x : Mutation) (r : Registry) (cs : List Call)
    → is_complete x.state ≡ true
    → find_mutation k r.mutations ≡ some x
    → find_mutation k (perform_all r cs).mutations ≡ some x
unfolding perform_all
perform_all-held k x r [] c h = h
perform_all-held k x r (call ∷ cs) c h =
    let (y, found, same) = perform-Keeps k x r call h in
    perform_all-held k x (perform r call) cs c (found ∙ ap (λ m. some m) (same c))

replay_completed :
    (answer : MutationRecord) (m : Mutation) (o d : String)
    → replay_mutation (completed answer m) o d ≡ (
        if str_eq m.operation o && str_eq m.request_digest d
        then ok answer
        else err idempotency_conflict)
unfolding replay_mutation completed
replay_completed answer m o d =
    rw (column-nullable answer.error_code, column-nullable answer.error_message) (ground arith)

abbrev passed : Registry → Result Error MutationRecord → Answer (Option MutationRecord)
passed r res = res >>= λ stored. ok (some stored, r)

when :
    (b : Bool) (answer : MutationRecord) (r : Registry)
    → passed r (if b then ok answer else err idempotency_conflict)
      ≡ (if b then ok (some answer, r) else err idempotency_conflict)
when true answer r = refl
when false answer r = refl

open_is :
    (k o d : String) (m : Mutation)
    → is_open k o d m ≡ true
    → (m.operation ≡ o) × (m.request_digest ≡ d)
unfolding is_open
open_is k o d m h =
    (ground (arith, h, eq_iff m.operation o), ground (arith, h, eq_iff m.request_digest d))

-- The answer for a completed row.
answer_completed :
    (r : Registry) (answer : MutationRecord) (m : Mutation) (k o d o' d' : String)
    → m.operation ≡ o
    → m.request_digest ≡ d
    → answer_begin r k o' d' (some (completed answer m))
      ≡ (if str_eq o o' && str_eq d d' then ok (some answer, r) else err idempotency_conflict)
unfolding answer_begin
answer_completed r answer m k o d o' d' same_o same_d =
    ap (passed r) (replay_completed answer m o' d')
    ∙ rw (same_o, same_d) (when (str_eq o o' && str_eq d d') answer r)

-- In a registry that calls have brought about, a CompleteMutation that succeeds settles its key for
-- good: whatever calls follow, a BeginMutation with the same operation and request digest replays
-- exactly the recorded response, one with another operation or digest is a conflict, and neither
-- changes the registry.
pub begin_mutation-complete_mutation :
    (start : Registry) (before after : List Call) (k o d : String) (answer : MutationRecord)
    (r : Registry)
    → start.mutations ≡ []
    → complete_mutation (perform_all start before) k o d answer ≡ ok (tt, r)
    → (o' d' : String)
    → begin_mutation (perform_all r after) k o' d' ≡ (
        if str_eq o o' && str_eq d d'
        then ok (some answer, perform_all r after)
        else err idempotency_conflict)
unfolding complete_mutation begin_mutation
begin_mutation-complete_mutation start before after k o d answer r none_yet h o' d' =
    let s = perform_all start before in
    let test = is_open k o d in
    let keyed : Keyed s.mutations = perform_all-Keyed start before (rw none_yet tt) in
    let r' : Registry = record s { mutations = map (settled k o d answer) s.mutations } in
    let (one, same) =
      guard-eq-ok (length (filter test s.mutations) == 1) idempotency_conflict (ok (tt, r')) h in
    let (m, found, opened) =
      open_found k o d s.mutations keyed ((==_iff (length (filter test s.mutations)) 1).0 one) in
    let e : r' ≡ r = cc in
    let now : settled k o d answer m ≡ completed answer m =
      ap (λ b. if b then completed answer m else m) opened in
    let stored : find_mutation k r.mutations ≡ some (completed answer m) =
      ap (λ (q : Registry). find_mutation k q.mutations) (sym e)
      ∙ find-map k k o d answer s.mutations m found
      ∙ ap (λ row. some row) now in
    let (same_o, same_d) = open_is k o d m opened in
    let final = perform_all r after in
    ap (λ row. answer_begin final k o' d' row)
      (perform_all-held k (completed answer m) r after (unfold completed in refl) stored)
    ∙ answer_completed final answer m k o d o' d' same_o same_d
