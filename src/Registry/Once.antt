-- ===== src/Registry/Once.antt =====
-- internal/definition/registry.go: what the idempotency ledger promises to its callers.
use tailapps.Prelude.{
  ℕ, ◌+◌, ◌≤◌, ◌≡◌, refl, ap, ◌∙◌, ◌⊎◌, String, Bool, true, false, ◌&&◌, Option, none, some, List,
  [], ◌∷◌, ◌++◌, map, Result, ok, err, str_eq, eq_iff, if◌then◌else◌, Option-cases, Bool-cases,
  arith, inl, inr, filter, length, ◌==◌, ◌>>=◌, ◌>>◌, guard,
}
use tailapps.Registry.Tables.{
  MutationRecord, Mutation, Registry, Error, Answer, idempotency_conflict,
}
use tailapps.Registry.Ledger.{
  find_mutation, replay_mutation, new_mutation, begin_mutation, answer_begin, is_open, is_complete,
  completed, complete_mutation,
}

-- A call of one of the two methods.
pub data Call : Type 0 where
  begin : String → String → String → Call
  finish : String → String → String → MutationRecord → Call

-- The registry after a BeginMutation, and whether its caller was told to act.
abbrev began : Registry → Answer (Option MutationRecord) → Registry × Bool
began r (ok (none, r')) = (r', true)
began r (ok (some stored, r')) = (r', false)
began r (err e) = (r, false)

abbrev finished : Registry → Answer (Unit {0}) → Registry
finished r (ok (done, r')) = r'
finished r (err e) = r

unfoldable pub perform : Registry → Call → Registry
perform r (begin k o d) = (began r (begin_mutation r k o d)).0
perform r (finish k o d answer) = finished r (complete_mutation r k o d answer)

unfoldable pub perform_all : Registry → List Call → Registry
perform_all r [] = r
perform_all r (c ∷ cs) = perform_all (perform r c) cs

-- Whether a call tells its caller to act on a key.
unfoldable pub tells : String → Registry → Call → Bool
tells key r (begin k o d) = str_eq k key && (began r (begin_mutation r k o d)).1
tells key r (finish k o d answer) = false

-- How often a sequence of calls tells its callers to act on a key.
unfoldable pub executions : String → Registry → List Call → ℕ
unfolding tells perform
executions key r [] = 0
executions key r (c ∷ cs) =
    let rest = executions key (perform r c) cs in if tells key r c then 1 + rest else rest

pub find-append :
    (k : String) (ms : List Mutation) (m x : Mutation)
    → find_mutation k ms ≡ some x
    → find_mutation k (ms ++ m ∷ []) ≡ some x
unfolding find_mutation
find-append k [] m x h = cc
find-append k (y ∷ ms) m x h = elim (Bool-cases (str_eq y.key k)) [
  | inl e ↦ rw e (ground (arith, e))
  | inr e ↦ rw e (find-append k ms m x (ground (arith, e)))
]

pub find-append_new :
    (k : String) (ms : List Mutation) (m : Mutation)
    → find_mutation k ms ≡ none
    → find_mutation k (ms ++ m ∷ []) ≡ (if str_eq m.key k then some m else none)
unfolding find_mutation
find-append_new k [] m h = refl
find-append_new k (y ∷ ms) m h = ground (arith, find-append_new k ms m)

-- What CompleteMutation does to a row.
abbrev pub settled : String → String → String → MutationRecord → Mutation → Mutation
settled k o d answer m = if is_open k o d m then completed answer m else m

pub settled-key :
    (k o d : String) (answer : MutationRecord) (m : Mutation) → (settled k o d answer m).key ≡ m.key
unfolding completed
settled-key k o d answer m = ground arith

pub find-map :
    (k' k o d : String) (answer : MutationRecord) (ms : List Mutation) (x : Mutation)
    → find_mutation k' ms ≡ some x
    → find_mutation k' (map (settled k o d answer) ms) ≡ some (settled k o d answer x)
unfolding find_mutation
find-map k' k o d answer [] x h = cc
find-map k' k o d answer (y ∷ ms) x h = elim (Bool-cases (str_eq y.key k')) [
  | inl e ↦ rw (settled-key k o d answer y, e) (let p : y ≡ x = ground (arith, e) in rw p refl)
  | inr e ↦ rw (settled-key k o d answer y, e) (find-map k' k o d answer ms x (ground (arith, e)))
]

began_replay :
    (r : Registry) (res : Result Error MutationRecord)
    → began r (res >>= λ stored. ok (some stored, r)) ≡ (r, false)
began_replay r (ok stored) = refl
began_replay r (err e) = refl

pub began_known :
    (r : Registry) (k o d : String) (m : Mutation)
    → find_mutation k r.mutations ≡ some m
    → began r (begin_mutation r k o d) ≡ (r, false)
unfolding begin_mutation answer_begin
began_known r k o d m h =
    ap (λ found. began r (answer_begin r k o d found)) h ∙ began_replay r (replay_mutation m o d)

began_new :
    (r : Registry) (k o d : String)
    → find_mutation k r.mutations ≡ none
    → began r (begin_mutation r k o d)
      ≡ (record r { mutations = r.mutations ++ new_mutation k o d ∷ [] }, true)
unfolding begin_mutation answer_begin
began_new r k o d h = ap (λ found. began r (answer_begin r k o d found)) h

pub perform_known :
    (r : Registry) (k o d : String) (m : Mutation)
    → find_mutation k r.mutations ≡ some m
    → perform r (begin k o d) ≡ r
unfolding perform
perform_known r k o d m h = ap (λ (a : Registry × Bool). a.0) (began_known r k o d m h)

pub perform_new :
    (r : Registry) (k o d : String)
    → find_mutation k r.mutations ≡ none
    → perform r (begin k o d) ≡ record r { mutations = r.mutations ++ new_mutation k o d ∷ [] }
unfolding perform
perform_new r k o d h = ap (λ (a : Registry × Bool). a.0) (began_new r k o d h)

conclude_cases :
    (r r' : Registry) (b : Bool)
    → (finished r (guard b idempotency_conflict >> ok (tt, r')) ≡ r)
      ⊎ (finished r (guard b idempotency_conflict >> ok (tt, r')) ≡ r')
conclude_cases r r' true = inr refl
conclude_cases r r' false = inl refl

pub perform_cases :
    (r : Registry) (k o d : String) (answer : MutationRecord)
    → (perform r (finish k o d answer) ≡ r)
      ⊎ (perform r (finish k o d answer)
          ≡ record r { mutations = map (settled k o d answer) r.mutations })
unfolding perform complete_mutation
perform_cases r k o d answer =
    conclude_cases r (record r { mutations = map (settled k o d answer) r.mutations })
      (length (filter (is_open k o d) r.mutations) == 1)

-- A row once written keeps its key, and what is complete stays as it is.
abbrev pub Keeps : String → Mutation → Registry → Type 0
Keeps k x r =
    (y : Mutation) × (find_mutation k r.mutations ≡ some y) × (is_complete x.state ≡ true → y ≡ x)

pub settled_complete :
    (k o d : String) (answer : MutationRecord) (x : Mutation)
    → is_complete x.state ≡ true
    → settled k o d answer x ≡ x
unfolding is_open
settled_complete k o d answer x h = ground (arith, h)

pub perform-Keeps :
    (k : String) (x : Mutation) (r : Registry) (c : Call)
    → find_mutation k r.mutations ≡ some x
    → Keeps k x (perform r c)
perform-Keeps k x r (begin k' o d) h = elim (Option-cases (find_mutation k' r.mutations)) [
  | inl e ↦
      rw (perform_new r k' o d e)
        (x, find-append k r.mutations (new_mutation k' o d) x h, λ c. refl)
  | inr (m, e) ↦ rw (perform_known r k' o d m e) (x, h, λ c. refl)
]
perform-Keeps k x r (finish k' o d answer) h = elim (perform_cases r k' o d answer) [
  | inl e ↦ rw e (x, h, λ c. refl)
  | inr e ↦ rw e (
    settled k' o d answer x,
    find-map k k' o d answer r.mutations x h,
    settled_complete k' o d answer x,
  )
]

tells_known :
    (key : String) (x : Mutation) (r : Registry) (c : Call)
    → find_mutation key r.mutations ≡ some x
    → tells key r c ≡ false
unfolding tells
tells_known key x r (begin k o d) h = elim (Bool-cases (str_eq k key)) [
  | inl e ↦
      let p : k ≡ key = ground (arith, e, eq_iff k key) in
      rw (began_known r k o d x (rw p h)) (ground arith)
  | inr e ↦ rw e refl
]
tells_known key x r (finish k o d answer) h = refl

executions-zero :
    (key : String) (x : Mutation) (r : Registry) (cs : List Call)
    → find_mutation key r.mutations ≡ some x
    → executions key r cs ≡ 0
unfolding executions
executions-zero key x r [] h = refl
executions-zero key x r (c ∷ cs) h =
    let (y, found, same) = perform-Keeps key x r c h in
    rw (tells_known key x r c h) (executions-zero key y (perform r c) cs found)

-- The ledger has a row with the key.
abbrev pub is_present : Option Mutation → Bool
is_present none = false
is_present (some m) = true

tells-held :
    (key : String) (r : Registry) (c : Call)
    → find_mutation key r.mutations ≡ none
    → tells key r c ≡ true
    → (x : Mutation) × (find_mutation key (perform r c).mutations ≡ some x)
unfolding tells new_mutation
tells-held key r (begin k o d) h told =
    let e : str_eq k key ≡ true = ground (arith, told) in
    let p : k ≡ key = ground (arith, e, eq_iff k key) in
    let none_k : find_mutation k r.mutations ≡ none = rw p h in
    (
      new_mutation k o d,
      rw (perform_new r k o d none_k) (
          find-append_new key r.mutations (new_mutation k o d) h
          ∙ ap (λ b. if b then some (new_mutation k o d) else none) e),
    )
tells-held key r (finish k o d answer) h told = cc

weaken : (n : ℕ) (b : Bool) → n ≤ (if b then 0 else 1) → n ≤ 1
weaken n b h = ground arith

executions-bound :
    (key : String) (r : Registry) (cs : List Call) (found : Option Mutation)
    → find_mutation key r.mutations ≡ found
    → executions key r cs ≤ (if is_present found then 0 else 1)
unfolding executions
executions-bound key r cs (some x) h = omega (arith, executions-zero key x r cs h)
executions-bound key r [] none h = omega arith
executions-bound key r (c ∷ cs) none h =
    let next = perform r c in
    elim (Bool-cases (tells key r c)) [
      | inl e ↦
          let (x, found) = tells-held key r c h e in
          rw e (omega (arith, executions-zero key x (perform r c) cs found))
      | inr e ↦ rw e (
          weaken (executions key (perform r c) cs) (is_present (find_mutation key next.mutations))
            (executions-bound key (perform r c) cs (find_mutation key next.mutations) refl))
    ]

-- Whatever calls are made in whatever order, at most one BeginMutation for a key tells its caller to
-- act, and none does where the ledger already holds the key.
pub executions-once :
    (key : String) (r : Registry) (cs : List Call)
    → executions key r cs ≤ (if is_present (find_mutation key r.mutations) then 0 else 1)
executions-once key r cs = executions-bound key r cs (find_mutation key r.mutations) refl
