-- ===== src/Engine/Accept.antt =====
-- internal/engine/engine.go: consumersLocked and accept.
use tailapps.Prelude.{
  ℕ, ◌+◌, ◌*◌, ◌++◌, length, str_eq, String, Bool, ◌&&◌, Option, none, some, List, [], ◌∷◌, Result,
  ok, err, str_ltb, if◌then◌else◌,
}
use tailapps.Inbox.Tables.{Consumer, Record, Queue, Error}
use tailapps.Inbox.Enqueue.{enqueue}

-- What the engine reads of an active projection: its profile's revision, and of its frontier whether
-- it is complete and where it has a gap.
pub record Active : Type 0 where
  pub name : String
  pub revision : String
  pub complete : Bool
  pub gap_position : Option ℕ

-- The arguments of a call of the metrics' ObserveRouting.
pub record Observation : Type 0 where
  pub records_by_signal : List (String × ℕ)
  pub obligations : ℕ

-- The entries of `active`, the names in `upgradePending`, and the calls of ObserveRouting so far.
pub record Engine : Type 0 where
  pub queue : Queue
  pub active : List Active
  pub upgrade_pending : List String
  pub observations : List Observation

pub data AcceptError : Type 0 where
  not_ready : AcceptError
  refused : Error → AcceptError

-- The range over `sortedProjectionKeys(e.active)`.
unfoldable pub insert_active : Active → List Active → List Active
insert_active a [] = a ∷ []
insert_active a (x ∷ xs) =
    let rest = insert_active a xs in if str_ltb x.name a.name then x ∷ rest else a ∷ x ∷ xs

unfoldable pub sort_active : List Active → List Active
sort_active [] = []
sort_active (a ∷ rest) = insert_active a (sort_active rest)

abbrev is_none : Option ℕ → Bool
is_none none = Bool.true
is_none (some p) = Bool.false

abbrev pub is_healthy : Active → Bool
is_healthy a = a.complete && is_none a.gap_position

unfoldable pub capture_active : List Active → List Consumer
capture_active [] = []
capture_active (a ∷ rest) =
    let later = capture_active rest in
    if is_healthy a then record { tailapp = a.name; revision = a.revision } ∷ later else later

abbrev pub captured : Engine → List String → Result AcceptError (List Consumer)
captured e [] = ok (capture_active (sort_active e.active))
captured e (name ∷ names) = err not_ready

unfoldable pub consumers_locked : Engine → Result AcceptError (List Consumer)
consumers_locked e = captured e e.upgrade_pending

-- `recordsBySignal[signal]++`
unfoldable pub count_signal : String → List (String × ℕ) → List (String × ℕ)
count_signal signal [] = (signal, 1) ∷ []
count_signal signal ((s, n) ∷ rest) =
    let later = count_signal signal rest in
    if str_eq s signal then (s, n + 1) ∷ rest else (s, n) ∷ later

unfoldable pub by_signal : List Record → List (String × ℕ) → List (String × ℕ)
by_signal [] counts = counts
by_signal (r ∷ rs) counts = by_signal rs (count_signal r.signal counts)

abbrev pub observed :
    Engine → List Record → List Consumer → Result Error (List ℕ) → List Observation
observed e rs cs (err failure) = e.observations
observed e rs cs (ok ps) =
    e.observations
    ++ record { records_by_signal = by_signal rs []; obligations = length rs * length cs } ∷ []

abbrev pub answered : Result Error (List ℕ) → Result AcceptError (List ℕ)
answered (ok ps) = ok ps
answered (err failure) = err (refused failure)

abbrev pub accepted_by :
    (ℕ → ℕ)
    → Engine
    → List Record
    → Result AcceptError (List Consumer)
    → Engine × Result AcceptError (List ℕ)
accepted_by clock e rs (err failure) = (e, err failure)
accepted_by clock e rs (ok cs) =
    let done = enqueue clock e.queue rs cs in
    (record e { queue = done.0; observations = observed e rs cs done.1 }, answered done.1)

unfoldable pub accept : (ℕ → ℕ) → Engine → List Record → Engine × Result AcceptError (List ℕ)
accept clock e rs = accepted_by clock e rs (consumers_locked e)
