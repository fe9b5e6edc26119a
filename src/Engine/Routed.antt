-- ===== src/Engine/Routed.antt =====
-- internal/engine/engine.go: to whom accept routes the records.
use tailapps.Prelude.{
  ℕ, ◌≡◌, ap, ◌∙◌, String, Bool, ◌&&◌, List, [], ◌∷◌, ◌++◌, any, arith, str_eq, if◌then◌else◌,
  Result, ok, err, refl,
}
use tailapps.Inbox.Tables.{Consumer, Record, Queue, Error}
use tailapps.Inbox.Enqueue.{enqueue}
use tailapps.Inbox.WellFormed.{WellFormed}
use tailapps.Inbox.Outstanding.{outstanding}
use tailapps.Inbox.Batch.{subscribed}
use tailapps.Inbox.Refinement.{EnqueuePost, enqueue-refines}
use tailapps.Engine.Accept.{
  observed, Active, Engine, AcceptError, accepted_by, answered, captured, insert_active,
  sort_active, is_healthy, capture_active, consumers_locked, accept,
}

-- A healthy projection of a tailapp is active.
abbrev routes : String → List Active → Bool
routes name active = any (λ a. str_eq a.name name && is_healthy a) active

insert_active-routes :
    (name : String) (a : Active) (xs : List Active)
    → routes name (insert_active a xs) ≡ routes name (a ∷ xs)
unfolding insert_active
insert_active-routes name a [] = refl
insert_active-routes name a (x ∷ xs) = ground (arith, insert_active-routes name a xs)

sort_active-routes :
    (name : String) (xs : List Active) → routes name (sort_active xs) ≡ routes name xs
unfolding sort_active
sort_active-routes name [] = refl
sort_active-routes name (a ∷ xs) =
    ground (arith, insert_active-routes name a (sort_active xs), sort_active-routes name xs)

capture_active-routes :
    (name : String) (xs : List Active) → subscribed name (capture_active xs) ≡ routes name xs
unfolding capture_active
capture_active-routes name [] = refl
capture_active-routes name (a ∷ xs) = ground (arith, capture_active-routes name xs)

-- What the caller of accept may rely on.
abbrev pub Accepts : Engine → Engine → Result AcceptError (List ℕ) → Type 0
Accepts e e' (err failure) = e' ≡ e
Accepts e e' (ok ps) =
    (e.upgrade_pending ≡ [])
    × (e'.active ≡ e.active)
    × ((name : String)
        → outstanding name e'.queue.tables
          ≡ outstanding name e.queue.tables ++ (if routes name e.active then ps else []))

enqueued :
    (e : Engine) (rs : List Record) (cs : List Consumer) (q' : Queue) (res : Result Error (List ℕ))
    → e.upgrade_pending ≡ []
    → ((name : String) → subscribed name cs ≡ routes name e.active)
    → EnqueuePost e.queue rs cs q' res
    → Accepts e (record e { queue = q'; observations = observed e rs cs res }) (answered res)
enqueued e rs cs q' (ok ps) free same post = (
  free,
  refl,
  λ name.
      post.2 name ∙ ap (λ b. outstanding name e.queue.tables ++ (if b then ps else [])) (same name),
)
enqueued e rs cs q' (err failure) free same post = ap (λ (q : Queue). record e { queue = q }) post

accepted_by-Accepts :
    (clock : ℕ → ℕ) (e : Engine) (r : Record) (rs : List Record) (names : List String)
    → e.upgrade_pending ≡ names
    → WellFormed e.queue.tables
    → Accepts e
        (accepted_by clock e (r ∷ rs) (captured e names)).0
        (accepted_by clock e (r ∷ rs) (captured e names)).1
accepted_by-Accepts clock e r rs [] free wf =
    let cs = capture_active (sort_active e.active) in
    enqueued e (r ∷ rs) cs (enqueue clock e.queue (r ∷ rs) cs).0
      (enqueue clock e.queue (r ∷ rs) cs).1 free
      (λ name. capture_active-routes name (sort_active e.active) ∙ sort_active-routes name e.active)
      (enqueue-refines clock e.queue r rs cs wf)
accepted_by-Accepts clock e r rs (name ∷ names) free wf = refl

-- On a well formed queue, accept either answers an error and changes nothing, or no upgrade is
-- pending and what a tailapp owes grows by exactly the new positions where an active projection of
-- that name is complete and has no gap, and by nothing otherwise; the active projections stay.
pub accept-Accepts :
    (clock : ℕ → ℕ) (e : Engine) (r : Record) (rs : List Record)
    → WellFormed e.queue.tables
    → Accepts e (accept clock e (r ∷ rs)).0 (accept clock e (r ∷ rs)).1
unfolding accept consumers_locked
accept-Accepts clock e r rs wf = accepted_by-Accepts clock e r rs e.upgrade_pending refl wf
