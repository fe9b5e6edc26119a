-- ===== src/Registry/Reach.antt =====
-- internal/definition/registry.go: every registry that its methods bring about.
use tailapps.Prelude.{
  ℕ, ◌≡◌, refl, ap, sym, subst, ◌∙◌, String, Bool, false, not, Option-cases, List, [], ◌∷◌, ok,
  >>=-eq-ok, str_eq, eq_iff, if◌then◌else◌, filter, any-filter, any-filter_none, Bool-cases, arith,
  inl, inr,
}
use tailapps.Prelude.Int.{ℤ}
use tailapps.Registry.Tables.{Sources, Host, App, Element, Registry, ActivationJournal}
use tailapps.Registry.Digest.{draft_digest, assign}
use tailapps.Registry.Drafts.{
  is_named, belongs, sources_of, create, put, delete_element, delete, drop_path,
}
use tailapps.Registry.Activation.{
  activate, record_revision, begin_activation, abort_activation, finish_activation,
}
use tailapps.Registry.Ledger.{find_mutation}
use tailapps.Registry.Rows.{sources_of-rest, Owned}
use tailapps.Registry.Once.{Call, begin, finish, perform, perform_new, perform_known, perform_cases}
use tailapps.Registry.Consistent.{Drafted, Distinct, Formed, create-Formed, str_eq_comm}
use tailapps.Registry.Changes.{mutate-Formed, activate-Formed}

Distinct-filter : (p : App → Bool) (apps : List App) → Distinct apps → Distinct (filter p apps)
Distinct-filter p [] d = tt
Distinct-filter p (app ∷ apps) d = elim (Bool-cases (p app)) [
  | inl e ↦ rw e (any-filter_none (is_named app.name) p apps d.0, Distinct-filter p apps d.1)
  | inr e ↦ rw e (Distinct-filter p apps d.1)
]

Drafted-left :
    (h : Host) (name : String) (es : List Element) (apps : List App)
    → Drafted h apps es
    → Drafted h
        (filter (λ app. not (is_named name app)) apps)
        (filter (λ e. not (belongs name e)) es)
Drafted-left h name es [] d = tt
Drafted-left h name es (app ∷ apps) d = elim (Bool-cases (is_named name app)) [
  | inl e ↦ rw e (Drafted-left h name es apps d.1)
  | inr e ↦
      let other : str_eq name app.name ≡ false = str_eq_comm name app.name ∙ e in
      rw e (
        d.0
            ∙ ap (λ s. draft_digest h s)
                (sym (
                  sources_of-rest app.name name es
                  ∙ ap (λ b. if b then [] else sources_of app.name es) other)),
        Drafted-left h name es apps d.1,
      )
]

Owned-left :
    (name : String) (apps : List App) (es : List Element)
    → Owned apps es
    → Owned (filter (λ app. not (is_named name app)) apps) (filter (λ e. not (belongs name e)) es)
Owned-left name apps [] o = tt
Owned-left name apps (e ∷ es) o = elim (Bool-cases (belongs name e)) [
  | inl hit ↦ rw hit (Owned-left name apps es o.1)
  | inr miss ↦ rw miss (
    any-filter (is_named e.tailapp) (λ app. not (is_named name app))
          (λ app named.
            ground
              (arith, miss, eq_iff app.name e.tailapp, eq_iff app.name name, eq_iff e.tailapp name))
          apps
        ∙ o.0,
    Owned-left name apps es o.1,
  )
]

-- The registry after a Delete.
abbrev without : Registry → String → Registry
without r name = record r {
  tailapps = filter (λ app. not (is_named name app)) r.tailapps;
  elements = filter (λ e. not (belongs name e)) r.elements;
}

delete-Formed : (h : Host) (r : Registry) (name : String) → Formed h r → Formed h (without r name)
delete-Formed h r name formed = record {
  drafts = Drafted-left h name r.elements r.tailapps formed.drafts;
  owned = Owned-left name r.tailapps r.elements formed.owned;
  names = Distinct-filter (λ (app : App). not (is_named name app)) r.tailapps formed.names;
}

-- A method that succeeds. The two methods of the idempotency ledger are `called`, whatever they
-- answer.
pub data Step (h : Host) (r r' : Registry) : Type 0 where
  created :
      (name : String) (s : Sources) (app : App) → create h r name s ≡ ok (app, r') → Step h r r'
  stored :
      (name path : String) (content : List ℕ) (expected : String) (app : App)
      → put h r name path content expected ≡ ok (app, r')
      → Step h r r'
  removed :
      (name path expected : String) (app : App)
      → delete_element h r name path expected ≡ ok (app, r')
      → Step h r r'
  recorded :
      (name digest runtime : String) (s : Sources)
      → record_revision h r name digest runtime s ≡ ok (tt, r')
      → Step h r r'
  activated :
      (name digest runtime mode : String) (boundary : ℤ) (expected : String)
      → activate r name digest runtime mode boundary expected ≡ ok (tt, r')
      → Step h r r'
  begun : (j : ActivationJournal) → begin_activation r j ≡ ok (tt, r') → Step h r r'
  finished_one : (j : ActivationJournal) → finish_activation r j ≡ ok (tt, r') → Step h r r'
  aborted : (name revision : String) → abort_activation r name revision ≡ ok (tt, r') → Step h r r'
  deleted : (name : String) → delete r name ≡ ok (tt, r') → Step h r r'
  called : (c : Call) → r' ≡ perform r c → Step h r r'

unfoldable pub empty : Registry
empty = record { tailapps = []; elements = []; revisions = []; journal = []; mutations = [] }

pub data Reach (h : Host) : Registry → Type 0 where
  start : Reach h empty
  next : {r r' : Registry} → Reach h r → Step h r r' → Reach h r'

-- What Formed speaks of.
abbrev Same : Registry → Registry → Type 0
Same r r' = (r'.tailapps ≡ r.tailapps) × (r'.elements ≡ r.elements)

Formed-Same : (h : Host) (r r' : Registry) → Same r r' → Formed h r → Formed h r'
Formed-Same h r r' (apps, es) formed = record {
  drafts =
      subst (λ l. Drafted h l r'.elements) (sym apps)
        (subst (Drafted h r.tailapps) (sym es) formed.drafts);
  owned =
      subst (λ l. Owned l r'.elements) (sym apps) (subst (Owned r.tailapps) (sym es) formed.owned);
  names = subst Distinct (sym apps) formed.names;
}

perform-Same : (r : Registry) (c : Call) → Same r (perform r c)
perform-Same r (begin k o d) = elim (Option-cases (find_mutation k r.mutations)) [
  | inl e ↦ rw (perform_new r k o d e) (refl, refl)
  | inr (m, e) ↦ rw (perform_known r k o d m e) (refl, refl)
]
perform-Same r (finish k o d answer) = elim (perform_cases r k o d answer) [
  | inl e ↦ rw e (refl, refl)
  | inr e ↦ rw e (refl, refl)
]

record_revision-Same :
    (h : Host) (r r' : Registry) (name digest runtime : String) (s : Sources)
    → record_revision h r name digest runtime s ≡ ok (tt, r')
    → Same r r'
unfolding record_revision
record_revision-Same h r r' name digest runtime s e = (ground (arith, e), ground (arith, e))

begin_activation-Same :
    (r r' : Registry) (j : ActivationJournal) → begin_activation r j ≡ ok (tt, r') → Same r r'
unfolding begin_activation
begin_activation-Same r r' j e = (ground (arith, e), ground (arith, e))

abort_activation-Same :
    (r r' : Registry) (name revision : String)
    → abort_activation r name revision ≡ ok (tt, r')
    → Same r r'
unfolding abort_activation
abort_activation-Same r r' name revision e = (ground (arith, e), ground (arith, e))

finish_activation-Formed :
    (h : Host) (r r' : Registry) (j : ActivationJournal)
    → finish_activation r j ≡ ok (tt, r')
    → Formed h r
    → Formed h r'
unfolding finish_activation
finish_activation-Formed h r r' j e f =
    let ((done, mid), first, last) =
      >>=-eq-ok (activate r j.name j.new_revision j.runtime j.mode j.boundary j.expected_draft)
        (λ (a : Unit {0} × Registry). abort_activation a.1 j.name j.new_revision) e in
    Formed-Same h mid r' (abort_activation-Same mid r' j.name j.new_revision last) (
      activate-Formed h r mid j.name j.new_revision j.runtime j.mode j.boundary j.expected_draft
        first f)

step-Formed : (h : Host) (r r' : Registry) → Step h r r' → Formed h r → Formed h r'
unfolding put delete_element delete
step-Formed h r r' (created name s app e) f = create-Formed h r r' name s app e f
step-Formed h r r' (stored name path content expected app e) f =
    mutate-Formed h r r' name expected (λ s. ok (assign path content s)) app e f
step-Formed h r r' (removed name path expected app e) f =
    mutate-Formed h r r' name expected (drop_path path) app e f
step-Formed h r r' (recorded name digest runtime s e) f =
    Formed-Same h r r' (record_revision-Same h r r' name digest runtime s e) f
step-Formed h r r' (activated name digest runtime mode boundary expected e) f =
    activate-Formed h r r' name digest runtime mode boundary expected e f
step-Formed h r r' (begun j e) f = Formed-Same h r r' (begin_activation-Same r r' j e) f
step-Formed h r r' (finished_one j e) f = finish_activation-Formed h r r' j e f
step-Formed h r r' (aborted name revision e) f =
    Formed-Same h r r' (abort_activation-Same r r' name revision e) f
step-Formed h r r' (deleted name e) f =
    let same : without r name ≡ r' = cc in subst (Formed h) same (delete-Formed h r name f)
step-Formed h r r' (called c e) f = rw e (Formed-Same h r (perform r c) (perform-Same r c) f)

-- In every registry that the methods bring about from an empty database, each app's draft revision is
-- the digest of the sources that are stored for it, every stored element belongs to an app, and the
-- names of apps are distinct.
pub Reach-Formed : (h : Host) (r : Registry) → Reach h r → Formed h r
unfolding empty
Reach-Formed h _ start = record { drafts = tt; owned = tt; names = tt }
Reach-Formed h _ (next {r} {r'} before step) = step-Formed h r r' step (Reach-Formed h r before)
