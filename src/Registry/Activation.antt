-- ===== src/Registry/Activation.antt =====
-- internal/definition/registry.go: revisions, Activate, and the activation journal.
use tailapps.Prelude.{
  String, Bool, not, ◌&&◌, Option, none, some, List, [], ◌∷◌, ◌++◌, Result, ok, err, ◌>>=◌, ◌>>◌,
  guard, str_eq, str_ltb, if◌then◌else◌, map, filter, any, length, ◌==◌,
}
use tailapps.Prelude.Int.{ℤ}
use tailapps.Registry.Tables.{
  Sources, Host, App, Revision, ActivationJournal, Registry, Error, Answer, revision_changed,
  no_rows, constraint, json,
}
use tailapps.Registry.Drafts.{is_drafted}

unfoldable pub find_revision : String → List Revision → Option Revision
find_revision digest [] = none
find_revision digest (x ∷ xs) =
    let rest = find_revision digest xs in if str_eq x.digest digest then some x else rest

-- INSERT .. ON CONFLICT(digest) DO NOTHING
unfoldable pub record_revision :
    Host → Registry → String → String → String → Sources → Answer (Unit {0})
record_revision h r name digest runtime s =
    let row : Revision = record {
      digest = digest;
      tailapp = name;
      runtime_profile = runtime;
      source_json = h.marshal s;
    } in
    if any (λ x. str_eq x.digest digest) r.revisions
    then ok (tt, r)
    else ok (tt, record r { revisions = r.revisions ++ row ∷ [] })

abbrev decoded : Option Sources → String → Result Error (Sources × String)
decoded none runtime = err json
decoded (some s) runtime = ok (s, runtime)

abbrev stored : Host → Option Revision → Result Error (Sources × String)
stored h none = err no_rows
stored h (some x) = decoded (h.unmarshal x.source_json) x.runtime_profile

unfoldable pub revision_sources : Host → Registry → String → Result Error (Sources × String)
revision_sources h r digest = stored h (find_revision digest r.revisions)

abbrev pub with_active : String → String → String → ℤ → App → App
with_active digest runtime mode boundary app = record app {
  active_revision = some digest;
  runtime_profile = some runtime;
  activation_mode = some mode;
  boundary = some boundary;
}

-- The UPDATE of an app's active revision under its expected draft, and the check of its count.
unfoldable pub activate :
    Registry → String → String → String → String → ℤ → String → Answer (Unit {0})
activate r name digest runtime mode boundary expected =
    let test = is_drafted name expected in
    let r' = record r {
      tailapps =
          map (λ app. if test app then with_active digest runtime mode boundary app else app)
            r.tailapps;
    } in
    guard (length (filter test r.tailapps) == 1) revision_changed >> ok (tt, r')

-- The primary key of the journal is the tailapp.
unfoldable pub begin_activation : Registry → ActivationJournal → Answer (Unit {0})
begin_activation r j =
    guard (not (any (λ (x : ActivationJournal). str_eq x.name j.name) r.journal)) constraint
    >> ok (tt, record r { journal = r.journal ++ j ∷ [] })

-- `ORDER BY tailapp`
unfoldable pub insert_journal : ActivationJournal → List ActivationJournal → List ActivationJournal
insert_journal j [] = j ∷ []
insert_journal j (x ∷ xs) =
    let rest = insert_journal j xs in if str_ltb x.name j.name then x ∷ rest else j ∷ x ∷ xs

unfoldable pub order_journals : List ActivationJournal → List ActivationJournal
order_journals [] = []
order_journals (j ∷ js) = insert_journal j (order_journals js)

unfoldable pub activation_journals : Registry → List ActivationJournal
activation_journals r = order_journals r.journal

abbrev pub is_entry : String → String → ActivationJournal → Bool
is_entry name revision j = str_eq j.name name && str_eq j.new_revision revision

unfoldable pub abort_activation : Registry → String → String → Answer (Unit {0})
abort_activation r name revision =
    ok (tt, record r { journal = filter (λ j. not (is_entry name revision j)) r.journal })

-- One transaction: the same UPDATE as Activate's, and the DELETE of the journal's entry.
unfoldable pub finish_activation : Registry → ActivationJournal → Answer (Unit {0})
finish_activation r j =
    activate r j.name j.new_revision j.runtime j.mode j.boundary j.expected_draft >>= λ done.
    abort_activation done.1 j.name j.new_revision
