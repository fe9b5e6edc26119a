-- ===== src/Registry/Drafts.antt =====
-- internal/definition/registry.go: Create, List, Get, Sources, Put, DeleteElement, mutate and Delete.
use tailapps.Prelude.{
  ℕ, String, Bool, not, ◌&&◌, Option, none, some, List, [], ◌∷◌, ◌++◌, Result, ok, err, ◌>>=◌, ◌>>◌,
  guard, str_eq, str_ltb, if◌then◌else◌, map, filter, any, length, ◌==◌,
}
use tailapps.Registry.Tables.{
  Sources, Host, App, Element, Registry, Error, Answer, revision_changed, no_rows, constraint,
}
use tailapps.Registry.Digest.{lookup, assign, remove, digest_text, draft_digest}

abbrev pub is_named : String → App → Bool
is_named name app = str_eq app.name name

abbrev pub belongs : String → Element → Bool
belongs name e = str_eq e.tailapp name

unfoldable pub find_app : String → List App → Option App
find_app name [] = none
find_app name (app ∷ apps) =
    let rest = find_app name apps in if is_named name app then some app else rest

abbrev pub row_of : Option App → Result Error App
row_of none = err no_rows
row_of (some app) = ok app

unfoldable pub get : Registry → String → Result Error App
get r name = row_of (find_app name r.tailapps)

-- `ORDER BY name`
unfoldable pub insert_app : App → List App → List App
insert_app app [] = app ∷ []
insert_app app (a ∷ apps) =
    let rest = insert_app app apps in if str_ltb a.name app.name then a ∷ rest else app ∷ a ∷ apps

unfoldable pub order_apps : List App → List App
order_apps [] = []
order_apps (app ∷ apps) = insert_app app (order_apps apps)

unfoldable pub list_apps : Registry → List App
list_apps r = order_apps r.tailapps

unfoldable pub sources_of : String → List Element → Sources
sources_of name es = map (λ e. (e.path, e.content)) (filter (belongs name) es)

unfoldable pub sources : Registry → String → Sources
sources r name = sources_of name r.elements

unfoldable pub element_row : Host → String → String × List ℕ → Element
element_row h name entry = record {
  tailapp = name;
  path = entry.0;
  content = entry.1;
  digest = digest_text h entry.1;
}

-- The INSERT of an element, under the primary key (tailapp, path).
unfoldable pub insert_element : Element → List Element → Result Error (List Element)
insert_element row es =
    guard (not (any (λ e. str_eq e.tailapp row.tailapp && str_eq e.path row.path) es)) constraint
    >> ok (es ++ row ∷ [])

-- The loop over the sources.
unfoldable pub insert_elements :
    Host → String → Sources → List Element → Result Error (List Element)
insert_elements h name [] es = ok es
insert_elements h name (entry ∷ rest) es =
    insert_element (element_row h name entry) es >>= λ es'. insert_elements h name rest es'

unfoldable pub new_app : String → String → App
new_app name revision = record {
  name = name;
  draft_revision = revision;
  active_revision = none;
  runtime_profile = none;
  activation_mode = none;
  boundary = none;
}

unfoldable pub create : Host → Registry → String → Sources → Answer App
create h r name s =
    let app = new_app name (draft_digest h s) in
    guard (not (any (is_named name) r.tailapps)) constraint
    >> (insert_elements h name s r.elements >>= λ es.
        ok (app, record r { tailapps = r.tailapps ++ app ∷ []; elements = es }))

-- The row that an UPDATE under an expected draft revision meets.
abbrev pub is_drafted : String → String → App → Bool
is_drafted name expected app = is_named name app && str_eq app.draft_revision expected

abbrev pub with_draft : String → App → App
with_draft next app = record app { draft_revision = next }

-- The last steps of mutate: the new elements, the UPDATE with its count, and the row read again.
unfoldable pub store_draft : Host → Registry → String → String → Sources → Answer App
store_draft h r name expected s' =
    let next = draft_digest h s' in
    insert_elements h name s' (filter (λ e. not (belongs name e)) r.elements) >>= λ es.
    let test = is_drafted name expected in
    let r' = record r {
      tailapps = map (λ app. if test app then with_draft next app else app) r.tailapps;
      elements = es;
    } in
    guard (length (filter test r.tailapps) == 1) revision_changed
    >> (get r' name >>= λ app. ok (app, r'))

unfoldable pub mutate :
    Host → Registry → String → String → (Sources → Result Error Sources) → Answer App
mutate h r name expected change = get r name >>= λ row.
    guard (str_eq row.draft_revision expected) revision_changed
    >> (change (sources_of name r.elements) >>= λ s'. store_draft h r name expected s')

unfoldable pub put : Host → Registry → String → String → List ℕ → String → Answer App
put h r name path content expected = mutate h r name expected (λ s. ok (assign path content s))

-- The change that DeleteElement hands to mutate.
abbrev pub dropped : String → Sources → Option (List ℕ) → Result Error Sources
dropped path s none = err no_rows
dropped path s (some old) = ok (remove path s)

unfoldable pub drop_path : String → Sources → Result Error Sources
drop_path path s = dropped path s (lookup path s)

unfoldable pub delete_element : Host → Registry → String → String → String → Answer App
delete_element h r name path expected = mutate h r name expected (drop_path path)

-- The DELETE of an app, which takes its elements with it (ON DELETE CASCADE).
unfoldable pub delete : Registry → String → Answer (Unit {0})
delete r name = ok (
  tt,
  record r {
    tailapps = filter (λ app. not (is_named name app)) r.tailapps;
    elements = filter (λ e. not (belongs name e)) r.elements;
  },
)
