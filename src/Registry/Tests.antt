-- ===== src/Registry/Tests.antt =====
-- The registry's theorems on small registries, with a toy digest.
use tailapps.Prelude.{
  ◌≡◌, ◌≤◌, ◌≢◌, refl, ◌&&◌, none, some, [], ◌∷◌, ok, err, str_eq, codes, if◌then◌else◌, ◌%◌, ◌==◌,
  length,
}
use tailapps.Registry.Tables.{
  ActivationJournal, Sources, Host, App, Registry, Answer, MutationRecord, idempotency_conflict,
}
use tailapps.Registry.Digest.{
  lookup, draft_digest, digest_text, preimage, written, sort_strings, insert_key, keys, assign,
  remove,
}
use tailapps.Registry.Ledger.{
  find_mutation, begin_mutation, answer_begin, complete_mutation, is_open, completed, new_mutation,
}
use tailapps.Registry.Drafts.{
  get, sources, sources_of, create, put, delete_element, mutate, store_draft, find_app,
  insert_elements, insert_element, element_row, new_app, drop_path,
}
use tailapps.Prelude.Int.{pos}
use tailapps.Registry.Activation.{finish_activation}
use tailapps.Registry.Finished.{Finishes, finish_activation-Finishes}
use tailapps.Registry.Once.{begin, perform, perform_all, executions, executions-once, is_present}
use tailapps.Registry.Replays.{begin_mutation-complete_mutation}
use tailapps.Registry.Reach.{empty, Reach, start, next, created, Reach-Formed}
use tailapps.Registry.Consistent.{Formed}
use tailapps.Registry.Stored.{Edited, put-Edited, delete_element-Edited}
use tailapps.Registry.Preimage.{two_files, one_file, draft_revision-collides}

abbrev toy : Host
toy = record {
  bytes = codes;
  sum256 = λ content. content;
  encode_to_string = λ content. if length content % 2 == 0 then "even" else "odd";
  marshal = λ s. [];
  unmarshal = λ content. none;
}

-- What a call leaves, and what it answers.
abbrev left_by : {A : Type 0} → Answer A → Registry
left_by (ok (answer, r)) = r
left_by (err e) = empty

abbrev blank : App
blank = record {
  name = "";
  draft_revision = "";
  active_revision = none;
  runtime_profile = none;
  activation_mode = none;
  boundary = none;
}

abbrev answer_of : Answer App → App
answer_of (ok (answer, r)) = answer
answer_of (err e) = blank

abbrev two : Sources
two = two_files "a" "b" (7 ∷ []) (8 ∷ [])

abbrev one : Sources
one = one_file toy "a" "b" (7 ∷ []) (8 ∷ [])

abbrev holds_two : Registry
holds_two = left_by (create toy empty "app" two)

abbrev holds_one : Registry
holds_one = left_by (create toy empty "app" one)

holds_two-Reach : Reach toy holds_two
unfolding create empty insert_elements insert_element element_row
holds_two-Reach = next start (created "app" two (new_app "app" (draft_digest toy two)) refl)

holds_one-Reach : Reach toy holds_one
unfolding create empty insert_elements insert_element element_row
holds_one-Reach = next start (created "app" one (new_app "app" (draft_digest toy one)) refl)

Reach-Formed_example : Formed toy holds_two
Reach-Formed_example = Reach-Formed toy holds_two holds_two-Reach

executions-once_example :
    executions "key" empty (begin "key" "put" "d" ∷ begin "key" "put" "d" ∷ [])
    ≤ (if is_present (find_mutation "key" (Registry.mutations empty)) then 0 else 1)
executions-once_example =
    executions-once "key" empty (begin "key" "put" "d" ∷ begin "key" "put" "d" ∷ [])

abbrev reply : MutationRecord
reply = record { response = 5 ∷ []; error_code = ""; error_message = "" }

abbrev acted : Registry
acted = perform_all empty (begin "key" "put" "d" ∷ [])

abbrev settled_one : Registry
settled_one = left_by (complete_mutation acted "key" "put" "d" reply)

completes : complete_mutation acted "key" "put" "d" reply ≡ ok (tt, settled_one)
unfolding complete_mutation empty perform perform_all begin_mutation answer_begin find_mutation
    new_mutation is_open completed
completes = refl

begin_mutation-complete_mutation_example :
    begin_mutation (perform_all settled_one (begin "key" "put" "d" ∷ [])) "key" "put" "e" ≡ (
      if str_eq "put" "put" && str_eq "d" "e"
      then ok (some reply, perform_all settled_one (begin "key" "put" "d" ∷ []))
      else err idempotency_conflict)
begin_mutation-complete_mutation_example =
    begin_mutation-complete_mutation empty (begin "key" "put" "d" ∷ []) (begin "key" "put" "d" ∷ [])
      "key" "put" "d" reply settled_one (unfold empty in refl) completes "put" "e"

abbrev written_two : Answer App
written_two = put toy holds_two "app" "b" (9 ∷ []) (draft_digest toy two)

puts : written_two ≡ ok (answer_of written_two, left_by written_two)
unfolding put mutate store_draft get find_app sources_of create empty insert_elements insert_element
    draft_digest digest_text preimage written sort_strings insert_key keys lookup assign element_row
    new_app
puts = refl

put-Edited_example :
    Edited toy holds_two "app"
      (draft_digest toy two)
      (λ p. if str_eq "b" p then some (9 ∷ []) else lookup p (sources holds_two "app"))
      (answer_of written_two)
      (left_by written_two)
put-Edited_example =
    put-Edited toy holds_two (left_by written_two) "app" "b" (9 ∷ []) (draft_digest toy two)
      (answer_of written_two) puts

abbrev dropped_two : Answer App
dropped_two = delete_element toy holds_two "app" "b" (draft_digest toy two)

drops : dropped_two ≡ ok (answer_of dropped_two, left_by dropped_two)
unfolding delete_element drop_path mutate store_draft get find_app sources_of create empty
    insert_elements insert_element draft_digest digest_text preimage written sort_strings insert_key
    keys lookup remove element_row new_app
drops = refl

delete_element-Edited_example :
    (lookup "b" (sources holds_two "app") ≢ none)
    × Edited toy holds_two "app"
        (draft_digest toy two)
        (λ p. if str_eq "b" p then none else lookup p (sources holds_two "app"))
        (answer_of dropped_two)
        (left_by dropped_two)
delete_element-Edited_example =
    delete_element-Edited toy holds_two (left_by dropped_two) "app" "b" (draft_digest toy two)
      (answer_of dropped_two) drops

abbrev entry : ActivationJournal
entry = record {
  name = "app";
  new_revision = "r";
  runtime = "v1";
  mode = "reset";
  boundary = pos 4;
  expected_draft = draft_digest toy two;
  old_revision = none;
}

finish_activation-Finishes_example : Finishes holds_two entry (finish_activation holds_two entry)
finish_activation-Finishes_example = finish_activation-Finishes toy holds_two entry holds_two-Reach

-- The two rows whose revisions collide.
abbrev row_two : App
row_two = new_app "app" (draft_digest toy two)

abbrev row_one : App
row_one = new_app "app" (draft_digest toy one)

found_two : find_app "app" (Registry.tailapps holds_two) ≡ some row_two
unfolding create empty insert_elements insert_element element_row find_app new_app
found_two = refl

found_one : find_app "app" (Registry.tailapps holds_one) ≡ some row_one
unfolding create empty insert_elements insert_element element_row find_app new_app
found_one = refl

sources-two : sources holds_two "app" ≡ two
unfolding create empty insert_elements insert_element sources sources_of element_row
sources-two = refl

sources-one : sources holds_one "app" ≡ one
unfolding create empty insert_elements insert_element sources sources_of element_row
sources-one = refl

draft_revision-collides_example :
    (App.draft_revision row_two ≡ App.draft_revision row_one)
    × (lookup "b" (sources holds_two "app") ≡ some (8 ∷ []))
    × (lookup "b" (sources holds_one "app") ≡ none)
draft_revision-collides_example =
    draft_revision-collides toy "a" "b" (7 ∷ []) (8 ∷ []) "app" holds_two holds_one row_two row_one
      refl refl holds_two-Reach holds_one-Reach found_two found_one sources-two sources-one
