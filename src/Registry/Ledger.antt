-- ===== src/Registry/Ledger.antt =====
-- internal/definition/registry.go: BeginMutation, CompleteMutation and nullableString.
use tailapps.Prelude.{
  String, Bool, true, false, not, ◌&&◌, ◌||◌, Option, none, some, List, [], ◌∷◌, ◌++◌, Result, ok,
  ◌>>=◌, ◌>>◌, guard, str_eq, if◌then◌else◌, map, filter, length, ◌==◌,
}
use tailapps.Registry.Tables.{
  MutationRecord, Mutation, MutationState, pending, complete, Registry, Error, Answer,
  idempotency_conflict, idempotency_in_doubt,
}

-- The row with a key, which is the table's primary key.
unfoldable pub find_mutation : String → List Mutation → Option Mutation
find_mutation key [] = none
find_mutation key (m ∷ ms) =
    let rest = find_mutation key ms in if str_eq m.key key then some m else rest

-- The text in a column, which is "" for NULL.
abbrev pub column : Option String → String
column none = ""
column (some s) = s

abbrev pub is_complete : MutationState → Bool
is_complete complete = true
is_complete pending = false

-- The answer for a key that the ledger holds.
unfoldable pub replay_mutation : Mutation → String → String → Result Error MutationRecord
replay_mutation m operation request_digest =
    guard (not (not (str_eq m.operation operation) || not (str_eq m.request_digest request_digest)))
      idempotency_conflict
    >> (guard (is_complete m.state) idempotency_in_doubt
        >> ok (record {
          response = m.response_json;
          error_code = column m.error_code;
          error_message = column m.error_message;
        }))

unfoldable pub new_mutation : String → String → String → Mutation
new_mutation key operation request_digest = record {
  key = key;
  operation = operation;
  request_digest = request_digest;
  state = pending;
  response_json = [];
  error_code = none;
  error_message = none;
}

-- The row that the SELECT found decides.
unfoldable pub answer_begin :
    Registry → String → String → String → Option Mutation → Answer (Option MutationRecord)
answer_begin r key operation request_digest (some m) =
    replay_mutation m operation request_digest >>= λ stored. ok (some stored, r)
answer_begin r key operation request_digest none =
    ok
      (none, record r { mutations = r.mutations ++ new_mutation key operation request_digest ∷ [] })

-- `some r` where a completed call is replayed, and `none` where the caller has to act.
unfoldable pub begin_mutation : Registry → String → String → String → Answer (Option MutationRecord)
begin_mutation r key operation request_digest =
    answer_begin r key operation request_digest (find_mutation key r.mutations)

unfoldable pub nullable_string : String → Option String
nullable_string value = if str_eq value "" then none else some value

-- The rows that the UPDATE of CompleteMutation meets.
unfoldable pub is_open : String → String → String → Mutation → Bool
is_open key operation request_digest m =
    str_eq m.key key
    && str_eq m.operation operation
    && str_eq m.request_digest request_digest
    && not (is_complete m.state)

unfoldable pub completed : MutationRecord → Mutation → Mutation
completed answer m = record m {
  state = complete;
  response_json = answer.response;
  error_code = nullable_string answer.error_code;
  error_message = nullable_string answer.error_message;
}

unfoldable pub complete_mutation :
    Registry → String → String → String → MutationRecord → Answer (Unit {0})
complete_mutation r key operation request_digest answer =
    let test = is_open key operation request_digest in
    let r' = record r {
      mutations = map (λ m. if test m then completed answer m else m) r.mutations;
    } in
    guard (length (filter test r.mutations) == 1) idempotency_conflict >> ok (tt, r')
