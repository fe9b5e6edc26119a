-- ===== src/Projection/Tests.antt =====
-- The projection's theorems on a small host, whose tables are one counter.
use tailapps.Prelude.{
  ℕ, ◌+◌, ◌≡◌, refl, true, false, String, List, [], ◌∷◌, none, some, Result, ok, err, str_eq,
  if◌then◌else◌,
}
use tailapps.Inbox.Tables.{Delivery, local}
use tailapps.Projection.Types.{Failure, application, Program, Profile, Projection}
use tailapps.Projection.Host.{Host, Evaluated}
use tailapps.Projection.Evaluation.{delivery_event, evaluation_input, apply_changes}
use tailapps.Projection.Process.{initial, process, interpret}
use tailapps.Projection.Atomic.{Refused, process_error-Refused}
use tailapps.Projection.Again.{Unmoved, process_again}
use tailapps.Projection.Replay.{Seen, Attempt, attempts, History, attempts-History}
mod Continuing

abbrev unreadable : Failure
unreadable = record { kind = application; message = 1 ∷ [] }

abbrev decoded : List ℕ → Result Failure ℕ
decoded [] = err unreadable
decoded (b ∷ bs) = ok b

abbrev answer : String → Evaluated ℕ
answer program =
    if str_eq program "normalize"
    then record { decision = "effective"; events = ("otel_event", [] ∷ []) ∷ []; tables = [] }
    else record {
      decision = "effective";
      events = [];
      tables = ("count", record { insert = [] ∷ []; upsert = []; delete = [] }) ∷ [];
    }

abbrev counter : Host
counter = record {
  Rows = ℕ;
  Value = ℕ;
  null = 0;
  text = λ s. 1;
  number = λ n. n;
  identity_text = λ i. 2;
  object = λ o. 3;
  array = λ o. 4;
  decode = decoded;
  validate_program_input = λ p m e. ok tt;
  evaluate = λ p i. ok (answer p);
  select = λ rows r args. ok [];
  insert_row = λ t r u rows. ok (rows + 1);
  delete_row = λ t r rows. ok rows;
  marshal_table = λ t. t.name;
  exec = λ sql rows. ok rows;
  schema_objects = λ rows. ok [];
  declared_type = λ rows t c. ok "JSON_TEXT";
}

abbrev program : String → Program
program name = record { name = name; reads = []; writes = [] }

abbrev profile : Profile
profile = record {
  name = "a";
  revision = "1";
  runtime_profile = "r";
  normalizer = program "normalize";
  folds = program "fold" ∷ [];
  tables = [];
  exports = [];
  replaceable_sql = [];
}

abbrev opened : Projection ℕ
opened = initial profile 0 7

abbrev delivery : ℕ → List ℕ → Delivery
delivery position json = record {
  position = position;
  event_id = local position;
  signal = "log";
  name = "n";
  source = "s";
  time_unix_nano = none;
  observed_unix_nano = none;
  trace_id = none;
  span_id = none;
  content_digest = "d";
  json = json;
  revision = "1";
  received_at = 0;
}

abbrev fed : Projection ℕ
fed = (process counter false 0 opened (delivery 8 (5 ∷ []))).0

-- A delivery that cannot be decoded leaves a gap.
decode_gap : (process counter false 0 opened (delivery 8 [])).0.frontier.gap_position ≡ some 8
unfolding process interpret initial delivery_event
decode_gap = refl

folded_once : fed.rows ≡ 1
unfolding process interpret initial delivery_event evaluation_input apply_changes
folded_once = refl

process_error-Refused_example :
    Refused counter false 0 opened
      (process counter false 0 opened (delivery 8 [])).0
      (delivery 8 [])
      unreadable
unfolding process interpret initial delivery_event
process_error-Refused_example = process_error-Refused counter false 0 opened (delivery 8 []) refl

process_again_example :
    Seen counter fed (delivery 8 (5 ∷ []))
    × ((tries : List (Attempt counter))
        → Unmoved counter (attempts counter fed tries) (delivery 8 (5 ∷ [])))
unfolding process interpret initial delivery_event evaluation_input apply_changes
process_again_example = process_again counter false 0 opened (delivery 8 (5 ∷ [])) refl

abbrev tries : List (Attempt counter)
tries =
    record { done = false; now = 0; delivery = delivery 8 (5 ∷ []) }
    ∷ record { done = false; now = 1; delivery = delivery 8 (5 ∷ []) }
    ∷ record { done = true; now = 2; delivery = delivery 9 [] }
    ∷ record { done = false; now = 3; delivery = delivery 9 (6 ∷ []) }
    ∷ []

attempts-History_example :
    (ds : List Delivery) × History counter opened (attempts counter opened tries) ds
attempts-History_example = attempts-History counter opened tries

-- Two of the four attempts took effect.
two_of_four : (attempts counter opened tries).rows ≡ 2
unfolding attempts process interpret initial delivery_event evaluation_input apply_changes
two_of_four = refl
