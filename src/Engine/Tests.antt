-- ===== src/Engine/Tests.antt =====
-- The engine's theorems at one small engine.
use tailapps.Prelude.{
  ℕ, ◌<◌, ◌≤◌, length, ◌++◌, ◌≡◌, refl, String, false, true, List, [], ◌∷◌, none, some, ok, arith,
}
use tailapps.Prelude.Int.{pos}
use tailapps.Inbox.Tables.{Record, Consumer, Queue, local}
use tailapps.Inbox.Reach.{fresh, Reach, start, next, enqueued, Reach-Sound}
use tailapps.Inbox.Enqueue.{enqueue}
use tailapps.Projection.Types.{Projection}
use tailapps.Projection.Host.{Host}
use tailapps.Projection.Process.{initial}
use tailapps.Engine.Accept.{Engine, accept}
use tailapps.Engine.Flat.{AllCounted, Flat, select_wave-Flat}
use tailapps.Engine.Recent.{buffer_of, record_all, latest, buffer_of-record_all}
use tailapps.Engine.Drain.{
  Wave, no_wave, select_wave, IneffectiveRecord, ineffective_record, ineffective_buffer_capacity,
  Resident, drain_pass_locked,
}
use tailapps.Engine.Ended.{owing, Ends, drain_pass_locked-Ends}
use tailapps.Engine.Routed.{Accepts, accept-Accepts}

abbrev arrival : Record
arrival = record {
  signal = "span";
  name = "call";
  source = "agent";
  time_unix_nano = none;
  observed_unix_nano = none;
  trace_id = none;
  span_id = none;
  content_digest = "x";
  json = 123 ∷ 125 ∷ [];
  received_at = some 8;
}

-- Two projections are active, of which one has a gap.
abbrev resident : Engine
resident = record {
  queue = fresh (record { records = pos 9; bytes = pos 900 });
  active =
      record { name = "b"; revision = "1"; complete = true; gap_position = none }
      ∷ record { name = "a"; revision = "2"; complete = true; gap_position = some 4 }
      ∷ [];
  upgrade_pending = [];
  observations = [];
}

accept-Accepts_example :
    Accepts resident
      (accept (λ n. n) resident (arrival ∷ [])).0
      (accept (λ n. n) resident (arrival ∷ [])).1
accept-Accepts_example =
    accept-Accepts (λ n. n) resident arrival []
      (Reach-Sound (record { records = pos 9; bytes = pos 900 }) (start)).formed

-- A host whose programs find every record ineffective.
abbrev idle : Host
idle = record {
  Rows = ℕ;
  Value = ℕ;
  null = 0;
  text = λ s. 1;
  number = λ n. n;
  identity_text = λ i. 2;
  object = λ o. 3;
  array = λ o. 4;
  decode = λ bytes. ok 5;
  validate_program_input = λ p m e. ok tt;
  evaluate = λ p i. ok (record { decision = "ineffective"; events = []; tables = [] });
  select = λ rows r args. ok [];
  insert_row = λ t r u rows. ok rows;
  delete_row = λ t r rows. ok rows;
  marshal_table = λ t. t.name;
  exec = λ sql rows. ok rows;
  schema_objects = λ rows. ok [];
  declared_type = λ rows t c. ok "JSON_TEXT";
}

abbrev opened : String → Projection ℕ
opened name =
    initial
      (record {
        name = name;
        revision = "1";
        runtime_profile = "r";
        normalizer = record { name = "normalize"; reads = []; writes = [] };
        folds = [];
        tables = [];
        exports = [];
        replaceable_sql = [];
      })
      0 7

abbrev small_queue : Queue
small_queue = fresh (record { records = pos 9; bytes = pos 900 })

abbrev consumers : List Consumer
consumers = record { tailapp = "a"; revision = "1" } ∷ record { tailapp = "b"; revision = "1" } ∷ []

abbrev loaded : Queue
loaded = (enqueue (λ n. n) small_queue (arrival ∷ arrival ∷ []) consumers).0

loaded_reached : Reach (record { records = pos 9; bytes = pos 900 }) loaded
unfolding fresh
loaded_reached = next start (
    enqueued (λ n. n) (arrival ∷ arrival ∷ []) consumers
      (record { records = omega arith; bytes = omega arith }) refl)

-- Two projections are behind by two records each.
abbrev behind : Resident ℕ
behind = record {
  queue = loaded;
  active = ("a", opened "a") ∷ ("b", opened "b") ∷ [];
  upgrade_pending = [];
  ineffective = [];
  metrics = [];
}

four_owed : owing loaded.tables ("a" ∷ "b" ∷ []) < 5
unfolding enqueue fresh
four_owed = omega arith

drain_pass_locked-Ends_example :
    Ends idle
      (λ a p. false)
      (λ a p. 8)
      ("a" ∷ "b" ∷ [])
      (drain_pass_locked idle (λ a p. false) (λ a p. 8) 5 0 behind)
drain_pass_locked-Ends_example =
    drain_pass_locked-Ends idle (λ a p. false) (λ a p. 8) 5 0 behind
      (Reach-Sound (record { records = pos 9; bytes = pos 900 }) loaded_reached).formed refl
      four_owed

abbrev found_idle : IneffectiveRecord
found_idle = ineffective_record (record {
  position = 1;
  event_id = local 1;
  signal = "span";
  name = "call";
  source = "agent";
  time_unix_nano = none;
  observed_unix_nano = none;
  trace_id = none;
  span_id = none;
  content_digest = "x";
  json = 123 ∷ 125 ∷ [];
  revision = "1";
  received_at = 8;
})

buffer_of-record_all_example :
    (buffer_of "a" (record_all "a" (found_idle ∷ found_idle ∷ []) [])
      ≡ latest ([] ++ found_idle ∷ found_idle ∷ []))
    × (length (buffer_of "a" (record_all "a" (found_idle ∷ found_idle ∷ []) []))
        ≤ ineffective_buffer_capacity)
buffer_of-record_all_example = buffer_of-record_all "a" found_idle (found_idle ∷ []) []

counted : AllCounted loaded ("a" ∷ "b" ∷ [])
unfolding enqueue fresh
counted = ((λ p rest e. first p rest e), ((λ p rest e. first p rest e), tt))
  where
    first : (p : ℕ) (rest : List ℕ) → 1 ∷ 2 ∷ [] ≡ p ∷ rest → 0 < p
    first p rest e = let one : 1 ≡ p = cc in omega (arith, one)

select_wave-Flat_example :
    (w : Wave) × (select_wave loaded ("a" ∷ "b" ∷ []) no_wave ≡ ok w)
    × Flat loaded ("a" ∷ "b" ∷ []) w
select_wave-Flat_example =
    select_wave-Flat loaded
      (Reach-Sound (record { records = pos 9; bytes = pos 900 }) loaded_reached).formed
      ("a" ∷ "b" ∷ []) counted
