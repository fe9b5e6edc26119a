-- ===== src/Inbox/Tests.antt =====
-- The queue's theorems at one small history, and runs of its methods.
use tailapps.Prelude.{
  ℕ, ◌+◌, ◌≡◌, refl, List, [], ◌∷◌, map, arith, none, some, ok, err, take, length, if◌then◌else◌,
  str_eq,
}
use tailapps.Prelude.Int.{pos, negsuc}
use tailapps.Inbox.Tables.{
  Consumer, Record, Delivery, Queue, Limits, consumed, detached, already, full, is_signal,
}
use tailapps.Inbox.Enqueue.{enqueue, fits}
use tailapps.Inbox.Settle.{settle, complete, detach_all, state_of}
use tailapps.Inbox.Pending.{pending, stats}
use tailapps.Inbox.Outstanding.{outstanding}
use tailapps.Inbox.Accepts.{enqueue-accepts}
use tailapps.Inbox.Admitted.{positions}
use tailapps.Inbox.Batch.{weight}
use tailapps.Inbox.Refinement.{
  EnqueuePost, enqueue-refines, settle_reply, owed_after, settle-refines, detach_all-refines,
  pending-refines,
}
use tailapps.Inbox.Reach.{fresh, Reach, start, next, enqueued, Sound, Reach-Sound}

abbrev settings : Limits
settings = record { records = pos 3; bytes = negsuc 0 }

abbrev sample : List ℕ → Record
sample json = record {
  signal = "log";
  name = "n";
  source = "s";
  time_unix_nano = none;
  observed_unix_nano = none;
  trace_id = none;
  span_id = none;
  content_digest = "d";
  json = json;
  received_at = none;
}

abbrev first_record : Record
first_record = sample (123 ∷ 125 ∷ [])

abbrev second_record : Record
second_record = sample (91 ∷ 93 ∷ [])

abbrev consumers : List Consumer
consumers = record { tailapp = "a"; revision = "1" } ∷ record { tailapp = "b"; revision = "1" } ∷ []

abbrev clock : ℕ → ℕ
clock n = 1000 + n

abbrev empty : Queue
empty = fresh settings

abbrev batch : List Record
batch = first_record ∷ second_record ∷ []

abbrev loaded : Queue
loaded = (enqueue clock empty batch consumers).0

reaches : Reach settings loaded
unfolding fresh
reaches = next start (enqueued clock batch consumers (omega arith) refl)

Reach-Sound_example : Sound loaded
Reach-Sound_example = Reach-Sound settings reaches

enqueue-refines_example :
    EnqueuePost empty batch consumers loaded (enqueue clock empty batch consumers).1
enqueue-refines_example =
    enqueue-refines clock empty first_record (second_record ∷ []) consumers
      (Reach-Sound settings start).formed

enqueue-accepts_example : (enqueue clock empty batch consumers).1 ≡ (
    if fits empty (length batch) (weight batch)
    then ok (positions empty.tables.delivery_head 0 batch)
    else err full)
unfolding is_signal
enqueue-accepts_example =
    enqueue-accepts clock empty first_record (second_record ∷ []) consumers
      (Reach-Sound settings start).formed ((refl, refl), ((refl, refl), tt))
      ((refl, refl), ((refl, refl), tt)) ((refl, tt), (tt, tt))

settle-refines_example :
    ((settle loaded "a" 1 consumed "").1
      ≡ settle_reply consumed (state_of 1 "a" loaded.tables.obligations))
    × ((a : _)
        → outstanding a (settle loaded "a" 1 consumed "").0.tables
          ≡ owed_after loaded "a" 1
              (settle_reply consumed (state_of 1 "a" loaded.tables.obligations))
              a)
settle-refines_example =
    settle-refines loaded "a" 1 consumed "" refl (Reach-Sound settings reaches).formed

detach_all-refines_example :
    ((detach_all loaded "a" "projection_gap").1 ≡ ok (length (outstanding "a" loaded.tables)))
    × ((a : _)
        → outstanding a (detach_all loaded "a" "projection_gap").0.tables
          ≡ (if str_eq a "a" then [] else outstanding a loaded.tables))
detach_all-refines_example =
    detach_all-refines loaded "a" "projection_gap" (Reach-Sound settings reaches).formed

pending-refines_example :
    (ds : List Delivery) × (pending loaded "b" (pos 1) ≡ ok ds)
    × (map (λ d. d.position) ds ≡ take 1 (outstanding "b" loaded.tables))
pending-refines_example =
    pending-refines loaded "b" 0 (Reach-Sound settings reaches).formed (omega arith)

positions_follow : (enqueue clock empty batch consumers).1 ≡ ok (1 ∷ 2 ∷ [])
unfolding enqueue fresh
positions_follow = refl

-- Four records do not fit into three places.
no_room : (enqueue clock loaded batch consumers).1 ≡ err full
unfolding enqueue fresh
no_room = refl

detached_then_completed :
    (complete (settle loaded "a" 1 detached "gap").0 "a" 1).1 ≡ err (already detached)
unfolding enqueue fresh complete settle
detached_then_completed = refl

-- A record leaves when its last consumer settles.
collected : (stats (complete (complete loaded "a" 1).0 "b" 1).0).oldest_position ≡ some 2
unfolding enqueue fresh complete settle stats
collected = refl
