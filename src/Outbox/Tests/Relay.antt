-- ===== src/Outbox/Tests/Relay.antt =====
-- Batches of the relay on a table of two rows.
use autospace_parking.Prelude.{
  ℕ, String, ◌≡◌, ◌≢◌, refl, ◌⊎◌, Bool, false, Option, none, some, List, [], ◌∷◌, ◌==◌, All,
}
use autospace_parking.Js.Exec.{resolved}
use autospace_parking.Js.Exec.Returns.{Returns}
use autospace_parking.Js.Json.{end}
use autospace_parking.Outbox.Entity.{OutboxEvent}
use autospace_parking.Outbox.Services.{is_unpublished, IsSelection}
use autospace_parking.Outbox.Memory.{Memory, memory, memory-DatabaseAnswers, memory-BrokerAccepts}
use autospace_parking.Outbox.Memory.Lawful.{memory-IsLawful}
use autospace_parking.Outbox.Relay.{
  batch_size, unpublished_query, publish_batch, relay_loop, deliver, mark_published, record_failure,
}
use autospace_parking.Outbox.Relay.Settled.{Report, publish_batch-Settled}
use autospace_parking.Outbox.Relay.Progress.{publish_batch-Returns}
use autospace_parking.Outbox.Relay.Drain.{publish_batch_drains}
use autospace_parking.Outbox.Service.{EnqueueEventInput, enqueue}

abbrev pub event : ℕ → Option ℕ → OutboxEvent
event occurred_at published_at = record {
  id = "";
  aggregate_type = "listing";
  aggregate_id = "l1";
  event_type = "listing.published";
  event_version = 1;
  payload = end;
  metadata = end;
  occurred_at = occurred_at;
  published_at = published_at;
  attempts = 0;
  last_error = none;
}

abbrev refuse_a : String → Bool
refuse_a id = id == "a"

-- "b" is older than "a"; both wait.
abbrev pub both_wait : Memory
both_wait = record { a = some (event 20 none); b = some (event 10 none); sent = []; clock = 99 }

abbrev one_published : Memory
one_published = record {
  a = some (event 20 none);
  b = some (event 10 (some 15));
  sent = [];
  clock = 99;
}

run : Unit {0}
unfolding publish_batch relay_loop deliver mark_published record_failure unpublished_query
run = tt

-- The broker refuses "a": "b" is published, and "a" keeps its place with an attempt and an error.
batch_run : publish_batch (memory refuse_a) both_wait ≡ (
  resolved 1,
  record {
    a = some (record (event 20 none) { attempts = 1; last_error = some "refused" });
    b = some (record (event 10 (some 99)) { attempts = 1 });
    sent = record (event 10 none) { id = "b" } ∷ [];
    clock = 99;
  },
)
unfolding run
batch_run = refl

batch_returns : (publish_batch (memory refuse_a) both_wait).0 ≡ resolved 1
unfolding run
batch_returns = refl

publish_batch-Settled_example :
    (es : List OutboxEvent) × IsSelection (memory refuse_a) unpublished_query both_wait es
    × Report
        (memory refuse_a)
        (memory-IsLawful refuse_a)
        es
        0
        1
        (publish_batch (memory refuse_a) both_wait).1
    × ((j : String)
        → All (λ e. j ≢ e.id) es
        → (memory refuse_a).find (publish_batch (memory refuse_a) both_wait).1 j
          ≡ (memory refuse_a).find both_wait j)
publish_batch-Settled_example =
    publish_batch-Settled (memory refuse_a) (memory-IsLawful refuse_a) both_wait 1 batch_returns

publish_batch-Returns_example : Returns (publish_batch (memory refuse_a))
publish_batch-Returns_example =
    publish_batch-Returns (memory refuse_a) (memory-DatabaseAnswers refuse_a)

abbrev pub accepts : String → Bool
accepts id = false

publish_batch_drains_example :
    ((publish_batch (memory accepts) both_wait).0 ≡ resolved batch_size)
    ⊎ ((j : String) (e : OutboxEvent)
        → (memory accepts).find (publish_batch (memory accepts) both_wait).1 j ≡ some e
        → false ≡ false
        → is_unpublished e ≡ false)
publish_batch_drains_example =
    publish_batch_drains (memory accepts) (memory-IsLawful accepts) (memory-DatabaseAnswers accepts)
      memory-BrokerAccepts both_wait

abbrev pub request : EnqueueEventInput
request = record {
  aggregate_type = "listing";
  aggregate_id = "l2";
  event_type = "listing.created";
  event_version = none;
  payload = end;
  metadata = none;
}

abbrev pub room_in_b : Memory
room_in_b = record { a = some (event 20 none); b = none; sent = []; clock = 30 }

abbrev pub enqueued : OutboxEvent
enqueued = record {
  id = "b";
  aggregate_type = "listing";
  aggregate_id = "l2";
  event_type = "listing.created";
  event_version = 1;
  payload = end;
  metadata = end;
  occurred_at = 30;
  published_at = none;
  attempts = 0;
  last_error = none;
}

pub enqueue_run : (enqueue (memory accepts) request none room_in_b).0 ≡ resolved enqueued
unfolding enqueue
enqueue_run = refl
