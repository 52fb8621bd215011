-- ===== src/Outbox/Service.antt =====
-- outbox.service.ts: `OutboxService.enqueue`.
pub mod Delivery
use autospace_parking.Prelude.{ℕ, String, Option, none, some}
use autospace_parking.Js.Exec.{Exec}
use autospace_parking.Js.Text.{or_default}
use autospace_parking.Js.Json.{Object, end}
use autospace_parking.Outbox.Entity.{OutboxEvent, NewEvent}
use autospace_parking.Outbox.Services.{Services}

pub record EnqueueEventInput : Type 0 where
  pub aggregate_type : String
  pub aggregate_id : String
  pub event_type : String
  pub event_version : Option ℕ
  pub payload : Object
  pub metadata : Option Object

-- The argument of `repository.create`.
unfoldable pub create : EnqueueEventInput → NewEvent
create input = record {
  aggregate_type = input.aggregate_type;
  aggregate_id = input.aggregate_id;
  event_type = input.event_type;
  event_version = or_default input.event_version 1;
  payload = input.payload;
  metadata = or_default input.metadata end;
  published_at = none;
  attempts = 0;
  last_error = none;
}

-- `manager` is the `save` of a transaction's repository, if the caller has one.
unfoldable pub enqueue :
    (S : Services)
    → EnqueueEventInput
    → Option (NewEvent → Exec S.World OutboxEvent)
    → Exec S.World OutboxEvent
unfolding create
enqueue S input manager = (or_default manager S.save) (create input)
