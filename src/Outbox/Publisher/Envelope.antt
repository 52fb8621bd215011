-- ===== src/Outbox/Publisher/Envelope.antt =====
-- The message that `publish` sends, and the JSON object in it.
use autospace_parking.Prelude.{String, false}
use autospace_parking.Js.Json.{str, num, obj, Object, end, field}
use autospace_parking.Js.Number.{integer}
use autospace_parking.Js.Date.{to_iso_string}
use autospace_parking.Outbox.Entity.{OutboxEvent}
use autospace_parking.Outbox.Publisher.Topic.{Environment, topic_for}

pub record Message : Type 0 where
  pub topic : String
  pub key : String
  pub value : Object

unfoldable pub envelope : OutboxEvent → Object
envelope event = field "id" (str event.id) (
    field "type" (str event.event_type) (
      field "version" (num (integer false event.event_version)) (
        field "occurredAt" (str (to_iso_string event.occurred_at)) (
          field "aggregateType" (str event.aggregate_type) (
            field "aggregateId" (str event.aggregate_id)
              (field "payload" (obj event.payload) (field "metadata" (obj event.metadata) end)))))))

-- The argument of `producer.send`, its value before `JSON.stringify`.
unfoldable pub message : Environment → OutboxEvent → Message
unfolding envelope topic_for
message env event = record {
  topic = topic_for env event;
  key = event.aggregate_id;
  value = envelope event;
}
