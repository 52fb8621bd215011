-- ===== src/Outbox/Pipeline.antt =====
-- From the publisher to the consumer: the bodies of the messages that `publish` sends are what
-- `process` reads. `JSON.stringify` is a parameter, and so is the broker between the two.
pub mod Handled
pub mod EndToEnd
pub mod Deployed
pub mod Kafka
use autospace_parking.Prelude.{String, ◌≡◌, true}
use autospace_parking.Js.Exec.{resolved}
use autospace_parking.Js.Text.{truthy}
use autospace_parking.Js.Json.{Object, obj}
use autospace_parking.Js.Json.Plain.{IsPlainObject}
use autospace_parking.Outbox.Entity.{OutboxEvent}
use autospace_parking.Outbox.Publisher.Topic.{Environment}
use autospace_parking.Outbox.Publisher.Envelope.{message}
use autospace_parking.Outbox.Consumer.Ports.{Services}

-- `JSON.stringify`, and that `JSON.parse` undoes it.
pub record Wire (S : Services) : Type 0 where
  pub stringify : Object → S.Body
  pub parse-stringify : (o : Object) → IsPlainObject o → S.parse (stringify o) ≡ resolved (obj o)

unfoldable pub body : (S : Services) → Wire S → Environment → OutboxEvent → S.Body
unfolding message
body S J env event = J.stringify (message env event).value

-- An event with an id and a type, whose payload and metadata are plain JSON, as `jsonb` columns are.
pub record IsSound (e : OutboxEvent) : Type 0 where
  pub id_nonempty : truthy e.id ≡ true
  pub type_nonempty : truthy e.event_type ≡ true
  pub payload : IsPlainObject e.payload
  pub metadata : IsPlainObject e.metadata
