-- ===== src/Outbox/Publisher/Topic.antt =====
-- The publisher's settings: its brokers, and the topic of each event.
use autospace_parking.Prelude.{
  String, ◌≡◌, ◌≢◌, refl, inl, inr, Bool-cases, true, Option, none, some, List, arith,
  if◌then◌else◌, All, Option-cases,
}
use autospace_parking.Js.Text.{truthy, or_default, items}
use autospace_parking.Js.Text.Laws.{IsItem, items-IsItem}
use autospace_parking.Js.Json.{Json, str, get}
use autospace_parking.Outbox.Entity.{OutboxEvent}

-- `KAFKA_BROKERS`, `KAFKA_CLIENT_ID` and `KAFKA_DEFAULT_TOPIC`.
pub record Environment : Type 0 where
  pub brokers : Option String
  pub client_id : Option String
  pub default_topic : Option String

-- What the Kafka client is made with.
pub record ClientOptions : Type 0 where
  pub client_id : String
  pub brokers : List String

unfoldable pub client_options : Environment → ClientOptions
client_options env = record {
  client_id = or_default env.client_id "autospace-api-outbox-relay";
  brokers = items (or_default env.brokers "localhost:9092");
}

named_topic : Json → Option String
named_topic (str topic) = if truthy topic then some topic else none
named_topic _ = none

unfoldable pub topic_for : Environment → OutboxEvent → String
unfolding named_topic
topic_for env event =
    or_default (named_topic (get "topic" event.metadata))
      (or_default env.default_topic "platform.events.v1")

-- No broker of the Kafka client is empty, has a space at either end, or has a comma in it.
pub client_options-IsItem : (env : Environment) → All IsItem (client_options env).brokers
unfolding client_options
client_options-IsItem env = items-IsItem (or_default env.brokers "localhost:9092")

named_topic-truthy : (v : Json) (topic : String) → named_topic v ≡ some topic → truthy topic ≡ true
unfolding named_topic
named_topic-truthy (str s) topic h = elim (Bool-cases (truthy s)) [
  | inl e ↦ let same : s ≡ topic = ground arith in rw (← same) e
  | inr e ↦ absurd (ground arith)
]
named_topic-truthy _ topic h = cc

default_truthy :
    (o : Option String) → o ≢ some "" → truthy (or_default o "platform.events.v1") ≡ true
default_truthy none h = refl
default_truthy (some String.[]) h = absurd (h refl)
default_truthy (some (String.◌∷◌ c s)) h = refl

-- The topic of an event is never empty unless KAFKA_DEFAULT_TOPIC is set to the empty text, and a
-- topic named in its metadata is taken whatever the setting.
topic_for_lem :
    (env : Environment) (event : OutboxEvent)
    → (env.default_topic ≢ some "" → truthy (topic_for env event) ≡ true)
      × ((topic : String)
          → get "topic" event.metadata ≡ str topic
          → truthy topic ≡ true
          → topic_for env event ≡ topic)
unfolding topic_for
topic_for_lem env event = (
  λ set. elim (Option-cases (named_topic (get "topic" event.metadata))) [
    | inl unnamed ↦ rw unnamed (default_truthy env.default_topic set)
    | inr (topic, named) ↦ rw named (named_topic-truthy _ topic named)
  ],
  λ topic named nonempty. rw (named, nonempty),
)
