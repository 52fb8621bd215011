-- ===== src/Outbox/Consumer.antt =====
-- kafka-event.consumer.ts: `KafkaEventConsumer`, and the ledger of consumed-event.entity.ts.
pub mod Ports
pub mod Ledger
pub mod Once
pub mod Restored
pub mod Interleaving
use autospace_parking.Prelude.{
  String, ◌<>◌, Bool, true, false, not, ◌||◌, Option, none, some, List, [], ◌∷◌, ◌++◌, ◌==◌,
  if◌then◌else◌,
}
use mathlib.Core.List.{map}
use autospace_parking.Js.Exec.{Exec, Outcome, Thrown, error, pure, lift, throw, ◌>>=◌, ◌>>◌}
use autospace_parking.Js.Text.{truthy, truthy?, or_default, items}
use autospace_parking.Js.Json.{Json, null, obj, undefined, Object, get, as_string}
use autospace_parking.Outbox.Consumer.Ports.{ConsumedEvent, Services}

-- The `KAFKA_…` variables.
pub record Environment : Type 0 where
  pub consumer_group : Option String
  pub brokers : Option String
  pub client_id : Option String
  pub consumer_enabled : Option String
  pub consumer_topics : Option String

pub record ConsumerOptions : Type 0 where
  pub client_id : String
  pub brokers : List String
  pub group_id : String

abbrev pub group_id : Environment → String
group_id env = or_default env.consumer_group "autospace-api-consumer"

-- What the constructor makes the Kafka consumer with.
unfoldable pub consumer_options : Environment → ConsumerOptions
consumer_options env = record {
  client_id = or_default env.client_id "autospace-api-consumer";
  brokers = items (or_default env.brokers "localhost:9092");
  group_id = group_id env;
}

-- The calls that `onModuleInit` makes, in order; a call that throws ends it.
pub data ClientCall : Type 0 where
  warns : ClientCall
  connects : ClientCall
  subscribes : String → Bool → ClientCall
  runs : ClientCall
  disconnects : ClientCall

is_true : Option String → Bool
is_true none = false
is_true (some s) = s == "true"

subscriptions : List String → List ClientCall
subscriptions [] = []
subscriptions (topic ∷ topics) = subscribes topic false ∷ subscriptions topics

start : List String → List ClientCall
start [] = warns ∷ []
start (topic ∷ topics) = connects ∷ (subscriptions (topic ∷ topics) ++ runs ∷ [])

unfoldable pub on_module_init : Environment → List ClientCall
unfolding is_true start subscriptions
on_module_init env =
    if is_true env.consumer_enabled then start (items (or_default env.consumer_topics "")) else []

unfoldable pub on_module_destroy : List ClientCall
on_module_destroy = disconnects ∷ []

-- `event[k]` of what was parsed: `null` has no properties to read, and other values that are no
-- objects have neither `id` nor `type`.
unfoldable pub property : {S : Type 0} → String → Json → Exec S Json
property k null =
    throw (error "TypeError" ("Cannot read properties of null (reading '" <> (k <> "')")))
property k (obj o) = pure (get k o)
property k _ = pure undefined

abbrev pub id_and_type_required : Thrown
id_and_type_required = error "Error" "Kafka event requires id and type"

module _ (S : Services) where
  open S use {World, Body}

  -- The last two steps of `process`.
  unfoldable pub handle_new : String → Json → String → String → Exec World (Unit {0})
  handle_new group event event_id event_type = do
    S.handler event
    S.insert (record { event_id = event_id; event_type = event_type; consumer_group = group })

  unfoldable pub unless_consumed :
      Option ConsumedEvent → Exec World (Unit {0}) → Exec World (Unit {0})
  unless_consumed (some existing) m = pure tt
  unless_consumed none m = m

  -- `process` from the check of the id and the type on.
  unfoldable pub consume : String → Json → Option String → Option String → Exec World (Unit {0})
  consume group event (some event_id) (some event_type) =
      if not (truthy event_id) || not (truthy event_type) then throw id_and_type_required else do
        existing ← S.find_one_by event_id
        unless_consumed existing (handle_new group event event_id event_type)
  consume group event _ _ = throw id_and_type_required

  -- `process` after the parse.
  unfoldable pub read : Environment → Json → Exec World (Unit {0})
  unfolding property
  read env event = do
    id ← property "id" event
    type ← property "type" event
    consume (group_id env) event (as_string id) (as_string type)

  -- `process`. A message with no value is skipped.
  unfoldable pub process : Environment → Option Body → Exec World (Unit {0})
  process env none = pure tt
  process env (some value) = do event ← lift (S.parse value); read env event
