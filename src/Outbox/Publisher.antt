-- ===== src/Outbox/Publisher.antt =====
-- kafka-outbox.publisher.ts: `KafkaOutboxPublisher`. One connection is shared by all sends; the
-- sends of a state wait for it in the order in which they were asked for.
pub mod Topic
pub mod Envelope
pub mod Accounting
pub mod Kafka
use autospace_parking.Prelude.{
  ℕ, ◌+◌, String, Option, none, some, List, [], ◌∷◌, ◌++◌, if◌then◌else◌,
}
use autospace_parking.Js.Exec.{Thrown, Outcome, resolved, rejected}
use autospace_parking.Js.Text.{truthy, or_default, items}
use autospace_parking.Js.Json.{Json, str, Object, get}
use autospace_parking.Outbox.Entity.{OutboxEvent}

-- The promise of `this.connection`, and the events whose `publish` awaits it. A promise that is
-- rejected is taken out of the field by its `catch`, so the field never holds one.
pub data Connection : Type 0 where
  absent pending connected : Connection

pub record Publisher : Type 0 where
  pub connection : Connection
  pub attempts : ℕ
  pub waiting : List OutboxEvent
  pub sent : List OutboxEvent
  pub failed : List OutboxEvent

abbrev pub new_publisher : Publisher
new_publisher = record { connection = absent; attempts = 0; waiting = []; sent = []; failed = [] }

-- `this.connection ??= this.producer.connect()…`
unfoldable pub connect : Publisher → Publisher
connect p = elim p.connection [
  | absent ↦ record p { connection = pending; attempts = p.attempts + 1 }
  | pending ↦ p
  | connected ↦ p
]

-- `publish` up to its first wait; where the connection stands, the event is sent at once.
unfoldable pub publish : OutboxEvent → Publisher → Publisher
unfolding connect
publish event p =
    let q = connect p in
    elim q.connection [
      | connected ↦ record q { sent = q.sent ++ event ∷ [] }
      | _ ↦ record q { waiting = q.waiting ++ event ∷ [] }
    ]

-- The promise of `connect` is fulfilled: every waiting `publish` goes on to send its event.
unfoldable pub connection_opened : Publisher → Publisher
connection_opened p = record p { connection = connected; waiting = []; sent = p.sent ++ p.waiting }

-- It is rejected: the field is cleared, and every waiting `publish` throws.
unfoldable pub connection_failed : Publisher → Publisher
connection_failed p = record p { connection = absent; waiting = []; failed = p.failed ++ p.waiting }

-- What closing the producer comes to: an error is only logged.
pub data Closing : Type 0 where
  not_connected disconnected : Closing
  warned : Thrown → Closing

abbrev closed : Outcome (Unit {0}) → Closing
closed (resolved done) = disconnected
closed (rejected thrown) = warned thrown

abbrev awaited : Outcome (Unit {0}) → Outcome (Unit {0}) → Closing
awaited (resolved done) disconnecting = closed disconnecting
awaited (rejected thrown) disconnecting = warned thrown

-- `onModuleDestroy`, from how the connection and `disconnect` settle.
unfoldable pub on_module_destroy : Publisher → Outcome (Unit {0}) → Outcome (Unit {0}) → Closing
on_module_destroy p connecting disconnecting = elim p.connection [
  | absent ↦ not_connected
  | pending ↦ awaited connecting disconnecting
  | connected ↦ closed disconnecting
]

pub data Call : Type 0 where
  publishes : OutboxEvent → Call
  opens fails : Call

unfoldable pub step : Call → Publisher → Publisher
unfolding publish connection_opened connection_failed
step (publishes event) p = publish event p
step opens p = elim p.connection [ pending ↦ connection_opened p | _ ↦ p ]
step fails p = elim p.connection [ pending ↦ connection_failed p | _ ↦ p ]

unfoldable pub run : List Call → Publisher → Publisher
run [] p = p
run (c ∷ cs) p = run cs (step c p)
