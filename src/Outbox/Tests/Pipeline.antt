-- ===== src/Outbox/Tests/Pipeline.antt =====
-- An event from enqueue to the handler, with every message delivered twice.
use autospace_parking.Prelude.{
  ◌≡◌, refl, ap, inl, inr, ◌++◌, Memᴰ-append_left, count_if, String, Option, none, some, List, [],
  ◌∷◌, true, arith, ◌==◌, eq_iff, Bool-cases,
}
use autospace_parking.Js.Json.{Json, obj}
use autospace_parking.Js.Json.Plain.{IsPlain}
use autospace_parking.Outbox.Memory as Rows
use autospace_parking.Outbox.Memory.Lawful as Rows_lawful
use autospace_parking.Outbox.Relay.Waiting.{is_pending}
use autospace_parking.Outbox.Relay.Batches.{batches}
use autospace_parking.Outbox.Service.{enqueue}
use autospace_parking.Outbox.Publisher.Topic as Topic
use autospace_parking.Outbox.Entity.{OutboxEvent}
use autospace_parking.Outbox.Consumer.Once.{is_event, consume_all}
use mathlib.Core.List.{Memᴰ}
use autospace_parking.Outbox.Pipeline.{body, Wire, IsSound}
use autospace_parking.Outbox.Pipeline.Handled.{LooksUp}
use autospace_parking.Outbox.Pipeline.EndToEnd.{enqueue_handled}
use autospace_parking.Outbox.Tests.Relay.{accepts, request, room_in_b, enqueued, enqueue_run}
use autospace_parking.Outbox.Tests.Consumer.{
  empty, memory, memory-IsLawful, memory-Reliable, settings,
}

abbrev pub wire : Wire memory
wire = record { stringify = obj; parse-stringify = λ o plain. refl }

pub memory-LooksUp : LooksUp memory memory-IsLawful
memory-LooksUp = record { answer = λ id w. (w.rows id, refl) }

abbrev pub topics : Topic.Environment
topics = record { brokers = none; client_id = none; default_topic = none }

pub enqueued-IsSound : IsSound enqueued
unfolding IsPlain
enqueued-IsSound = record { id_nonempty = refl; type_nonempty = refl; payload = tt; metadata = tt }

abbrev pub bodies : List OutboxEvent → List (Option Json)
bodies [] = []
bodies (d ∷ ds) = some (body memory wire topics d) ∷ bodies ds

pub bodies-all :
    (d : OutboxEvent) (ds : List OutboxEvent)
    → Memᴰ d ds
    → Memᴰ (some (body memory wire topics d)) (bodies ds)
bodies-all d [] m = elim m [ ]
bodies-all d (x ∷ ds) (Memᴰ.head e) =
    Memᴰ.head (ap (λ event. some (body memory wire topics event)) e)
bodies-all d (x ∷ ds) (Memᴰ.tail m) = Memᴰ.tail (bodies-all d ds m)

-- The table has two rows.
pub two_rows :
    (w : Rows.Memory) (j : String) → is_pending (Rows.find w j) ≡ true → Memᴰ j ("a" ∷ "b" ∷ [])
two_rows w j waits = elim (Bool-cases (j == "a")) [
  | inl is_a ↦ Memᴰ.head ((eq_iff j "a").0 is_a)
  | inr not_a ↦ elim (Bool-cases (j == "b")) [
    | inl is_b ↦ Memᴰ.tail (Memᴰ.head ((eq_iff j "b").0 is_b))
    | inr not_b ↦ absurd (ground (arith, waits, not_a, not_b))
  ]
]

abbrev pub begun : Rows.Memory
begun = (enqueue (Rows.memory accepts) request none room_in_b).1

abbrev after : Rows.Memory
after = batches (Rows.memory accepts) 2 begun

-- Every message twice.
abbrev messages : List (Option Json)
messages = bodies after.sent ++ bodies after.sent

enqueue_handled_example :
    count_if (is_event "b") (consume_all memory memory-IsLawful settings messages empty).calls ≡ 1
enqueue_handled_example =
    enqueue_handled (Rows.memory accepts) memory memory-IsLawful wire
      (Rows_lawful.memory-IsLawful accepts) (Rows.memory-DatabaseAnswers accepts)
      Rows.memory-BrokerAccepts (λ w j. refl) memory-Reliable memory-LooksUp topics settings request
      room_in_b enqueued ("a" ∷ "b" ∷ []) 2 messages empty enqueue_run enqueued-IsSound
      (two_rows begun) (omega arith)
      (λ d m. Memᴰ-append_left (bodies after.sent) (bodies after.sent) (bodies-all d after.sent m))
      refl
