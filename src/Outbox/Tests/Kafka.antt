-- ===== src/Outbox/Tests/Kafka.antt =====
-- The relay with the Kafka publisher, on a broker in memory.
use autospace_parking.Prelude.{
  inl, inr, String, ◌≡◌, refl, ap, Bool, true, false, not, Option, some, List, [], ◌∷◌, ◌++◌, ◌==◌,
  if◌then◌else◌, arith, Bool-cases, count_if,
}
use mathlib.Core.List.{Memᴰ}
use autospace_parking.Js.Exec.{error, resolved, rejected}
use autospace_parking.Js.Json.{Json, obj}
use autospace_parking.Outbox.Memory as Rows
use autospace_parking.Outbox.Memory.Lawful as Rows_lawful
use autospace_parking.Outbox.Relay.{
  unpublished_query, publish_batch, relay_loop, deliver, mark_published, record_failure,
}
use autospace_parking.Outbox.Relay.Batches.{batches}
use autospace_parking.Outbox.Consumer.Once.{is_event, consume_all}
use autospace_parking.Outbox.Publisher.Envelope.{Message, message}
use autospace_parking.Outbox.Publisher.Kafka.{
  Producer, IsProducer, connect_producer, send_event, publish_event, kafka_at, with_kafka,
}
use autospace_parking.Outbox.Publisher.Kafka.Records.{KafkaAccepts}
use autospace_parking.Outbox.Pipeline.Kafka.{kafka_handled}
use autospace_parking.Outbox.Tests.Relay.{
  accepts, request, room_in_b, both_wait, enqueued, enqueue_run,
}
use autospace_parking.Outbox.Tests.Interleaving.{sent_a, sent_b}
use autospace_parking.Outbox.Tests.Pipeline.{
  wire, memory-LooksUp, topics, enqueued-IsSound, two_rows, begun,
}
use autospace_parking.Outbox.Tests.Consumer as Ledger

-- A broker that refuses the messages with some keys.
abbrev producer : (String → Bool) → Producer
producer refuses = record {
  Broker = List Message;
  open_connection = λ b. (resolved tt, b);
  send = λ m b.
      if refuses m.key
      then (rejected (error "KafkaJSError" "refused"), b)
      else (resolved tt, b ++ m ∷ []);
  takes = λ m b. not (refuses m.key);
  records = λ b. b;
}

producer-IsProducer : (refuses : String → Bool) → IsProducer (producer refuses)
producer-IsProducer refuses = record {
  records-open = λ b. refl;
  records-send = λ m b. elim (Bool-cases (refuses m.key)) [ inl e ↦ rw e refl | inr e ↦ rw e refl ];
  takes-send = λ m b sent. elim (Bool-cases (refuses m.key)) [
    | inl e ↦ ground (arith, sent, e)
    | inr e ↦ rw e refl
  ];
}

abbrev never : String → Bool
never key = false

never-KafkaAccepts : KafkaAccepts (producer never)
never-KafkaAccepts = record { open_connection = λ b. refl; send = λ m b. refl }

abbrev refuses_l2 : String → Bool
refuses_l2 key = key == "l2"

batch_run :
    (publish_batch
      (with_kafka (Rows.memory accepts) (producer never) topics)
      (both_wait, kafka_at (producer never) false [])).1.1
    ≡ record {
      connected = true;
      broker = message topics sent_b ∷ message topics sent_a ∷ [];
      log = sent_b ∷ sent_a ∷ [];
    }
unfolding publish_batch relay_loop deliver mark_published record_failure unpublished_query
    publish_event connect_producer send_event
batch_run = refl

abbrev values : List Message → List (Option Json)
values [] = []
values (m ∷ ms) = some (obj m.value) ∷ values ms

values-all : (m : Message) (ms : List Message) → Memᴰ m ms → Memᴰ (some (obj m.value)) (values ms)
values-all m [] h = elim h [ ]
values-all m (x ∷ ms) (Memᴰ.head e) = Memᴰ.head (ap (λ y. some (obj y.value)) e)
values-all m (x ∷ ms) (Memᴰ.tail h) = Memᴰ.tail (values-all m ms h)

abbrev in_log : List Message
in_log =
    (batches (with_kafka (Rows.memory accepts) (producer never) topics) 2
      (begun, kafka_at (producer never) false [])).1.broker

abbrev handled : Ledger.Memory
handled =
    consume_all Ledger.memory Ledger.memory-IsLawful Ledger.settings (values in_log) Ledger.empty

kafka_handled_example : count_if (is_event "b") handled.calls ≡ 1
kafka_handled_example =
    kafka_handled (Rows.memory accepts) (producer never) Ledger.memory Ledger.memory-IsLawful wire
      (Rows_lawful.memory-IsLawful accepts) (producer-IsProducer never)
      (Rows.memory-DatabaseAnswers accepts) never-KafkaAccepts (λ v j. refl) Ledger.memory-Reliable
      memory-LooksUp topics Ledger.settings request room_in_b [] false enqueued ("a" ∷ "b" ∷ []) 2
      (values in_log) Ledger.empty enqueue_run enqueued-IsSound (two_rows begun) (omega arith)
      (λ m h. values-all m in_log h) refl
