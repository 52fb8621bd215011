-- ===== src/Outbox/Pipeline/Kafka.antt =====
-- From `enqueue`, by way of the relay, the Kafka publisher and the log of the broker, to the handler.
use autospace_parking.Prelude.{
  ℕ, ◌≤◌, ◌≡◌, ◌∙◌, sym, subst, String, Bool, true, false, length, arith, eq_iff, none, some,
  Option, List, count_if, Memᴰ-append_right,
}
use mathlib.Core.List.{Memᴰ, map}
use autospace_parking.Js.Exec.{resolved}
use autospace_parking.Outbox.Entity.{OutboxEvent}
use autospace_parking.Outbox.Services as Producer
use autospace_parking.Outbox.Service.{EnqueueEventInput, enqueue}
use autospace_parking.Outbox.Service.Delivery.{enqueue_lem}
use autospace_parking.Outbox.Relay.Batches.{batches}
use autospace_parking.Outbox.Relay.Waiting.{is_pending}
use autospace_parking.Outbox.Relay.Progress.{DatabaseAnswers}
use autospace_parking.Outbox.Publisher.Topic as Topic
use autospace_parking.Outbox.Publisher.Envelope.{Message, message}
use autospace_parking.Outbox.Publisher.Kafka as Kafka
use autospace_parking.Outbox.Publisher.Kafka.Records.{KafkaAccepts, kafka_delivers}
use autospace_parking.Outbox.Consumer.Ports.{Services, IsLawful}
use autospace_parking.Outbox.Consumer.{Environment}
use autospace_parking.Outbox.Consumer.Once.{is_event, Reliable, consume_all, HandledOnce}
use autospace_parking.Outbox.Pipeline.{Wire, body, IsSound}
use autospace_parking.Outbox.Pipeline.Handled.{LooksUp, sent_handled}

module _ (P : Producer.Services) (K : Kafka.Producer) (S : Services) (L : IsLawful S)
    (J : Wire S) where
  -- The bodies of all messages in the log of the broker are delivered, in any order and however
  -- often, among others.
  abbrev pub DeliversLog : K.Broker → List (Option S.Body) → Type 0
  DeliversLog broker ms =
      (m : Message) → Memᴰ m (K.records broker) → Memᴰ (some (J.stringify m.value)) ms

  -- Where the database accepts every call, KafkaJS opens connections and takes messages as it
  -- documents and refuses none, no other transaction holds a row, the handler never throws, the
  -- look-ups and new inserts of the ledger never fail and parsing undoes printing: after as many
  -- batches of a relay with the Kafka publisher as there are ids of rows that wait, or more, and
  -- once messages have been processed that hold the value of every message in the log of the
  -- broker, in any order and however often, an event that was enqueued and is sound has been
  -- handled exactly once, if the consumer had handled it once or not at all as its ledger says.
  pub kafka_handled :
      (M : Producer.IsLawful P) (N : Kafka.IsProducer K) (D : DatabaseAnswers P)
      (A : KafkaAccepts K)
      → ((v : P.World) (j : String) → P.locked v j ≡ false)
      → Reliable S L
      → LooksUp S L
      → (topics : Topic.Environment) (env : Environment) (input : EnqueueEventInput) (v : P.World)
        (broker : K.Broker) (connected : Bool) (e : OutboxEvent) (ids : List String) (n : ℕ)
        (ms : List (Option S.Body)) (w : S.World)
      → (enqueue P input none v).0 ≡ resolved e
      → IsSound e
      → ((j : String) → is_pending (P.find (enqueue P input none v).1 j) ≡ true → Memᴰ j ids)
      → length ids ≤ n
      → DeliversLog
          (batches
            (Kafka.with_kafka P K topics)
            n
            ((enqueue P input none v).1, Kafka.kafka_at K connected broker)).1.broker
          ms
      → HandledOnce S L e.id w
      → count_if (is_event e.id) (S.handled (consume_all S L env ms w)) ≡ 1
  unfolding body
  kafka_handled M N D A unlocked R U topics env input v broker connected e ids n ms w enqueued sound
        under many all h =
      let (_, pending, _, _, _, rows) = enqueue_lem P M input v e enqueued in
      let row = rows e.id ∙ ground (arith, eq_iff e.id e.id) in
      let (log, sent) =
        kafka_delivers P K topics M N D A unlocked ids n (enqueue P input none v).1 broker connected
          under many e row pending in
      let k = Kafka.kafka_at K connected broker in
      let after = batches (Kafka.with_kafka P K topics) n ((enqueue P input none v).1, k) in
      let listed =
        subst (λ (l : List Message). Memᴰ (message topics e) l) (sym log)
          (Memᴰ-append_right (K.records broker) (map (message topics) after.1.log) sent) in
      sent_handled S L R U J topics env e ms w sound (all (message topics e) listed) h
