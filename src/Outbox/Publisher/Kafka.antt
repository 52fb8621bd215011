-- ===== src/Outbox/Publisher/Kafka.antt =====
-- kafka-outbox.publisher.ts as the relay meets it: `publish` by way of `connect` and `send` of a
-- KafkaJS producer, which is a parameter. The sends of one relay come one after another.
pub mod Lawful
pub mod Records
use autospace_parking.Prelude.{◌≡◌, Bool, true, false, List, [], ◌∷◌, ◌++◌, if◌then◌else◌}
use autospace_parking.Js.Exec.{Exec, Outcome, resolved, rejected, ◌>>=◌, ◌>>◌}
use autospace_parking.Outbox.Entity.{OutboxEvent}
use autospace_parking.Outbox.Services.{Services}
use autospace_parking.Outbox.Publisher.Topic.{Environment}
use autospace_parking.Outbox.Publisher.Envelope.{Message, message}

pub record Producer : Type 1 where
  pub Broker : Type 0
  -- `producer.connect()` and `producer.send(…)`
  pub open_connection : Exec Broker (Unit {0})
  pub send : Message → Exec Broker (Unit {0})
  -- Views: whether a send reaches the log of the broker, which the sender of one that fails does not
  -- learn; and the messages in the log, in order.
  pub takes : Message → Broker → Bool
  pub records : Broker → List Message

module _ (K : Producer) where
  -- What the documentation of KafkaJS says.
  pub record IsProducer : Type 0 where
    pub records-open : (b : K.Broker) → K.records (K.open_connection b).1 ≡ K.records b
    pub records-send :
        (m : Message) (b : K.Broker)
        → K.records (K.send m b).1 ≡ (if K.takes m b then K.records b ++ m ∷ [] else K.records b)
    pub takes-send :
        (m : Message) (b : K.Broker) → (K.send m b).0 ≡ resolved tt → K.takes m b ≡ true

  -- Whether `this.connection` stands, the broker, and the events whose messages it has taken, which
  -- is no field of the class.
  pub record Kafka : Type 0 where
    pub connected : Bool
    pub broker : K.Broker
    pub log : List OutboxEvent

  -- A publisher whose sends have not begun.
  abbrev pub kafka_at : Bool → K.Broker → Kafka
  kafka_at connected broker = record { connected = connected; broker = broker; log = [] }

  abbrev opened : Outcome (Unit {0}) → K.Broker → Kafka → Outcome (Unit {0}) × Kafka
  opened (resolved _) b k = (resolved tt, record k { connected = true; broker = b })
  opened (rejected thrown) b k = (rejected thrown, record k { connected = false; broker = b })

  -- `connect`, which clears the field where the promise is rejected.
  unfoldable pub connect_producer : Exec Kafka (Unit {0})
  connect_producer k =
      let (r, b) = K.open_connection k.broker in
      if k.connected then (resolved tt, k) else opened r b k

  unfoldable pub send_event : Environment → OutboxEvent → Exec Kafka (Unit {0})
  send_event env event k =
      let m = message env event in
      let (r, b) = K.send m k.broker in
      (r, record k { broker = b; log = if K.takes m k.broker then k.log ++ event ∷ [] else k.log })

  unfoldable pub publish_event : Environment → OutboxEvent → Exec Kafka (Unit {0})
  publish_event env event = do connect_producer; send_event env event

-- A statement to the database.
abbrev pub on_database : {A B X : Type 0} → Exec A X → Exec (A × B) X
on_database m w = let (r, a) = m w.0 in (r, (a, w.1))

abbrev pub on_kafka : {A B X : Type 0} → Exec B X → Exec (A × B) X
on_kafka m w = let (r, b) = m w.1 in (r, (w.0, b))

-- The database of `S`, with this publisher.
abbrev pub with_kafka : (S : Services) (K : Producer) → Environment → Services
with_kafka S K env = record {
  World = S.World × Kafka K;
  save = λ n. on_database (S.save n);
  get_many = λ q. on_database (S.get_many q);
  update = λ id p. on_database (S.update id p);
  increment = λ id n. on_database (S.increment id n);
  publish = λ e. on_kafka (publish_event K env e);
  now = λ w. S.now w.0;
  find = λ w j. S.find w.0 j;
  locked = λ w j. S.locked w.0 j;
  delivered = λ w. w.1.log;
}
