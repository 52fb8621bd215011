-- ===== src/Outbox/Publisher/Kafka/Records.antt =====
-- The relay with this publisher: what the broker has in its log.
use autospace_parking.Prelude.{
  ℕ, zero, suc, ◌≤◌, String, ◌≡◌, refl, sym, ap, ◌∙◌, inl, inr, Bool, true, false, some, List, [],
  ◌∷◌, ◌++◌, Bool-cases, length,
}
use mathlib.Core.List.{Memᴰ, map, append-nil, append_assoc, map-append}
use autospace_parking.Js.Exec.{Thrown, resolved}
use autospace_parking.Js.Exec.Keeps.{Keeps, Keeps-bind, keeps_rules, Outcome-cases}
use autospace_parking.Outbox.Entity.{OutboxEvent, Patch}
use autospace_parking.Outbox.Services.{Services, IsLawful, is_unpublished}
use autospace_parking.Outbox.Relay.{
  mark_published, record_failure, deliver, relay_loop, publish_batch,
}
use autospace_parking.Outbox.Relay.Progress.{DatabaseAnswers, BrokerAccepts}
use autospace_parking.Outbox.Relay.Batches.{batches, batches_deliver}
use autospace_parking.Outbox.Relay.Waiting.{is_pending}
use autospace_parking.Outbox.Publisher.Topic.{Environment}
use autospace_parking.Outbox.Publisher.Envelope.{Message, message}
use autospace_parking.Outbox.Publisher.Kafka.{
  Producer, IsProducer, Kafka, kafka_at, connect_producer, send_event, publish_event, with_kafka,
}
use autospace_parking.Outbox.Publisher.Kafka.Lawful.{
  publish_connected, publish_refused, with_kafka-IsLawful,
}

Memᴰ-map : {A B : Type 0} (f : A → B) (a : A) (xs : List A) → Memᴰ a xs → Memᴰ (f a) (map f xs)
Memᴰ-map f a [] m = elim m [ ]
Memᴰ-map f a (x ∷ xs) (Memᴰ.head e) = Memᴰ.head (ap f e)
Memᴰ-map f a (x ∷ xs) (Memᴰ.tail m) = Memᴰ.tail (Memᴰ-map f a xs m)

module _ (K : Producer) (M : IsProducer K) (env : Environment) (before : List Message) where
  -- The log of the broker has grown by the messages of the events that it has taken.
  abbrev pub IsMirrored : Kafka K → Type 0
  IsMirrored k = K.records k.broker ≡ before ++ map (message env) k.log

  connect-IsMirrored : (k : Kafka K) → IsMirrored k → IsMirrored (connect_producer K k).1
  unfolding connect_producer
  connect-IsMirrored k h =
      let same = M.records-open k.broker in
      elim (Bool-cases k.connected) [
        | inl stands ↦ rw stands h
        | inr absent ↦ elim (Outcome-cases (K.open_connection k.broker).0) [
          | inl (_, done) ↦ rw (absent, done) (same ∙ h)
          | inr (t, failed) ↦ rw (absent, failed) (same ∙ h)
        ]
      ]

  send-IsMirrored :
      (e : OutboxEvent) (k : Kafka K) → IsMirrored k → IsMirrored (send_event K env e k).1
  unfolding send_event
  send-IsMirrored e k h =
      let m = message env e in
      let sent = M.records-send m k.broker in
      elim (Bool-cases (K.takes m k.broker)) [
        | inr lost ↦ rw lost ((sent ∙ rw lost refl) ∙ h)
        | inl taken ↦
            let grown : before ++ map (message env) (k.log ++ e ∷ [])
                ≡ (before ++ map (message env) k.log) ++ m ∷ [] =
              simp (map-append, append_assoc) in
            rw taken
              ((sent ∙ rw taken refl) ∙ (ap (λ (l : List Message). l ++ m ∷ []) h ∙ sym grown))
      ]

  publish-IsMirrored :
      (e : OutboxEvent) (k : Kafka K) → IsMirrored k → IsMirrored (publish_event K env e k).1
  publish-IsMirrored e k h =
      let connected = connect-IsMirrored k h in
      elim (Outcome-cases (connect_producer K k).0) [
        | inr (t, refused) ↦ rw (publish_refused K env e k t refused) connected
        | inl (_, stands) ↦
            rw (publish_connected K env e k stands)
              (send-IsMirrored e (connect_producer K k).1 connected)
      ]

  module _ (S : Services) where
    -- The database and this publisher.
    abbrev P : Services
    P = with_kafka S K env

    abbrev pub Mirrors : P.World → Type 0
    Mirrors w = IsMirrored w.1

    update-Mirrors : (id : String) (p : Patch) → Keeps Mirrors (P.update id p)
    update-Mirrors id p = record { at = λ w h. h }

    increment-Mirrors : (id : String) (n : ℕ) → Keeps Mirrors (P.increment id n)
    increment-Mirrors id n = record { at = λ w h. h }

    publish-Mirrors : (e : OutboxEvent) → Keeps Mirrors (P.publish e)
    publish-Mirrors e = record { at = λ w h. publish-IsMirrored e w.1 h }

    mark_published-Mirrors : (e : OutboxEvent) → Keeps Mirrors (mark_published P e)
    unfolding mark_published
    mark_published-Mirrors e = record { at = λ w h. h }

    record_failure-Mirrors : (e : OutboxEvent) (t : Thrown) → Keeps Mirrors (record_failure P e t)
    unfolding record_failure
    record_failure-Mirrors e t = search (keeps_rules, update-Mirrors, increment-Mirrors)

    deliver-Mirrors : (e : OutboxEvent) → Keeps Mirrors (deliver P e)
    unfolding deliver
    deliver-Mirrors e =
        search (keeps_rules, publish-Mirrors, mark_published-Mirrors, record_failure-Mirrors) depth
          8

    relay_loop-Mirrors : (es : List OutboxEvent) (n : ℕ) → Keeps Mirrors (relay_loop P es n)
    unfolding relay_loop
    relay_loop-Mirrors [] n = search keeps_rules
    relay_loop-Mirrors (e ∷ es) n =
        search (keeps_rules, deliver-Mirrors, λ (m : ℕ). relay_loop-Mirrors es m)

    publish_batch-Mirrors : Keeps Mirrors (publish_batch P)
    unfolding publish_batch
    publish_batch-Mirrors =
        Keeps-bind _ _ (record { at = λ w h. h }) (λ es. relay_loop-Mirrors es 0)

    batches-Mirrors : (n : ℕ) (w : P.World) → Mirrors w → Mirrors (batches P n w)
    unfolding batches
    batches-Mirrors zero w h = h
    batches-Mirrors (suc n) w h =
        batches-Mirrors n (publish_batch P w).1 (publish_batch-Mirrors.at w h)

-- Connections are opened, and sends reach the broker.
pub record KafkaAccepts (K : Producer) : Type 0 where
  pub open_connection : (b : K.Broker) → (K.open_connection b).0 ≡ resolved tt
  pub send : (m : Message) (b : K.Broker) → (K.send m b).0 ≡ resolved tt

module _ (S : Services) (K : Producer) (env : Environment) where
  with_kafka-DatabaseAnswers : DatabaseAnswers S → DatabaseAnswers (with_kafka S K env)
  with_kafka-DatabaseAnswers D = record {
    get_many = λ q. record { from = λ w. (D.get_many q).from w.0 };
    update = λ id p. record { from = λ w. (D.update id p).from w.0 };
    increment = λ id n. record { from = λ w. (D.increment id n).from w.0 };
  }

  connect-accepted : KafkaAccepts K → (k : Kafka K) → (connect_producer K k).0 ≡ resolved tt
  unfolding connect_producer
  connect-accepted A k = elim (Bool-cases k.connected) [
    | inl stands ↦ rw stands refl
    | inr absent ↦ rw (absent, A.open_connection k.broker) refl
  ]

  with_kafka-BrokerAccepts : KafkaAccepts K → BrokerAccepts (with_kafka S K env)
  unfolding send_event
  with_kafka-BrokerAccepts A e w =
      rw (publish_connected K env e w.1 (connect-accepted A w.1))
        (A.send (message env e) (connect_producer K w.1).1.broker)

  -- Where every call is accepted and no other transaction holds a row, enough batches leave in the
  -- log of the broker, after what was there, the messages of the events that it has taken, and among
  -- them that of each event that waited.
  pub kafka_delivers :
      (L : IsLawful S) (M : IsProducer K) (D : DatabaseAnswers S) (A : KafkaAccepts K)
      → ((w : S.World) (j : String) → S.locked w j ≡ false)
      → (ids : List String) (n : ℕ) (db : S.World) (broker : K.Broker) (connected : Bool)
      → ((j : String) → is_pending (S.find db j) ≡ true → Memᴰ j ids)
      → length ids ≤ n
      → (e : OutboxEvent) → S.find db e.id ≡ some e
      → is_unpublished e ≡ true
      → let v = batches (with_kafka S K env) n (db, kafka_at K connected broker) in
        (K.records v.1.broker ≡ K.records broker ++ map (message env) v.1.log)
        × Memᴰ (message env e) (map (message env) v.1.log)
  kafka_delivers L M D A unlocked ids n db broker connected under many e row waits =
      let k = kafka_at K connected broker in
      let P = with_kafka S K env in
      let (_, sent) =
        batches_deliver P (with_kafka-IsLawful K env S L M) (with_kafka-DatabaseAnswers D)
          (with_kafka-BrokerAccepts A) (λ w j. unlocked w.0 j) ids n (db, k) under many in
      (
        batches-Mirrors K M env (K.records broker) S n (db, k)
            (sym (append-nil (K.records broker))),
        Memᴰ-map (message env) e (batches P n (db, k)).1.log (sent e row waits),
      )
