-- ===== src/Outbox/Publisher/Kafka/Lawful.antt =====
-- The publisher against what the relay relies on.
use autospace_parking.Prelude.{◌≡◌, refl, ap, ◌∙◌, ◌⊎◌, inl, inr, List, [], ◌∷◌, ◌++◌, Bool-cases}
use autospace_parking.Js.Exec.{Outcome, Thrown, resolved, rejected}
use autospace_parking.Js.Exec.Keeps.{Outcome-cases}
use autospace_parking.Outbox.Entity.{OutboxEvent}
use autospace_parking.Outbox.Services.{Services, IsLawful}
use autospace_parking.Outbox.Publisher.Topic.{Environment}
use autospace_parking.Outbox.Publisher.Envelope.{message}
use autospace_parking.Outbox.Publisher.Kafka.{
  Producer, IsProducer, Kafka, connect_producer, send_event, publish_event, with_kafka,
}

module _ (K : Producer) (env : Environment) where
  -- The send follows a connection that stands.
  pub publish_connected :
      (e : OutboxEvent) (k : Kafka K)
      → (connect_producer K k).0 ≡ resolved tt
      → publish_event K env e k ≡ send_event K env e (connect_producer K k).1
  unfolding publish_event
  publish_connected e k connected = rw connected refl

  pub publish_refused :
      (e : OutboxEvent) (k : Kafka K) (t : Thrown)
      → (connect_producer K k).0 ≡ rejected t
      → publish_event K env e k ≡ (rejected t, (connect_producer K k).1)
  unfolding publish_event
  publish_refused e k t refused = rw refused refl

  log-connect : (k : Kafka K) → (connect_producer K k).1.log ≡ k.log
  unfolding connect_producer
  log-connect k = elim (Bool-cases k.connected) [
    | inl stands ↦ rw stands refl
    | inr absent ↦ elim (Outcome-cases (K.open_connection k.broker).0) [
      | inl (_, done) ↦ rw (absent, done) refl
      | inr (t, failed) ↦ rw (absent, failed) refl
    ]
  ]

  log-send :
      (e : OutboxEvent) (k : Kafka K)
      → ((send_event K env e k).1.log ≡ k.log) ⊎ ((send_event K env e k).1.log ≡ k.log ++ e ∷ [])
  unfolding send_event
  log-send e k = elim (Bool-cases (K.takes (message env e) k.broker)) [
    | inl taken ↦ inr (rw taken refl)
    | inr lost ↦ inl (rw lost refl)
  ]

  log-send_resolved :
      IsProducer K
      → (e : OutboxEvent) (k : Kafka K) → (send_event K env e k).0 ≡ resolved tt
      → (send_event K env e k).1.log ≡ k.log ++ e ∷ []
  unfolding send_event
  log-send_resolved M e k done = rw (M.takes-send (message env e) k.broker done) refl

  log-publish :
      (e : OutboxEvent) (k : Kafka K)
      → ((publish_event K env e k).1.log ≡ k.log)
        ⊎ ((publish_event K env e k).1.log ≡ k.log ++ e ∷ [])
  log-publish e k =
      let same = log-connect k in
      elim (Outcome-cases (connect_producer K k).0) [
        | inr (t, refused) ↦ inl (rw (publish_refused e k t refused) same)
        | inl (_, connected) ↦ elim (log-send e (connect_producer K k).1) [
          | inl kept ↦ inl (rw (publish_connected e k connected) (kept ∙ same))
          | inr more ↦ inr (
              rw (publish_connected e k connected)
                (more ∙ ap (λ (l : List OutboxEvent). l ++ e ∷ []) same))
        ]
      ]

  log-publish_resolved :
      IsProducer K
      → (e : OutboxEvent) (k : Kafka K) → (publish_event K env e k).0 ≡ resolved tt
      → (publish_event K env e k).1.log ≡ k.log ++ e ∷ []
  log-publish_resolved M e k done = elim (Outcome-cases (connect_producer K k).0) [
    | inr (t, refused) ↦
        absurd (
          cc (done, ap (λ (o : Outcome (Unit {0}) × Kafka K). o.0) (publish_refused e k t refused)))
    | inl (_, connected) ↦
        let sends = publish_connected e k connected in
        let sent = log-send_resolved M e (connect_producer K k).1 (rw sends at done) in
        rw sends (sent ∙ ap (λ (l : List OutboxEvent). l ++ e ∷ []) (log-connect k))
  ]

  module _ (S : Services) (L : IsLawful S) (M : IsProducer K) where
    -- With the Kafka publisher in place of the one that it has, what the outbox relies on still
    -- holds of the database and the publisher together, if KafkaJS does what it documents: a
    -- publish that returns has sent the event, one that throws may or may not have, and no publish
    -- changes a row.
    pub with_kafka-IsLawful : IsLawful (with_kafka S K env)
    with_kafka-IsLawful = record {
      find-id = λ w j e row. L.find-id w.0 j e row;
      get_many-IsSelection = λ q w es selected.
          let s = L.get_many-IsSelection q w.0 es selected in
          record {
            rows = s.rows;
            distinct = s.distinct;
            ordered = s.ordered;
            bounded = s.bounded;
            complete = s.complete;
          };
      find-get_many = λ q w j. L.find-get_many q w.0 j;
      locked-get_many = λ q w j. L.locked-get_many q w.0 j;
      delivered-get_many = λ q w. refl;
      find-save = λ n w e saved. L.find-save n w.0 e saved;
      find-save_rejected = λ n w t lost j. L.find-save_rejected n w.0 t lost j;
      delivered-save = λ n w. refl;
      find-update = λ id p w j. L.find-update id p w.0 j;
      find-increment = λ id n w j. L.find-increment id n w.0 j;
      delivered-update = λ id p w. refl;
      delivered-increment = λ id n w. refl;
      find-publish = λ e w j. refl;
      delivered-publish = λ e w done. log-publish_resolved M e w.1 done;
      delivered-publish_rejected = λ e w. log-publish e w.1;
    }
