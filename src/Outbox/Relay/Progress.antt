-- ===== src/Outbox/Relay/Progress.antt =====
-- That the relay gets on: with a database that answers, a batch returns whatever the broker does;
-- with a broker that accepts too, it publishes all that waits, fifty rows at a time.
use autospace_parking.Prelude.{
  ℕ, ◌+◌, String, ◌≡◌, sym, ap, ◌∙◌, true, List, [], ◌∷◌, ◌++◌, arith, length,
}
use mathlib.Core.List.{append-nil, append_assoc}
use autospace_parking.Js.Exec.{Thrown, resolved, ◌>>=◌}
use autospace_parking.Js.Exec.Returns.{Returns, Returns-bind, returns_rules}
use autospace_parking.Outbox.Entity.{OutboxEvent, Patch}
use autospace_parking.Outbox.Services.{Services, Query, IsLawful}
use autospace_parking.Outbox.Relay.{
  publication, failure, unpublished_query, mark_published, record_failure, deliver, relay_loop,
  publish_batch,
}

module _ (S : Services) where
  -- No statement to the database fails.
  pub record DatabaseAnswers : Type 0 where
    pub get_many : (q : Query) → Returns (S.get_many q)
    pub update : (id : String) (p : Patch) → Returns (S.update id p)
    pub increment : (id : String) (n : ℕ) → Returns (S.increment id n)

  -- Every event is accepted.
  abbrev pub BrokerAccepts : Type 0
  BrokerAccepts = (e : OutboxEvent) (w : S.World) → (S.publish e w).0 ≡ resolved tt

  module _ (D : DatabaseAnswers) where
    record_failure-Returns : (e : OutboxEvent) (t : Thrown) → Returns (record_failure S e t)
    unfolding record_failure
    record_failure-Returns e t =
        Returns-bind _ _ (D.increment e.id 1) (λ _. D.update e.id (failure t))

    deliver-Returns : (e : OutboxEvent) → Returns (deliver S e)
    unfolding deliver
    deliver-Returns e = search (returns_rules, record_failure-Returns)

    relay_loop-Returns : (es : List OutboxEvent) (n : ℕ) → Returns (relay_loop S es n)
    unfolding relay_loop
    relay_loop-Returns [] n = search returns_rules
    relay_loop-Returns (e ∷ es) n =
        search (returns_rules, deliver-Returns e, λ (m : ℕ). relay_loop-Returns es m)

    -- If the database answers, a batch returns a number, whatever the broker does with the events.
    pub publish_batch-Returns : Returns (publish_batch S)
    unfolding publish_batch
    publish_batch-Returns =
        Returns-bind _ _ (D.get_many unpublished_query) (λ es. relay_loop-Returns es 0)

module _ (S : Services) (L : IsLawful S) (D : DatabaseAnswers S) (B : BrokerAccepts S) where
  open S use {World, find, locked, delivered}

  deliver_accepted :
      (e : OutboxEvent) (w : World)
      → ((deliver S e w).0 ≡ resolved true) × (delivered (deliver S e w).1 ≡ delivered w ++ e ∷ [])
  unfolding deliver mark_published
  deliver_accepted e w =
      let w1 = (S.publish e w).1 in
      let p = publication (S.now w1) e in
      (
        ground (arith, B e w, (D.update e.id p).from w1),
        ground (
          arith,
          B e w,
          (D.update e.id p).from w1,
          L.delivered-publish e w,
          L.delivered-update e.id p w1,
        ),
      )

  -- The events of a batch reach the broker in their order, and each is counted.
  pub relay_loop_accepted :
      (es : List OutboxEvent) (n : ℕ) (w : World)
      → ((relay_loop S es n w).0 ≡ resolved (n + length es))
        × (delivered (relay_loop S es n w).1 ≡ delivered w ++ es)
  unfolding relay_loop
  relay_loop_accepted [] n w = (ground arith, sym (append-nil (delivered w)))
  relay_loop_accepted (e ∷ es) n w =
      let (done, sent) = deliver_accepted e w in
      let (count, more) = relay_loop_accepted es (n + 1) (deliver S e w).1 in
      let v = (relay_loop S es (n + 1) (deliver S e w).1).1 in
      let all : delivered v ≡ delivered w ++ e ∷ es =
        more
        ∙ (ap (λ (xs : List OutboxEvent). xs ++ es) sent
            ∙ append_assoc (delivered w) (e ∷ []) es) in
      rw (done, ◌>>=◌) (ground arith, all)
