-- ===== src/Outbox/Pipeline/EndToEnd.antt =====
-- From `enqueue`, by way of the relay and the broker, to the event handler.
use autospace_parking.Prelude.{
  ℕ, ◌≤◌, ◌≡◌, ◌∙◌, String, length, arith, eq_iff, none, some, Option, List, count_if,
}
use mathlib.Core.List.{Memᴰ}
use autospace_parking.Js.Exec.{resolved}
use autospace_parking.Outbox.Entity.{OutboxEvent}
use autospace_parking.Outbox.Services as Producer
use autospace_parking.Outbox.Service.{EnqueueEventInput, enqueue}
use autospace_parking.Outbox.Service.Delivery.{enqueue_lem}
use autospace_parking.Outbox.Relay.Batches.{batches, Unlocked, AreUnder, batches_deliver}
use autospace_parking.Outbox.Relay.Progress.{DatabaseAnswers, BrokerAccepts}
use autospace_parking.Outbox.Publisher.Topic as Topic
use autospace_parking.Outbox.Consumer.Ports.{Services, IsLawful}
use autospace_parking.Outbox.Consumer.{Environment}
use autospace_parking.Outbox.Consumer.Once.{is_event, Reliable, consume_all, HandledOnce}
use autospace_parking.Outbox.Pipeline.{Wire, body, IsSound}
use autospace_parking.Outbox.Pipeline.Handled.{LooksUp, sent_handled}

module _ (P : Producer.Services) (S : Services) (L : IsLawful S) (J : Wire S) where
  -- The messages hold a body for each event that the broker has taken: none is lost, and any may
  -- be delivered again, in any order and among others.
  abbrev pub DeliversAll : Topic.Environment → P.World → List (Option S.Body) → Type 0
  DeliversAll topics v ms =
      (d : OutboxEvent) → Memᴰ d (P.delivered v) → Memᴰ (some (body S J topics d)) ms

  -- Where the database and the broker accept every call, no other transaction holds a row, the
  -- handler never throws, the look-ups and new inserts of the ledger never fail and parsing undoes
  -- printing: after as many batches as there are ids of rows that wait, or more, and once messages
  -- have been processed that hold every event sent, in any order and however often, an event that
  -- was enqueued and is sound has been handled exactly once, if the consumer had handled it once
  -- or not at all as its ledger says.
  pub enqueue_handled :
      (M : Producer.IsLawful P) (D : DatabaseAnswers P) (B : BrokerAccepts P)
      → Unlocked P M D B
      → Reliable S L
      → LooksUp S L
      → (topics : Topic.Environment) (env : Environment) (input : EnqueueEventInput) (v : P.World)
        (e : OutboxEvent) (ids : List String) (n : ℕ) (ms : List (Option S.Body)) (w : S.World)
      → (enqueue P input none v).0 ≡ resolved e
      → IsSound e
      → AreUnder P M D B ids (enqueue P input none v).1
      → length ids ≤ n
      → DeliversAll topics (batches P n (enqueue P input none v).1) ms
      → HandledOnce S L e.id w
      → count_if (is_event e.id) (S.handled (consume_all S L env ms w)) ≡ 1
  enqueue_handled M D B U R A topics env input v e ids n ms w enqueued sound under many all h =
      let (_, pending, _, _, _, rows) = enqueue_lem P M input v e enqueued in
      let row = rows e.id ∙ ground (arith, eq_iff e.id e.id) in
      let sent =
        (batches_deliver P M D B U ids n (enqueue P input none v).1 under many).1 e row pending in
      sent_handled S L R A J topics env e ms w sound (all e sent) h
