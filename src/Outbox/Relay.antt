-- ===== src/Outbox/Relay.antt =====
-- outbox-relay.service.ts: `OutboxRelayService.publishBatch`. The logger is left out.
pub mod Rows
pub mod Delivery
pub mod Sent
pub mod Settled
pub mod Progress
pub mod Drain
pub mod Waiting
pub mod Batches
pub mod Restored
use autospace_parking.Prelude.{ℕ, ◌+◌, Bool, true, false, none, some, List, [], ◌∷◌, if◌then◌else◌}
use autospace_parking.Js.Exec.{Exec, Thrown, message_of, pure, catch, ◌>>=◌, ◌>>◌}
use autospace_parking.Outbox.Entity.{OutboxEvent, Patch}
use autospace_parking.Outbox.Services.{Services, Query, skip_locked, ascending}

abbrev pub batch_size : ℕ
batch_size = 50

unfoldable pub unpublished_query : Query
unpublished_query = record {
  pessimistic_write = true;
  on_locked = skip_locked;
  unpublished_only = true;
  by_occurred_at = ascending;
  take = batch_size;
}

-- The columns that the two branches of the loop write.
abbrev pub publication : ℕ → OutboxEvent → Patch
publication now event = record {
  published_at = some (some now);
  attempts = some (event.attempts + 1);
  last_error = some none;
}

abbrev pub failure : Thrown → Patch
failure thrown = record {
  published_at = none;
  attempts = none;
  last_error = some (some (message_of thrown));
}

module _ (S : Services) where
  open S use {World}

  unfoldable pub mark_published : OutboxEvent → Exec World (Unit {0})
  mark_published event w = S.update event.id (publication (S.now w) event) w

  unfoldable pub record_failure : OutboxEvent → Thrown → Exec World (Unit {0})
  record_failure event thrown = do S.increment event.id 1; S.update event.id (failure thrown)

  -- One round of the loop: whether `published` is counted up.
  unfoldable pub deliver : OutboxEvent → Exec World Bool
  deliver event =
      catch (do S.publish event; mark_published event; pure true)
        (λ thrown. do record_failure event thrown; pure false)

  unfoldable pub relay_loop : List OutboxEvent → ℕ → Exec World ℕ
  relay_loop [] published = pure published
  relay_loop (event ∷ events) published = do
    done ← deliver event
    relay_loop events (if done then published + 1 else published)

  unfoldable pub publish_batch : Exec World ℕ
  publish_batch = do events ← S.get_many unpublished_query; relay_loop events 0
