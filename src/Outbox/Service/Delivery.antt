-- ===== src/Outbox/Service/Delivery.antt =====
-- The row of an event that is enqueued.
use autospace_parking.Prelude.{String, ◌≡◌, ap, none, some, true, ◌==◌, if◌then◌else◌}
use autospace_parking.Js.Exec.{resolved}
use autospace_parking.Js.Text.{or_default}
use autospace_parking.Js.Json.{end}
use autospace_parking.Outbox.Entity.{OutboxEvent}
use autospace_parking.Outbox.Services.{Services, is_unpublished, IsLawful}
use autospace_parking.Outbox.Service.{EnqueueEventInput, enqueue}

module _ (S : Services) (L : IsLawful S) where
  -- An event that was enqueued without a transaction is a new unpublished row with no attempt,
  -- with version 1 and empty metadata unless they are given, and every other row stays.
  pub enqueue_lem :
      (input : EnqueueEventInput) (w : S.World) (e : OutboxEvent)
      → (enqueue S input none w).0 ≡ resolved e
      → (S.find w e.id ≡ none)
        × (is_unpublished e ≡ true)
        × (e.attempts ≡ 0)
        × (e.event_version ≡ or_default input.event_version 1)
        × (e.metadata ≡ or_default input.metadata end)
        × ((j : String)
            → S.find (enqueue S input none w).1 j ≡ (if j == e.id then some e else S.find w j))
  unfolding enqueue
  enqueue_lem input w e h =
      let (fresh, same, rows) = L.find-save _ w e h in
      (
        fresh,
        ap is_unpublished same,
        ap (λ (x : OutboxEvent). x.attempts) same,
        ap (λ (x : OutboxEvent). x.event_version) same,
        ap (λ (x : OutboxEvent). x.metadata) same,
        rows,
      )
