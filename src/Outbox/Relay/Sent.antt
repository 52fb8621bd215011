-- ===== src/Outbox/Relay/Sent.antt =====
-- What the broker has taken it keeps, whatever the relay does after.
use autospace_parking.Prelude.{ℕ, String, inl, inr, List, [], ◌∷◌, Memᴰ-append_left}
use mathlib.Core.List.{Memᴰ}
use autospace_parking.Js.Exec.{Thrown}
use autospace_parking.Js.Exec.Keeps.{Keeps, keeps_rules}
use autospace_parking.Outbox.Entity.{OutboxEvent, Patch}
use autospace_parking.Outbox.Services.{Services, IsLawful}
use autospace_parking.Outbox.Relay.{mark_published, record_failure, deliver, relay_loop}

module _ (S : Services) (L : IsLawful S) where
  open S use {World, find, delivered}

  -- Every event that the broker has stays there.
  module _ (a : OutboxEvent) where
    abbrev pub Has : World → Type 0
    Has w = Memᴰ a (delivered w)

    update-Has : (id : String) (p : Patch) → Keeps Has (S.update id p)
    update-Has id p = record { at = λ w h. rw L.delivered-update h }

    increment-Has : (id : String) (n : ℕ) → Keeps Has (S.increment id n)
    increment-Has id n = record { at = λ w h. rw L.delivered-increment h }

    publish-Has : (e : OutboxEvent) → Keeps Has (S.publish e)
    publish-Has e = record {
      at = λ w h. elim (L.delivered-publish_rejected e w) [
        | inl same ↦ rw same h
        | inr more ↦ rw more (Memᴰ-append_left (delivered w) (e ∷ []) h)
      ];
    }

    mark_published-Has : (e : OutboxEvent) → Keeps Has (mark_published S e)
    unfolding mark_published
    mark_published-Has e = record { at = λ w h. (update-Has e.id _).at w h }

    record_failure-Has : (e : OutboxEvent) (t : Thrown) → Keeps Has (record_failure S e t)
    unfolding record_failure
    record_failure-Has e t = search (keeps_rules, update-Has, increment-Has)

    deliver-Has : (e : OutboxEvent) → Keeps Has (deliver S e)
    unfolding deliver
    deliver-Has e =
        search (keeps_rules, publish-Has, mark_published-Has, record_failure-Has) depth 8

    pub relay_loop-Has : (es : List OutboxEvent) (n : ℕ) → Keeps Has (relay_loop S es n)
    unfolding relay_loop
    relay_loop-Has [] n = search keeps_rules
    relay_loop-Has (e ∷ es) n = search (keeps_rules, deliver-Has, λ (m : ℕ). relay_loop-Has es m)
