-- ===== src/Outbox/Relay/Delivery.antt =====
-- What one round of the loop, `deliver`, does to the row of its event.
use autospace_parking.Prelude.{
  ℕ, ◌+◌, String, ◌≡◌, inl, inr, Bool, true, false, none, some, [], ◌∷◌, ◌++◌, arith, eq_iff,
}
use autospace_parking.Js.Exec.{Thrown, resolved, rejected, message_of}
use autospace_parking.Js.Exec.Keeps.{Outcome-cases}
use autospace_parking.Outbox.Entity.{OutboxEvent}
use autospace_parking.Outbox.Services.{Services, IsLawful}
use autospace_parking.Outbox.Relay.{publication, failure, mark_published, record_failure, deliver}

-- The row of an event that was published at `t`, and that of one whose delivery threw.
abbrev pub published : ℕ → OutboxEvent → OutboxEvent
published t e = record e { published_at = some t; attempts = e.attempts + 1; last_error = none }

abbrev pub failed : String → OutboxEvent → OutboxEvent
failed message e = record e { attempts = e.attempts + 1; last_error = some message }

module _ (S : Services) (L : IsLawful S) where
  open S use {World, find, delivered}

  -- Which of the two a delivery did.
  abbrev pub Delivered : OutboxEvent → World → World → Bool → Type 0
  Delivered e w w' true =
      ((t : ℕ) × (find w' e.id ≡ some (published t e))) × (delivered w' ≡ delivered w ++ e ∷ [])
  Delivered e w w' false = (m : String) × (find w' e.id ≡ some (failed m e))

  mark_published_self :
      (e : OutboxEvent) (w : World)
      → find w e.id ≡ some e
      → (mark_published S e w).0 ≡ resolved tt
      → (find (mark_published S e w).1 e.id ≡ some (published (S.now w) e))
        × (delivered (mark_published S e w).1 ≡ delivered w)
  unfolding mark_published
  mark_published_self e w h r = (
    ground (arith, L.find-update e.id (publication (S.now w) e) w e.id, eq_iff e.id e.id),
    L.delivered-update e.id _ w,
  )

  mark_published_rejected :
      (e : OutboxEvent) (w : World) (t : Thrown)
      → (mark_published S e w).0 ≡ rejected t
      → find (mark_published S e w).1 e.id ≡ find w e.id
  unfolding mark_published
  mark_published_rejected e w t r =
      ground (arith, L.find-update e.id (publication (S.now w) e) w e.id)

  record_failure_self :
      (e : OutboxEvent) (t : Thrown) (w : World)
      → find w e.id ≡ some e
      → (record_failure S e t w).0 ≡ resolved tt
      → find (record_failure S e t w).1 e.id ≡ some (failed (message_of t) e)
  unfolding record_failure
  record_failure_self e t w h r = ground (
    arith,
    L.find-increment e.id 1 w e.id,
    L.find-update e.id (failure t) (S.increment e.id 1 w).1 e.id,
    eq_iff e.id e.id,
  )

  deliver_published :
      (e : OutboxEvent) (w : World)
      → find w e.id ≡ some e
      → (deliver S e w).0 ≡ resolved true
      → Delivered e w (deliver S e w).1 true
  unfolding deliver
  deliver_published e w h r =
      let w1 = (S.publish e w).1 in
      (
        (S.now w1, ground (arith, L.find-publish e w e.id, mark_published_self e w1)),
        ground (arith, L.find-publish e w e.id, L.delivered-publish e w, mark_published_self e w1),
      )

  -- The message is that of the call that threw.
  deliver_failed :
      (e : OutboxEvent) (w : World)
      → find w e.id ≡ some e
      → (deliver S e w).0 ≡ resolved false
      → Delivered e w (deliver S e w).1 false
  unfolding deliver
  deliver_failed e w h r = elim (Outcome-cases (S.publish e w).0) [
    | inr (t, threw) ↦ (
      message_of t,
      ground (arith, L.find-publish e w e.id, record_failure_self e t (S.publish e w).1),
    )
    | inl (_, sent) ↦ elim (Outcome-cases (mark_published S e (S.publish e w).1).0) [
      | inl (_, marked) ↦ absurd (ground arith)
      | inr (t, threw) ↦ (
        message_of t,
        ground (
          arith,
          L.find-publish e w e.id,
          mark_published_rejected e (S.publish e w).1 t,
          record_failure_self e t (mark_published S e (S.publish e w).1).1,
        ),
      )
    ]
  ]

  pub deliver_lem :
      (e : OutboxEvent) (w : World) (b : Bool)
      → find w e.id ≡ some e
      → (deliver S e w).0 ≡ resolved b
      → Delivered e w (deliver S e w).1 b
  deliver_lem e w true h r = deliver_published e w h r
  deliver_lem e w false h r = deliver_failed e w h r
