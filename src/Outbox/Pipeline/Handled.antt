-- ===== src/Outbox/Pipeline/Handled.antt =====
-- An event that is enqueued is handled once, however often it is sent and delivered.
use autospace_parking.Prelude.{
  String, ◌≡◌, refl, ap, ◌∙◌, inl, inr, Option, none, some, List, [], ◌∷◌, count_if, Option-cases,
}
use mathlib.Core.List.{Memᴰ}
use autospace_parking.Js.Exec.{Outcome, resolved}
use autospace_parking.Js.Json.{Json, Object, get, obj}
use autospace_parking.Js.Json.Plain.{IsPlainObject, IsPlain}
use autospace_parking.Outbox.Entity.{OutboxEvent}
use autospace_parking.Outbox.Publisher.Topic as Topic
use autospace_parking.Outbox.Publisher.Envelope.{envelope, message}
use autospace_parking.Outbox.Consumer.Ports.{ConsumedEvent, Services, IsLawful}
use autospace_parking.Outbox.Consumer.{Environment, process, group_id}
use autospace_parking.Outbox.Consumer.Ledger.{
  Holds, Consumption, already, unanswered, entered, lost, process-Consumption,
}
use autospace_parking.Outbox.Consumer.Once.{
  process_cases, is_event, is_entered, Reliable, Cause-absurd, consume_all, HandledOnce,
  consume_all-HandledOnce,
}
use autospace_parking.Outbox.Pipeline.{Wire, body, IsSound}

envelope-IsPlainObject : (e : OutboxEvent) → IsSound e → IsPlainObject (envelope e)
unfolding envelope IsPlain
envelope-IsPlainObject e h = (
  refl,
  (
    tt,
    (
      refl,
      (
        tt,
        (
          refl,
          (
            inl refl,
            (refl, (tt, (refl, (tt, (refl, (tt, (refl, (h.payload, (refl, (h.metadata, tt)))))))))),
          ),
        ),
      ),
    ),
  ),
)

module _ (S : Services) (J : Wire S) where
  pub body-Holds :
      (env : Topic.Environment) (e : OutboxEvent)
      → IsSound e
      → Holds S (body S J env e) (envelope e) e.id e.event_type
  unfolding body message
  body-Holds env e h = record {
    parsed = J.parse-stringify (envelope e) (envelope-IsPlainObject e h);
    with_id = unfold envelope get in refl;
    with_type = unfold envelope get in refl;
    id_nonempty = h.id_nonempty;
    type_nonempty = h.type_nonempty;
  }

module _ (S : Services) (L : IsLawful S) where
  open S use {World, Body, ledger, handled}

  -- The look-ups in the ledger never fail.
  pub record LooksUp : Type 0 where
    pub answer :
        (id : String) (w : World)
        → (r : Option ConsumedEvent) × ((S.find_one_by id w).0 ≡ resolved r)

  Consumption-kept :
      (group id type k : String) (event : Json) (row : ConsumedEvent) (w : World)
      (o : Outcome (Unit {0}) × World)
      → ledger w k ≡ some row
      → Consumption S L group id type event w o
      → ledger o.1 k ≡ some row
  Consumption-kept group id type k event row w o h (already _ same _) = rw same h
  Consumption-kept group id type k event row w o h (unanswered _ _ same _) = rw same h
  Consumption-kept group id type k event row w o h (lost _ _ _ _ rows _) = rows k ∙ h
  Consumption-kept group id type k event row w o h (entered _ absent (_, others) _) =
      others k (λ (at : k ≡ id). cc (ap (ledger w) at, absent, h)) ∙ h

  -- What is entered in the ledger stays.
  process_kept :
      (env : Environment) (m : Option Body) (k : String) (row : ConsumedEvent) (w : World)
      → ledger w k ≡ some row
      → ledger (process S env m w).1 k ≡ some row
  process_kept env none k row w h = unfold process in h
  process_kept env (some b) k row w h = elim (process_cases S env b w) [
    | inr (t, same) ↦ rw same h
    | inl (o, id, type, holds) ↦
        Consumption-kept (group_id env) id type k (obj o) row w (process S env (some b) w) h
          (process-Consumption S L env b o id type w holds)
  ]

  consume_all-kept :
      (env : Environment) (ms : List (Option Body)) (k : String) (row : ConsumedEvent) (w : World)
      → ledger w k ≡ some row
      → ledger (consume_all S L env ms w) k ≡ some row
  unfolding consume_all
  consume_all-kept env [] k row w h = h
  consume_all-kept env (m ∷ ms) k row w h =
      consume_all-kept env ms k row (process S env m w).1 (process_kept env m k row w h)

  module _ (R : Reliable S L) (A : LooksUp) where
    Consumption-enters :
        (group id type : String) (event : Json) (w : World) (o : Outcome (Unit {0}) × World)
        → Consumption S L group id type event w o
        → (row : ConsumedEvent) × (ledger o.1 id ≡ some row)
    Consumption-enters group id type event w o (entered _ _ (row, _) _) = (_, row)
    Consumption-enters group id type event w o (already _ same there) =
        elim (Option-cases (ledger w id)) [
          | inl absent ↦ absurd (there absent)
          | inr (row, found) ↦ (row, rw same found)
        ]
    Consumption-enters group id type event w o (unanswered t _ _ threw) =
        cc (threw, (A.answer id w).1)
    Consumption-enters group id type event w o (lost t _ absent cause _ _) =
        absurd (Cause-absurd S L R group id type event w t absent cause)

    -- After a message that holds an event, the event is in the ledger.
    process_enters :
        (env : Environment) (b : Body) (o : Object) (id type : String) (w : World)
        → Holds S b o id type
        → (row : ConsumedEvent) × (ledger (process S env (some b) w).1 id ≡ some row)
    process_enters env b o id type w holds =
        Consumption-enters (group_id env) id type (obj o) w (process S env (some b) w)
          (process-Consumption S L env b o id type w holds)

    pub consume_all-enters :
        (env : Environment) (ms : List (Option Body)) (b : Body) (o : Object) (id type : String)
        (w : World)
        → Holds S b o id type
        → Memᴰ (some b) ms
        → (row : ConsumedEvent) × (ledger (consume_all S L env ms w) id ≡ some row)
    unfolding consume_all
    consume_all-enters env [] b o id type w holds m = elim m [ ]
    consume_all-enters env (_ ∷ ms) b o id type w holds (Memᴰ.tail m) =
        consume_all-enters env ms b o id type (process S env _ w).1 holds m
    consume_all-enters env (m ∷ ms) b o id type w holds (Memᴰ.head e) =
        let (row, found) = process_enters env b o id type w holds in
        (row, consume_all-kept env ms id row (process S env m w).1 (rw (← e) found))

    -- Each event that is sent, once or more often, has been handled once after its messages.
    pub sent_handled :
        (J : Wire S) (topics : Topic.Environment) (env : Environment) (e : OutboxEvent)
        (ms : List (Option Body)) (w : World)
        → IsSound e
        → Memᴰ (some (body S J topics e)) ms
        → HandledOnce S L e.id w
        → count_if (is_event e.id) (handled (consume_all S L env ms w)) ≡ 1
    sent_handled J topics env e ms w sound m h =
        let (row, found) =
          consume_all-enters env ms (body S J topics e) (envelope e) e.id e.event_type w
            (body-Holds S J topics e sound) m in
        consume_all-HandledOnce S L R env e.id ms w h ∙ ap is_entered found
