-- ===== src/Outbox/Consumer/Once.antt =====
-- Redelivery: which messages are consumed at all, and how often an event is handled.
use autospace_parking.Prelude.{
  ℕ, String, ◌≡◌, ◌≢◌, refl, ap, ◌∙◌, ◌⊎◌, inl, inr, Bool, true, false, Option, none, some, List,
  [], ◌∷◌, arith, ◌==◌, eq_iff, count_if, count_if-append, Bool-cases,
}
use autospace_parking.Js.Exec.{Outcome, Thrown, resolved, rejected}
use autospace_parking.Js.Exec.Keeps.{Outcome-cases}
use autospace_parking.Js.Text.{truthy}
use autospace_parking.Js.Json.{Json, null, obj, str, Object, get, as_string}
use autospace_parking.Outbox.Consumer.Ports.{ConsumedEvent, Services, IsLawful}
use autospace_parking.Outbox.Consumer.{
  Environment, id_and_type_required, group_id, consume, read, process,
}
use autospace_parking.Outbox.Consumer.Ledger.{
  Holds, Consumption, already, unanswered, entered, lost, Cause, process-Consumption,
}

module _ (S : Services) where
  open S use {World, Body, ledger, handled}

  abbrev WithTexts : Json → Json → Type 0
  WithTexts id type =
      (i t : String) × (id ≡ str i) × (type ≡ str t) × (truthy i ≡ true) × (truthy t ≡ true)

  abbrev Rejects : Outcome (Unit {0}) × World → World → Type 0
  Rejects o w = (t : Thrown) × (o ≡ (rejected t, w))

  consume_cases :
      (group : String) (event id type : Json) (w : World)
      → WithTexts id type ⊎ Rejects (consume S group event (as_string id) (as_string type) w) w
  unfolding consume
  consume_cases group event (str i) (str t) w = elim (Bool-cases (truthy i)) [
    | inr empty ↦ inr (id_and_type_required, rw empty)
    | inl e ↦ elim (Bool-cases (truthy t)) [
      | inr empty ↦ inr (id_and_type_required, rw (e, empty))
      | inl f ↦ inl (i, t, refl, refl, e, f)
    ]
  ]
  consume_cases group event (str i) _ w = inr (_, refl)
  consume_cases group event _ type w = inr (_, refl)

  abbrev Read : Json → Type 0
  Read event = (o : Object) × (event ≡ obj o) × WithTexts (get "id" o) (get "type" o)

  -- `process` after the parse.
  read_cases :
      (env : Environment) (event : Json) (w : World) → Read event ⊎ Rejects (read S env event w) w
  unfolding read consume
  read_cases env (obj o) w =
      elim (consume_cases (group_id env) (obj o) (get "id" o) (get "type" o) w) [
        | inl texts ↦ inl (o, refl, texts)
        | inr r ↦ inr r
      ]
  read_cases env null w = inr (_, refl)
  read_cases env _ w = inr (_, refl)

  -- A message with a body either holds a JSON object with nonempty texts for id and type, or it is
  -- rejected and nothing is changed.
  pub process_cases :
      (env : Environment) (b : Body) (w : World)
      → ((o : Object) × (id type : String) × Holds S b o id type)
        ⊎ ((t : Thrown) × (process S env (some b) w ≡ (rejected t, w)))
  unfolding process
  process_cases env b w = elim (Outcome-cases (S.parse b)) [
    | inr (t, e) ↦ inr (t, rw e)
    | inl (event, e) ↦ elim (read_cases env event w) [
      | inr r ↦ inr (r.0, rw e r.1)
      | inl (o, is_object, (i, t, with_id, with_type, p, q)) ↦ inl (
        o,
        i,
        t,
        record {
          parsed = e ∙ ap resolved is_object;
          with_id = with_id;
          with_type = with_type;
          id_nonempty = p;
          type_nonempty = q;
        },
      )
    ]
  ]

-- The event has the text `k` for its id.
abbrev pub is_event : String → Json → Bool
is_event k (obj o) = is_id (as_string (get "id" o))
  where
    is_id : Option String → Bool
    is_id none = false
    is_id (some i) = i == k
is_event k _ = false

abbrev pub is_entered : Option ConsumedEvent → ℕ
is_entered none = 0
is_entered (some row) = 1

module _ (S : Services) (L : IsLawful S) where
  open S use {World, Body, ledger, handled}

  -- The handler never throws, and an insert does only for a key that is taken.
  pub record Reliable : Type 0 where
    pub handler : (event : Json) (w : World) → (S.handler event w).0 ≡ resolved tt
    pub insert :
        (row : ConsumedEvent) (w : World)
        → ledger w row.event_id ≡ none
        → (S.insert row w).0 ≡ resolved tt

  -- Then an event that is not in the ledger is never lost.
  pub Cause-absurd :
      Reliable
      → (group id type : String) (event : Json) (w : World) (t : Thrown) → ledger w id ≡ none
      → ¬ Cause S L group id type event w t
  Cause-absurd R group id type event w t absent (inl threw) = cc (R.handler event w, threw)
  Cause-absurd R group id type event w t absent (inr threw) = cc (
    R.insert (record { event_id = id; event_type = type; consumer_group = group })
        (S.handler event w).1 (L.handler-ledger event w id ∙ absent),
    threw,
  )

  -- Messages in the order of their delivery; a message that is rejected is delivered again later.
  unfoldable pub consume_all : Environment → List (Option Body) → World → World
  consume_all env [] w = w
  consume_all env (m ∷ ms) w = consume_all env ms (process S env m w).1

  -- The handler has been called once for the event if it is in the ledger, and not otherwise.
  abbrev pub HandledOnce : String → World → Type 0
  HandledOnce k w = count_if (is_event k) (handled w) ≡ is_entered (ledger w k)

  module _ (R : Reliable) (k : String) where
    Consumption-HandledOnce :
        (group id type : String) (o : Object) (w : World) (r : Outcome (Unit {0}) × World)
        → get "id" o ≡ str id
        → HandledOnce k w
        → Consumption S L group id type (obj o) w r
        → HandledOnce k r.1
    Consumption-HandledOnce group id type o w r with_id h (already _ same _) = rw same h
    Consumption-HandledOnce group id type o w r with_id h (unanswered _ _ same _) = rw same h
    Consumption-HandledOnce group id type o w r with_id h (entered _ absent (row, others) more) =
        let is_it : is_event k (obj o) ≡ (id == k) = rw with_id in
        let count = count_if-append (is_event k) (handled w) (obj o ∷ []) in
        rw more (elim (Bool-cases (id == k)) [
          | inl same ↦
              let at_k : id ≡ k = (eq_iff id k).0 same in
              ground (arith, is_it, count, ap (ledger w) at_k, ap (ledger r.1) at_k)
          | inr other ↦
              let not_k : k ≢ id = ground (arith, eq_iff id k) in
              ground (arith, is_it, count, others k not_k)
        ])
    Consumption-HandledOnce group id type o w r with_id h (lost t _ absent cause _ _) =
        absurd (Cause-absurd R group id type (obj o) w t absent cause)

    process-HandledOnce :
        (env : Environment) (m : Option Body) (w : World)
        → HandledOnce k w
        → HandledOnce k (process S env m w).1
    process-HandledOnce env none w h = unfold process in h
    process-HandledOnce env (some b) w h = elim (process_cases S env b w) [
      | inr (t, same) ↦ rw same h
      | inl (o, id, type, holds) ↦
          Consumption-HandledOnce (group_id env) id type o w (process S env (some b) w)
            holds.with_id h (process-Consumption S L env b o id type w holds)
    ]

  -- If the handler never throws and an insert of a new key never does, and if an event has been
  -- handled once where it is in the ledger and not at all where it is not, then this still holds
  -- after any sequence of deliveries, redeliveries included.
  pub consume_all-HandledOnce :
      Reliable
      → (env : Environment) (k : String) (ms : List (Option Body)) (w : World) → HandledOnce k w
      → HandledOnce k (consume_all env ms w)
  unfolding consume_all
  consume_all-HandledOnce R env k [] w h = h
  consume_all-HandledOnce R env k (m ∷ ms) w h =
      consume_all-HandledOnce R env k ms (process S env m w).1 (process-HandledOnce R k env m w h)
