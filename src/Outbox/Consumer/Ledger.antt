-- ===== src/Outbox/Consumer/Ledger.antt =====
-- The ledger makes the handling of events idempotent.
use autospace_parking.Prelude.{
  String, ◌≡◌, ◌≢◌, refl, sym, ◌∙◌, ◌⊎◌, inl, inr, true, Option, none, some, [], ◌∷◌, ◌++◌, arith,
  eq_iff, subst,
}
use autospace_parking.Js.Exec.{Exec, Outcome, Thrown, resolved, rejected}
use autospace_parking.Js.Exec.Keeps.{Outcome-cases, >>=-resolved, >>=-rejected}
use autospace_parking.Js.Text.{truthy}
use autospace_parking.Js.Json.{Json, obj, str, Object, get}
use autospace_parking.Outbox.Consumer.Ports.{ConsumedEvent, Services, IsLawful}
use autospace_parking.Outbox.Consumer.{
  Environment, group_id, handle_new, unless_consumed, consume, read, process,
}

module _ (S : Services) where
  open S use {World, Body, ledger, handled}

  -- The message holds a JSON object with these texts under `id` and `type`, neither empty.
  pub record Holds (b : Body) (o : Object) (id type : String) : Type 0 where
    pub parsed : S.parse b ≡ resolved (obj o)
    pub with_id : get "id" o ≡ str id
    pub with_type : get "type" o ≡ str type
    pub id_nonempty : truthy id ≡ true
    pub type_nonempty : truthy type ≡ true

  process-consume :
      (env : Environment) (b : Body) (o : Object) (id type : String) (w : World)
      → Holds b o id type
      → process S env (some b) w ≡ consume S (group_id env) (obj o) (some id) (some type) w
  unfolding process read
  process-consume env b o id type w h = ground (arith, h)

  module _ (L : IsLawful S) where
    module _ (group id type : String) (event : Json) (w : World) where
      abbrev Consumed : World → Type 0
      Consumed v =
          (ledger v id ≡ some (record { event_id = id; event_type = type; consumer_group = group }))
          × ((j : String) → j ≢ id → ledger v j ≡ ledger w j)

      -- What threw after the look-up found nothing.
      abbrev pub Cause : Thrown → Type 0
      Cause t =
          ((S.handler event w).0 ≡ rejected t)
          ⊎ ((S.insert (record { event_id = id; event_type = type; consumer_group = group })
                (S.handler event w).1).0
              ≡ rejected t)

      -- The ways in which a valid event is consumed: it was seen before, or the look-up failed; it was
      -- handled and entered in the ledger; or it was handled and is not entered.
      pub data Consumption (o : Outcome (Unit {0}) × World) : Type 0 where
        already : o.0 ≡ resolved tt → o.1 ≡ w → ledger w id ≢ none → Consumption o
        unanswered :
            (t : Thrown)
            → o.0 ≡ rejected t
            → o.1 ≡ w
            → (S.find_one_by id w).0 ≡ rejected t
            → Consumption o
        entered :
            o.0 ≡ resolved tt
            → ledger w id ≡ none
            → Consumed o.1
            → handled o.1 ≡ handled w ++ event ∷ []
            → Consumption o
        lost :
            (t : Thrown)
            → o.0 ≡ rejected t
            → ledger w id ≡ none
            → Cause t
            → ((j : String) → ledger o.1 j ≡ ledger w j)
            → handled o.1 ≡ handled w ++ event ∷ []
            → Consumption o

      handle_new_lem : ledger w id ≡ none → Consumption (handle_new S group event id type w)
      unfolding handle_new
      handle_new_lem absent =
          let u = (S.handler event w).1 in
          let row : ConsumedEvent = record {
            event_id = id;
            event_type = type;
            consumer_group = group;
          } in
          let kept = L.handler-ledger event w in
          elim (Outcome-cases (S.handler event w).0) [
            | inr (t, threw) ↦
                subst Consumption (sym (>>=-rejected (S.handler event) (λ _. S.insert row) w threw))
                  (lost t refl absent (inl threw) kept (L.handler-handled event w))
            | inl (_, done) ↦
                subst Consumption (sym (>>=-resolved (S.handler event) (λ _. S.insert row) w done))
                  (elim (Outcome-cases (S.insert row u).0) [
                    | inr (t, threw) ↦
                        lost t threw absent (inr threw)
                          (λ j. L.insert-rejected row u t threw j ∙ kept j)
                          (L.insert-handled row u ∙ L.handler-handled event w)
                    | inl (_, inserted) ↦
                        let (_, rows) = L.insert-resolved row u inserted in
                        entered inserted absent
                          (
                            rows id ∙ ground (arith, eq_iff id id),
                            λ j other. rows j ∙ ground (arith, eq_iff j id, kept j),
                          )
                          (L.insert-handled row u ∙ L.handler-handled event w)
                  ])
          ]

      consume_lem :
          truthy id ≡ true
          → truthy type ≡ true
          → Consumption (consume S group event (some id) (some type) w)
      unfolding consume unless_consumed
      consume_lem p q =
          let u = (S.find_one_by id w).1 in
          let same = L.find_one_by-world id w in
          let k : Option ConsumedEvent → Exec World (Unit {0}) =
            λ existing. unless_consumed S existing (handle_new S group event id type) in
          rw (p, q)
            (elim (Outcome-cases (S.find_one_by id w).0) [
              | inr (t, threw) ↦
                  subst Consumption (sym (>>=-rejected (S.find_one_by id) k w threw))
                    (unanswered t refl same threw)
              | inl (none, found) ↦
                  subst Consumption (sym (>>=-resolved (S.find_one_by id) k w found))
                    (rw same (handle_new_lem (sym (L.find_one_by-ledger id w none found))))
              | inl (some row, found) ↦
                  subst Consumption (sym (>>=-resolved (S.find_one_by id) k w found)) (
                    already refl same
                      (λ absent. cc (absent, L.find_one_by-ledger id w (some row) found)))
            ])

    -- A message with an event that has an id and a type changes nothing, and then its id was in
    -- the ledger, or the look-up failed and its error is thrown; or its id was not there and it is
    -- handled once and entered in the ledger; or its id was not there, it is handled once, an
    -- error is thrown by the handler or by the insert, and the ledger is as before.
    pub process-Consumption :
        (env : Environment) (b : Body) (o : Object) (id type : String) (w : World)
        → Holds b o id type
        → Consumption (group_id env) id type (obj o) w (process S env (some b) w)
    process-Consumption env b o id type w h =
        subst (Consumption (group_id env) id type (obj o) w)
          (sym (process-consume env b o id type w h))
          (consume_lem (group_id env) id type (obj o) w h.id_nonempty h.type_nonempty)

    -- A message whose id is in the ledger, entered by whatever consumer group, changes nothing.
    process_seen :
        (env : Environment) (b : Body) (o : Object) (id type : String) (w : World)
        (row : ConsumedEvent)
        → Holds b o id type
        → ledger w id ≡ some row
        → (process S env (some b) w).1 ≡ w
    process_seen env b o id type w row h seen =
        unchanged (process S env (some b) w) (process-Consumption env b o id type w h)
      where
        unchanged :
            (o' : Outcome (Unit {0}) × World)
            → Consumption (group_id env) id type (obj o) w o'
            → o'.1 ≡ w
        unchanged o' (already _ same _) = same
        unchanged o' (unanswered _ _ same _) = same
        unchanged o' (entered _ absent _ _) = cc (absent, seen)
        unchanged o' (lost _ _ absent _ _ _) = cc (absent, seen)
