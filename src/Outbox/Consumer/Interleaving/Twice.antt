-- ===== src/Outbox/Consumer/Interleaving/Twice.antt =====
-- Two consumers that have the same event at once: both call the handler.
use autospace_parking.Prelude.{
  String, ◌≡◌, refl, ap, ◌∙◌, subst, Option, none, some, List, [], ◌∷◌, ◌++◌,
}
use autospace_parking.Js.Exec.{resolved}
use autospace_parking.Js.Json.{Json, obj, Object}
use autospace_parking.Outbox.Consumer.Ports.{ConsumedEvent, Services, IsLawful}
use autospace_parking.Outbox.Consumer.{Environment, group_id, property}
use autospace_parking.Outbox.Consumer.Ledger.{Holds}
use autospace_parking.Outbox.Consumer.Interleaving.{
  Point, looking, handling, inserting, checked, begin, advance, Turn, takes, other, turns, delivers,
  Reach, here, next,
}

module _ (S : Services) (L : IsLawful S) where
  open S use {World, Body, ledger, handled}

  begin-Holds :
      (env : Environment) (b : Body) (o : Object) (id type : String)
      → Holds S b o id type
      → begin S env (some b) ≡ looking (group_id env) (obj o) id type
  unfolding begin property checked
  begin-Holds env b o id type h =
      rw (h.parsed, h.with_id, h.with_type, h.id_nonempty, h.type_nonempty) refl

  -- A turn by the equation that it goes by.
  turn :
      (p q : Point) (ps : List Point) (w v : World)
      → advance S p w ≡ (q, v)
      → Turn S (p ∷ ps) w (q ∷ ps) v
  turn p q ps w v h =
      subst (λ (o : Point × World). Turn S (p ∷ ps) w (o.0 ∷ ps) o.1) h (takes p ps w)

  module _ (group : String) (event : Json) (id type : String) where
    looks :
        (w : World)
        → (S.find_one_by id w).0 ≡ resolved (ledger w id)
        → ledger w id ≡ none
        → advance S (looking group event id type) w ≡ (handling group event id type, w)
    unfolding advance
    looks w answers absent = rw (answers, absent, L.find_one_by-world id w) refl

    abbrev row : ConsumedEvent
    row = record { event_id = id; event_type = type; consumer_group = group }

    handles :
        (w : World)
        → (S.handler event w).0 ≡ resolved tt
        → advance S (handling group event id type) w ≡ (inserting row event, (S.handler event w).1)
    unfolding advance
    handles w done = rw done refl

    -- Both look before either has handled the event.
    abbrev twice : World → World
    twice w = (S.handler event (S.handler event w).1).1

    both :
        (env : Environment) (m : Option Body) (w : World)
        → begin S env m ≡ looking group event id type
        → (S.find_one_by id w).0 ≡ resolved (ledger w id)
        → ledger w id ≡ none
        → ((v : World) → (S.handler event v).0 ≡ resolved tt)
        → Reach S env [] w (inserting row event ∷ inserting row event ∷ []) (twice w)
    both env m w starts answers absent done =
        let p = looking group event id type in
        let q = handling group event id type in
        let r = inserting row event in
        let v = (S.handler event w).1 in
        let delivered : Reach S env [] w (p ∷ p ∷ []) w =
          subst (λ (x : Point). Reach S env [] w (x ∷ x ∷ []) w) starts
            (next (next here (delivers m [] w)) (delivers m (begin S env m ∷ []) w)) in
        let l = looks w answers absent in
        next
          (next
            (next (next delivered (turns (turn p q (p ∷ []) w w l)))
              (turns (other q (turn p q [] w w l))))
            (turns (turn q r (q ∷ []) w v (handles w (done w)))))
          (turns (other r (turn q r [] v (twice w) (handles v (done v)))))

  -- If a valid event is not in the ledger, the look-up of its id answers and the handler does not
  -- throw, then two consumers to which the event is delivered can take turns such that the handler
  -- is called for it twice.
  pub handled_twice :
      (env : Environment) (b : Body) (o : Object) (id type : String) (w : World)
      → Holds S b o id type
      → ledger w id ≡ none
      → (S.find_one_by id w).0 ≡ resolved (ledger w id)
      → ((v : World) → (S.handler (obj o) v).0 ≡ resolved tt)
      → (ps : List Point) × (u : World) × Reach S env [] w ps u
        × (handled u ≡ (handled w ++ obj o ∷ []) ++ obj o ∷ [])
  handled_twice env b o id type w h absent answers done = (
    _,
    _,
    both (group_id env) (obj o) id type env (some b) w (begin-Holds env b o id type h) answers
        absent done,
    L.handler-handled (obj o) (S.handler (obj o) w).1
        ∙ ap (λ (js : List Json). js ++ obj o ∷ []) (L.handler-handled (obj o) w),
  )
