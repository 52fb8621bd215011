-- ===== src/Outbox/Consumer/Ports.antt =====
-- What the consumer is built on: `JSON.parse` of a message's bytes, the repository of
-- `platform_consumed_events`, and the event handler. `IsLawful` is what is assumed of them.
use autospace_parking.Prelude.{
  String, ◌≡◌, Option, none, some, List, [], ◌∷◌, ◌++◌, ◌==◌, if◌then◌else◌,
}
use autospace_parking.Js.Exec.{Exec, Outcome, Thrown, resolved, rejected}
use autospace_parking.Js.Json.{Json}

pub record ConsumedEvent : Type 0 where
  pub event_id : String
  pub event_type : String
  pub consumer_group : String

pub record Services : Type 1 where
  pub World : Type 0
  pub Body : Type 0
  pub parse : Body → Outcome Json
  -- `consumedEvents.findOneBy({ eventId })` and `consumedEvents.insert(…)`
  pub find_one_by : String → Exec World (Option ConsumedEvent)
  pub insert : ConsumedEvent → Exec World (Unit {0})
  pub handler : Json → Exec World (Unit {0})
  -- Views of the world: the ledger by its primary key, and the events for which the handler has
  -- been called, in order.
  pub ledger : World → String → Option ConsumedEvent
  pub handled : World → List Json

module _ (S : Services) where
  open S use {World, Body, ledger, handled}

  -- Reading changes nothing; `event_id` is the primary key of the ledger; a statement that fails
  -- is rolled back; the handler leaves the ledger alone.
  pub record IsLawful : Type 0 where
    pub find_one_by-world : (id : String) (w : World) → (S.find_one_by id w).1 ≡ w
    pub find_one_by-ledger :
        (id : String) (w : World) (r : Option ConsumedEvent)
        → (S.find_one_by id w).0 ≡ resolved r
        → r ≡ ledger w id
    pub insert-resolved :
        (row : ConsumedEvent) (w : World)
        → (S.insert row w).0 ≡ resolved tt
        → (ledger w row.event_id ≡ none)
          × ((j : String)
              → ledger (S.insert row w).1 j ≡ (if j == row.event_id then some row else ledger w j))
    pub insert-rejected :
        (row : ConsumedEvent) (w : World) (t : Thrown)
        → (S.insert row w).0 ≡ rejected t
        → (j : String) → ledger (S.insert row w).1 j ≡ ledger w j
    pub insert-handled : (row : ConsumedEvent) (w : World) → handled (S.insert row w).1 ≡ handled w
    pub handler-ledger :
        (event : Json) (w : World) (j : String) → ledger (S.handler event w).1 j ≡ ledger w j
    pub handler-handled :
        (event : Json) (w : World) → handled (S.handler event w).1 ≡ handled w ++ event ∷ []
