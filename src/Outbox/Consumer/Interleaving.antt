-- ===== src/Outbox/Consumer/Interleaving.antt =====
-- kafka-event.consumer.ts in several processes at once: `process` cut at each `await`, so that any
-- number of consumers take turns, and a consumer may stop for good anywhere.
pub mod Safe
pub mod Entered
pub mod Twice
pub mod Alone
use autospace_parking.Prelude.{
  String, ◌≡◌, ◌||◌, not, Option, none, some, List, [], ◌∷◌, if◌then◌else◌,
}
use autospace_parking.Js.Exec.{Outcome, Thrown, resolved, rejected}
use autospace_parking.Js.Text.{truthy}
use autospace_parking.Js.Json.{Json, as_string}
use autospace_parking.Outbox.Consumer.Ports.{ConsumedEvent, Services}
use autospace_parking.Outbox.Consumer.{Environment, group_id, property, id_and_type_required}

-- What a consumer awaits next of an event with its id and type: the look-up, the handler, the
-- insert; or nothing, since it has returned or thrown.
pub data Point : Type 0 where
  looking handling : String → Json → String → String → Point
  inserting : ConsumedEvent → Json → Point
  finished : Point
  threw : Thrown → Point

-- The check of the id and the type.
unfoldable pub checked : String → Json → Option String → Option String → Point
checked group event (some event_id) (some event_type) =
    if not (truthy event_id) || not (truthy event_type)
    then threw id_and_type_required
    else looking group event event_id event_type
checked group event _ _ = threw id_and_type_required

or_threw {ℓ} : {A : Type ℓ} → Outcome A → (A → Point) → Point
or_threw (resolved a) go = go a
or_threw (rejected thrown) go = threw thrown

-- `event[k]`
value_at : String → Json → Outcome Json
unfolding property
value_at k event = (property {S = Unit {0}} k event tt).0

-- Where a consumer goes on after the look-up.
abbrev pub unless_found : Option ConsumedEvent → Point → Point
unless_found (some existing) p = finished
unless_found none p = p

module _ (S : Services) where
  open S use {World, Body}

  -- What runs before the first `await`.
  unfoldable pub begin : Environment → Option Body → Point
  unfolding or_threw value_at checked
  begin env none = finished
  begin env (some value) = or_threw (S.parse value) λ event. or_threw (value_at "id" event) λ id.
      or_threw (value_at "type" event)
        λ type. checked (group_id env) event (as_string id) (as_string type)

  -- One `await`, with what runs up to the next one.
  unfoldable pub advance : Point → World → Point × World
  unfolding or_threw
  advance (looking group event event_id event_type) w =
      let (r, v) = S.find_one_by event_id w in
      (or_threw r (λ existing. unless_found existing (handling group event event_id event_type)), v)
  advance (handling group event event_id event_type) w =
      let row : ConsumedEvent = record {
        event_id = event_id;
        event_type = event_type;
        consumer_group = group;
      } in
      let (r, v) = S.handler event w in (or_threw r (λ _. inserting row event), v)
  advance (inserting row event) w = let (r, v) = S.insert row w in (or_threw r (λ _. finished), v)
  advance finished w = (finished, w)
  advance (threw thrown) w = (threw thrown, w)

  -- One of the consumers takes its turn, or stops for good.
  pub data Turn : List Point → World → List Point → World → Type 0 where
    takes :
        (p : Point) (ps : List Point) (w : World)
        → Turn (p ∷ ps) w ((advance p w).0 ∷ ps) (advance p w).1
    stops : (p : Point) (ps : List Point) (w : World) → Turn (p ∷ ps) w ps w
    other :
        (p : Point) {ps qs : List Point} {w v : World} → Turn ps w qs v → Turn (p ∷ ps) w (p ∷ qs) v

  -- A turn, or a message that is delivered, for the first time or again.
  pub data Step (env : Environment) : List Point → World → List Point → World → Type 0 where
    turns : {ps qs : List Point} {w v : World} → Turn ps w qs v → Step env ps w qs v
    delivers : (m : Option Body) (ps : List Point) (w : World) → Step env ps w (begin env m ∷ ps) w

  pub data Reach (env : Environment) (from : List Point) (start : World)
      : List Point → World → Type 0 where
    here : Reach env from start from start
    next :
        {ps qs : List Point} {w v : World}
        → Reach env from start ps w
        → Step env ps w qs v
        → Reach env from start qs v
