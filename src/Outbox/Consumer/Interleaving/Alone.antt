-- ===== src/Outbox/Consumer/Interleaving/Alone.antt =====
-- A consumer that takes every turn does what `process` does, in three turns at most.
use autospace_parking.Prelude.{String, ◌≡◌, refl, inl, inr, Option, none, some, arith, Bool-cases}
use autospace_parking.Js.Exec.{Outcome, resolved, rejected, ◌>>=◌}
use autospace_parking.Js.Exec.Keeps.{Outcome-cases}
use autospace_parking.Js.Text.{truthy}
use autospace_parking.Js.Json.{Json, null, obj, get, as_string}
use autospace_parking.Outbox.Consumer.Ports.{ConsumedEvent, Services}
use autospace_parking.Outbox.Consumer.{
  Environment, group_id, property, process, read, consume, unless_consumed, handle_new,
}
use autospace_parking.Outbox.Consumer.Interleaving.{
  Point, looking, handling, inserting, finished, threw, checked, begin, advance,
}

-- How `process` ends.
abbrev pub ended : Outcome (Unit {0}) → Point
ended (resolved _) = finished
ended (rejected thrown) = threw thrown

module _ (S : Services) where
  open S use {World, Body}

  -- The turns of one consumer without others between them.
  abbrev on : Point × World → Point × World
  on o = advance S o.0 o.1

  abbrev pub three_turns : Point → World → Point × World
  three_turns p w = on (on (on (p, w)))

  abbrev end_of : Outcome (Unit {0}) × World → Point × World
  end_of o = (ended o.0, o.1)

  insert_turn :
      (row : ConsumedEvent) (event : Json) (w : World)
      → on (inserting row event, w) ≡ end_of (S.insert row w)
  unfolding advance
  insert_turn row event w = elim (Outcome-cases (S.insert row w).0) [
    | inl (tt, done) ↦ ground (arith, done)
    | inr (t, lost) ↦ ground (arith, lost)
  ]

  handle_turns :
      (group : String) (event : Json) (id type : String) (w : World)
      → on (on (handling group event id type, w)) ≡ end_of (handle_new S group event id type w)
  unfolding advance handle_new
  handle_turns group event id type w =
      let v = (S.handler event w).1 in
      let row : ConsumedEvent = record {
        event_id = id;
        event_type = type;
        consumer_group = group;
      } in
      elim (Outcome-cases (S.handler event w).0) [
        | inr (t, lost) ↦ ground (arith, lost)
        | inl (_, done) ↦ rw done (unfold advance in insert_turn row event v)
      ]

  look_turns :
      (group : String) (event : Json) (id type : String) (w : World)
      → three_turns (looking group event id type) w
        ≡ end_of (
            (S.find_one_by id >>= λ existing.
            unless_consumed S existing (handle_new S group event id type))
              w)
  unfolding advance unless_consumed
  look_turns group event id type w = elim (Outcome-cases (S.find_one_by id w).0) [
    | inr (t, lost) ↦ rw lost refl
    | inl (some existing, found) ↦ rw found refl
    | inl (none, found) ↦
        rw found (unfold advance in handle_turns group event id type (S.find_one_by id w).1)
  ]

  check_turns :
      (group : String) (event : Json) (id type : Option String) (w : World)
      → three_turns (checked group event id type) w ≡ end_of (consume S group event id type w)
  unfolding checked consume advance
  check_turns group event (some id) (some type) w = elim (Bool-cases (truthy id)) [
    | inr empty ↦ rw empty refl
    | inl p ↦ elim (Bool-cases (truthy type)) [
      | inr empty ↦ rw (p, empty) refl
      | inl q ↦ rw (p, q) (look_turns group event id type w)
    ]
  ]
  check_turns group event (some id) none w = refl
  check_turns group event none type w = refl

  -- A consumer that takes every turn itself comes, in three turns, to the end that `process` comes
  -- to: it returns, or it throws the same error, with the same ledger and the same calls of the
  -- handler.
  pub three_turns-process :
      (env : Environment) (m : Option Body) (w : World)
      → three_turns (begin S env m) w ≡ (ended (process S env m w).0, (process S env m w).1)
  unfolding begin property process read consume advance
  three_turns-process env none w = refl
  three_turns-process env (some b) w = elim (Outcome-cases (S.parse b)) [
    | inr (t, lost) ↦ rw lost refl
    | inl (obj o, parsed) ↦
        rw parsed
          (check_turns (group_id env) (obj o) (as_string (get "id" o)) (as_string (get "type" o)) w)
    | inl (null, parsed) ↦ rw parsed refl
    | inl (_, parsed) ↦ rw parsed refl
  ]
