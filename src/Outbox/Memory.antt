-- ===== src/Outbox/Memory.antt =====
-- A table of two rows, "a" and "b", with a broker that refuses some events: it meets what is assumed
-- of the database and of the broker.
pub mod Lawful
use mathlib.Core.Option
use mathlib.Core.List.{Memᴰ}
use autospace_parking.Prelude.{
  ℕ, zero, suc, ◌≤◌, String, ◌≡◌, ◌≢◌, refl, ◌⊎◌, inl, inr, Bool, true, false, Option, none, some,
  List, [], ◌∷◌, ◌++◌, arith, ◌==◌, eq_iff, leb, if◌then◌else◌, length, take, All, Bool-cases,
}
use autospace_parking.Js.Exec.{Exec, Outcome, error, resolved, rejected}
use autospace_parking.Js.Exec.Returns.{Returns}
use autospace_parking.Outbox.Entity.{OutboxEvent, NewEvent, Patch, apply, add_attempts, stored}
use autospace_parking.Outbox.Services.{
  Services, Query, Direction, ascending, descending, matches, skips, is_resolved, Precedes,
  IsBeyond, IsSelection, IsLawful,
}
use autospace_parking.Outbox.Relay.Progress.{DatabaseAnswers, BrokerAccepts}

pub record Memory : Type 0 where
  pub a : Option OutboxEvent
  pub b : Option OutboxEvent
  pub sent : List OutboxEvent
  pub clock : ℕ

abbrev pub named : String → OutboxEvent → OutboxEvent
named id e = record e { id = id }

abbrev pub find : Memory → String → Option OutboxEvent
find w j =
    if j == "a"
    then Option.map (named "a") w.a
    else if j == "b"
    then Option.map (named "b") w.b
    else none

abbrev pub change : String → (OutboxEvent → OutboxEvent) → Memory → Memory
change id f w = record w {
  a = if id == "a" then Option.map f w.a else w.a;
  b = if id == "b" then Option.map f w.b else w.b;
}

abbrev pub at_or_before : Direction → OutboxEvent → OutboxEvent → Bool
at_or_before ascending d e = leb d.occurred_at e.occurred_at
at_or_before descending d e = leb e.occurred_at d.occurred_at

abbrev pub candidate : Query → String → Option OutboxEvent → Option OutboxEvent
candidate q id none = none
candidate q id (some e) = if matches q (named id e) then some (named id e) else none

abbrev pub in_order : Query → Option OutboxEvent → Option OutboxEvent → List OutboxEvent
in_order q none none = []
in_order q (some d) none = d ∷ []
in_order q none (some e) = e ∷ []
in_order q (some d) (some e) = if at_or_before q.by_occurred_at d e then d ∷ e ∷ [] else e ∷ d ∷ []

abbrev pub selection : Query → Memory → List OutboxEvent
selection q w = take q.take (in_order q (candidate q "a" w.a) (candidate q "b" w.b))

abbrev pub save : NewEvent → Exec Memory OutboxEvent
save n w = elim w.a [
  | none ↦ let e = stored "a" w.clock n in (resolved e, record w { a = some e })
  | some _ ↦ elim w.b [
    | none ↦ let e = stored "b" w.clock n in (resolved e, record w { b = some e })
    | some _ ↦ (rejected (error "QueryFailedError" "disk full"), w)
  ]
]

-- The broker refuses the events of the ids that pass the test.
abbrev pub memory : (String → Bool) → Services
memory refuses = record {
  World = Memory;
  save = save;
  get_many = λ q w. (resolved (selection q w), w);
  update = λ id p w. (resolved tt, change id (apply p) w);
  increment = λ id n w. (resolved tt, change id (add_attempts n) w);
  publish = λ e w.
      if refuses e.id
      then (rejected (error "KafkaJSError" "refused"), w)
      else (resolved tt, record w { sent = w.sent ++ e ∷ [] });
  now = λ w. w.clock;
  find = find;
  locked = λ w j. false;
  delivered = λ w. w.sent;
}

pub memory-DatabaseAnswers : (refuses : String → Bool) → DatabaseAnswers (memory refuses)
memory-DatabaseAnswers refuses = record {
  get_many = λ q. record { from = λ w. (selection q w, refl) };
  update = λ id p. record { from = λ w. (tt, refl) };
  increment = λ id n. record { from = λ w. (tt, refl) };
}

pub memory-BrokerAccepts : BrokerAccepts (memory (λ id. false))
memory-BrokerAccepts e w = refl
