-- ===== src/Outbox/Tests/Interleaving.antt =====
-- Two relays that take turns on a table of two rows: the first one dies between its send and its
-- update, and the second one, which had read the same rows, sends the event again.
use autospace_parking.Prelude.{
  ◌≡◌, refl, inl, inr, arith, Bool-cases, false, none, some, List, [], ◌∷◌, ◌==◌,
}
use autospace_parking.Outbox.Entity.{OutboxEvent}
use autospace_parking.Outbox.Services.{is_unpublished}
use autospace_parking.Outbox.Memory.{Memory, memory}
use autospace_parking.Outbox.Memory.Lawful.{memory-IsLawful}
use autospace_parking.Outbox.Interleaving.{
  Point, selecting, publishing, marking, finished, advance, advance_all, takes, stops, other, turns,
  starts, Reach, here, next,
}
use autospace_parking.Outbox.Interleaving.Rows.{IsFaithful, Extends}
use autospace_parking.Outbox.Interleaving.Sound.{Reach-IsFaithful}
use autospace_parking.Outbox.Relay.{unpublished_query}
use autospace_parking.Outbox.Tests.Relay.{accepts, both_wait, event}

abbrev pub sent_b : OutboxEvent
sent_b = record (event 10 none) { id = "b" }

abbrev pub sent_a : OutboxEvent
sent_a = record (event 20 none) { id = "a" }

-- "b" was sent by both relays.
abbrev sent_twice : Memory
sent_twice = record {
  a = some (record (event 20 (some 99)) { id = ""; attempts = 1 });
  b = some (record (event 10 (some 99)) { attempts = 1 });
  sent = sent_b ∷ sent_b ∷ sent_a ∷ [];
  clock = 99;
}

abbrev In : List Point → Memory → Type 0
In = Reach (memory accepts) both_wait

both_select :
    In (publishing sent_b (sent_a ∷ []) 0 ∷ publishing sent_b (sent_a ∷ []) 0 ∷ []) both_wait
unfolding advance unpublished_query
both_select =
    next
      (next (next (next here (turns (starts [] both_wait))) (turns (starts _ both_wait)))
        (turns (takes selecting _ both_wait)))
      (turns (other _ (takes selecting _ both_wait)))

abbrev pub once : Memory
once = record both_wait { sent = sent_b ∷ [] }

first_dies : In (publishing sent_b (sent_a ∷ []) 0 ∷ []) once
unfolding advance
first_dies =
    next (next both_select (turns (takes _ _ both_wait)))
      (turns (stops (marking sent_b _ _) _ once))

sends_again : In (finished 2 ∷ []) sent_twice
unfolding advance
sends_again =
    next
      (next
        (next (next first_dies (turns (takes _ [] once))) (turns (takes (marking sent_b _ _) [] _)))
        (turns (takes (publishing sent_a [] 1) [] _)))
      (turns (takes (marking sent_a [] 1) [] _))

waits :
    (e : OutboxEvent) → (memory accepts).find both_wait e.id ≡ some e → is_unpublished e ≡ false → ⊥
waits e row old = elim (Bool-cases (e.id == "a")) [
  | inl first ↦ ground (arith, row, old, first)
  | inr no_a ↦ elim (Bool-cases (e.id == "b")) [
    | inl second ↦ ground (arith, row, old, no_a, second)
    | inr no_b ↦ ground (arith, row, no_a, no_b)
  ]
]

pub both_wait-IsFaithful : IsFaithful (memory accepts) both_wait
both_wait-IsFaithful = record {
  published = λ e row old. absurd (waits e row old);
  stored = λ d m. elim m [ ];
}

Reach-IsFaithful_example :
    IsFaithful (memory accepts) sent_twice × Extends (memory accepts) both_wait sent_twice
Reach-IsFaithful_example =
    Reach-IsFaithful (memory accepts) (memory-IsLawful accepts) sends_again both_wait-IsFaithful

alone_run : advance_all (memory accepts) 5 selecting both_wait ≡ (
  finished 2,
  record both_wait {
    a = some (record (event 20 (some 99)) { attempts = 1 });
    b = some (record (event 10 (some 99)) { attempts = 1 });
    sent = sent_b ∷ sent_a ∷ [];
  },
)
unfolding advance_all advance unpublished_query
alone_run = refl
