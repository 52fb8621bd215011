-- ===== src/Outbox/Tests/Consumers.antt =====
-- Consumers that take turns on a ledger in memory.
use autospace_parking.Prelude.{◌≡◌, refl, some, List, [], ◌∷◌}
use autospace_parking.Js.Json.{obj, get}
use autospace_parking.Outbox.Consumer.{
  process, consume, read, unless_consumed, handle_new, property,
}
use autospace_parking.Outbox.Consumer.Interleaving.{
  Point, finished, checked, begin, advance, takes, turns, delivers, Reach, here, next,
}
use autospace_parking.Outbox.Consumer.Interleaving.Alone.{three_turns}
use autospace_parking.Outbox.Consumer.Interleaving.Entered.{IsHandled, Reach-IsHandled}
use autospace_parking.Outbox.Consumer.Interleaving.Safe.{calls, Reach-IsSettled}
use autospace_parking.Outbox.Consumer.Interleaving.Twice.{handled_twice}
use autospace_parking.Outbox.Tests.Consumer.{
  Memory, memory, memory-IsLawful, settings, published, published-Holds, row, empty, seen,
  process_run,
}

handled_twice_example :
    (ps : List Point) × (u : Memory) × Reach memory settings [] empty ps u
    × (u.calls ≡ obj published ∷ obj published ∷ [])
handled_twice_example =
    handled_twice memory memory-IsLawful settings (obj published) published "e1" "listing.published"
      empty published-Holds refl refl (λ v. refl)

-- The event is delivered again, to a consumer that looks it up.
again : Reach memory settings [] seen (finished ∷ []) seen
unfolding begin property checked advance process consume read unless_consumed handle_new get
again = next (next here (delivers (some (obj published)) [] seen)) (turns (takes _ [] seen))

Reach-IsSettled_example :
    (seen.rows "e1" ≡ some row) × (calls memory "e1" seen ≡ calls memory "e1" seen)
Reach-IsSettled_example = Reach-IsSettled memory memory-IsLawful "e1" row process_run tt again

no_row : IsHandled memory "e1" empty
no_row = record { called = λ there. absurd (there refl) }

abbrev three : Point × Memory
three = three_turns memory (begin memory settings (some (obj published))) empty

first : Reach memory settings [] empty (three.0 ∷ []) three.1
first =
    next
      (next (next (next here (delivers (some (obj published)) [] empty)) (turns (takes _ [] _)))
        (turns (takes _ [] _)))
      (turns (takes _ [] _))

Reach-IsHandled_example : IsHandled memory "e1" three.1
Reach-IsHandled_example = Reach-IsHandled memory memory-IsLawful "e1" no_row first
