-- ===== src/Outbox/Tests/Deployed.antt =====
-- A broker and a handler that each refuse their first event and then take all.
use autospace_parking.Prelude.{◌≡◌, refl, Bool, true, false, [], ◌∷◌, ◌++◌, if◌then◌else◌}
use autospace_parking.Js.Exec.{Exec, error, resolved, rejected}
use autospace_parking.Js.Json.{obj}
use autospace_parking.Outbox.Relay.Batches.{batches}
use autospace_parking.Outbox.Consumer.Ports.{Services}
use autospace_parking.Outbox.Consumer.Interleaving as Turns
use autospace_parking.Outbox.Consumer.Interleaving.Safe.{calls}
use autospace_parking.Outbox.Pipeline.{Wire}
use autospace_parking.Outbox.Tests.Consumer.{Memory, memory, empty, published}
use autospace_parking.Outbox.Tests.Recovery as Producer

-- The ledger, and whether the handler is ready.
abbrev World : Type 0
World = Memory × Bool

abbrev on_ledger : {A : Type 0} → Exec Memory A → Exec World A
on_ledger m (w, ready) = ((m w).0, ((m w).1, ready))

abbrev flaky : Services
flaky = record {
  World = World;
  Body = memory.Body;
  parse = memory.parse;
  find_one_by = λ id. on_ledger (memory.find_one_by id);
  insert = λ row. on_ledger (memory.insert row);
  handler = λ event (w, ready). (
    if ready then resolved tt else rejected (error "Error" "not ready"),
    (record w { calls = w.calls ++ event ∷ [] }, true),
  );
  ledger = λ x. memory.ledger x.0;
  handled = λ x. memory.handled x.0;
}

abbrev Ready : World → Type 0
Ready x = x.1 ≡ true

abbrev wire : Wire flaky
wire = record { stringify = obj; parse-stringify = λ o plain. refl }

abbrev not_ready : World
not_ready = (empty, false)

-- The handler throws for another event.
abbrev was_called : World
was_called = (record empty { calls = obj published ∷ [] }, true)

abbrev recovered : Producer.World
recovered = batches Producer.flaky 2 Producer.later
