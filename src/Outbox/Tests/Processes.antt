-- ===== src/Outbox/Tests/Processes.antt =====
-- Two processes with a relay each: one dies between its send and its update, and the other stops
-- while it waits.
use autospace_parking.Prelude.{refl, none, some, [], ◌∷◌, All}
use autospace_parking.Outbox.Memory.{memory}
use autospace_parking.Outbox.Relay.{unpublished_query}
use autospace_parking.Outbox.Interleaving.{Point, publishing, marking, advance}
use autospace_parking.Outbox.Interleaving
use autospace_parking.Outbox.Worker.{Environment, on_module_init}
use autospace_parking.Outbox.Worker.Processes.{
  Process, booted, points, goes, acts, dies, other, boots, Reach, here, next,
}
use autospace_parking.Outbox.Worker.Processes.Coupled.{IsCoupled}
use autospace_parking.Outbox.Worker.Processes.Refinement.{Reach-refines}
use autospace_parking.Outbox.Tests.Relay.{accepts, both_wait}
use autospace_parking.Outbox.Tests.Interleaving.{sent_a, sent_b, once}

abbrev pub unset : Environment
unset = record { enabled = none; poll_ms = none }

abbrev reading : Process
reading = record (booted unset) { batch = some (publishing sent_b (sent_a ∷ []) 0) }

-- Both have read the two rows.
both_read : Reach (memory accepts) both_wait (reading ∷ reading ∷ []) both_wait
unfolding booted on_module_init advance unpublished_query
both_read =
    next
      (next (next (next here (boots unset [] both_wait)) (boots unset _ both_wait))
        (acts _ (goes (booted unset) both_wait Interleaving.Point.selecting refl refl)))
      (other reading
        (acts [] (goes (booted unset) both_wait Interleaving.Point.selecting refl refl)))

-- One has sent "b" and dies before it marks the row.
one_left : Reach (memory accepts) both_wait (reading ∷ []) once
unfolding booted advance
one_left =
    next
      (next both_read (
        acts (reading ∷ []) (goes reading both_wait (publishing sent_b (sent_a ∷ []) 0) refl refl)))
      (dies (record reading { batch = some (marking sent_b (sent_a ∷ []) 0) }) (reading ∷ []) once)

Reach-refines_example :
    Interleaving.Reach (memory accepts) both_wait (points (reading ∷ [])) once
    × All IsCoupled (reading ∷ [])
Reach-refines_example = Reach-refines (memory accepts) one_left
