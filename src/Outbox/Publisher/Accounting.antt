-- ===== src/Outbox/Publisher/Accounting.antt =====
-- One connection attempt at a time, and no event lost or sent twice by the publisher itself.
use autospace_parking.Prelude.{
  ℕ, ◌+◌, ◌≡◌, refl, ◌⊎◌, List, [], ◌∷◌, arith, inl, Bool, count_if, count_if-append,
}
use autospace_parking.Outbox.Entity.{OutboxEvent}
use autospace_parking.Outbox.Publisher.{
  Publisher, new_publisher, Connection, absent, pending, Call, publishes, opens, fails, step, run,
}

abbrev is_failure : Call → Publisher → ℕ
is_failure fails p = elim p.connection [ pending ↦ 1 | _ ↦ 0 ]
is_failure _ p = 0

-- How many connection attempts have been rejected in a run.
pub failures : List Call → Publisher → ℕ
failures [] p = 0
failures (c ∷ cs) p = is_failure c p + failures cs (step c p)

-- The events that a run is asked to publish.
pub asked : List Call → List OutboxEvent
asked [] = []
asked (publishes e ∷ cs) = e ∷ asked cs
asked (opens ∷ cs) = asked cs
asked (fails ∷ cs) = asked cs

-- An attempt that has not been rejected.
abbrev pub standing : Connection → ℕ
standing absent = 0
standing _ = 1

-- Events wait only for a connection attempt that is under way.
abbrev WaitsForConnection : Publisher → Type 0
WaitsForConnection p = p.waiting ≡ [] ⊎ (p.connection ≡ pending)

step-WaitsForConnection :
    (c : Call) (p : Publisher) → WaitsForConnection p → WaitsForConnection (step c p)
unfolding step
step-WaitsForConnection (publishes e) p v = ground arith
step-WaitsForConnection opens p v = ground arith
step-WaitsForConnection fails p v = ground arith

run-WaitsForConnection :
    (cs : List Call) (p : Publisher) → WaitsForConnection p → WaitsForConnection (run cs p)
unfolding run
run-WaitsForConnection [] p v = v
run-WaitsForConnection (c ∷ cs) p v =
    run-WaitsForConnection cs (step c p) (step-WaitsForConnection c p v)

step-attempts :
    (c : Call) (p : Publisher)
    → (step c p).attempts + standing p.connection
      ≡ p.attempts + is_failure c p + standing (step c p).connection
unfolding step
step-attempts (publishes e) p = ground arith
step-attempts opens p = ground arith
step-attempts fails p = ground arith

run-attempts :
    (cs : List Call) (p : Publisher)
    → (run cs p).attempts + standing p.connection
      ≡ p.attempts + failures cs p + standing (run cs p).connection
unfolding run failures
run-attempts [] p = omega arith
run-attempts (c ∷ cs) p = omega (arith, step-attempts c p, run-attempts cs (step c p))

-- The producer connects once, and once more after each attempt that was rejected; and sends wait
-- only while an attempt is pending.
connects_once :
    (cs : List Call)
    → let p = run cs new_publisher in
      (p.attempts ≡ failures cs new_publisher + standing p.connection) × WaitsForConnection p
connects_once cs = (
  omega (arith, run-attempts cs new_publisher),
  run-WaitsForConnection cs new_publisher (inl refl),
)

module _ (test : OutboxEvent → Bool) where
  -- The events that pass the test, wherever they have got to.
  abbrev pub accounted : Publisher → ℕ
  accounted p = count_if test p.sent + count_if test p.failed + count_if test p.waiting

  accounted-step :
      (c : Call) (p : Publisher)
      → accounted (step c p) ≡ accounted p + count_if test (asked (c ∷ []))
  unfolding step asked
  accounted-step (publishes e) p =
      ground (arith, count_if-append test p.sent (e ∷ []), count_if-append test p.waiting (e ∷ []))
  accounted-step opens p = ground (arith, count_if-append test p.sent p.waiting)
  accounted-step fails p = ground (arith, count_if-append test p.failed p.waiting)

  accounted-run :
      (cs : List Call) (p : Publisher)
      → accounted (run cs p) ≡ accounted p + count_if test (asked cs)
  unfolding run asked
  accounted-run [] p = omega arith
  accounted-run (publishes e ∷ cs) p =
      omega (arith, accounted-step (publishes e) p, accounted-run cs (step (publishes e) p))
  accounted-run (opens ∷ cs) p =
      omega (arith, accounted-step opens p, accounted-run cs (step opens p))
  accounted-run (fails ∷ cs) p =
      omega (arith, accounted-step fails p, accounted-run cs (step fails p))

-- Of every kind of event, as many have been sent, have failed or are waiting for the connection as
-- were asked for: none is lost or sent twice by the publisher.
pub publisher_accounts :
    (cs : List Call) (test : OutboxEvent → Bool)
    → accounted test (run cs new_publisher) ≡ count_if test (asked cs)
publisher_accounts cs test = omega (arith, accounted-run test cs new_publisher)
