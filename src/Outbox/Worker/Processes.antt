-- ===== src/Outbox/Worker/Processes.antt =====
-- The API's processes, each with the worker of outbox-relay.worker.ts and the batch that the worker
-- awaits, cut at each `await` of `publishBatch`.
pub mod Coupled
pub mod Refinement
pub mod Recovery
use autospace_parking.Prelude.{
  ℕ, String, ◌≡◌, Bool, true, false, Option, none, some, List, [], ◌∷◌, if◌then◌else◌,
}
use autospace_parking.Js.Exec.{Outcome, resolved, rejected}
use autospace_parking.Outbox.Services.{Services}
use autospace_parking.Outbox.Service.{EnqueueEventInput, enqueue}
use autospace_parking.Outbox.Interleaving.{Point, selecting, finished, threw, advance}
use autospace_parking.Outbox.Worker.{
  Environment, Worker, new_worker, run_once, batch_settled, on_module_init, on_module_destroy,
}

-- A worker, and what the call of `publishBatch` that it awaits is about to do.
pub record Process : Type 0 where
  pub worker : Worker
  pub batch : Option Point

-- How a call of `publishBatch` has ended, if it has.
abbrev pub result : Point → Option (Outcome ℕ)
result (finished n) = some (resolved n)
result (threw thrown) = some (rejected thrown)
result _ = none

-- A process that comes up.
unfoldable pub booted : Environment → Process
booted env =
    let worker = on_module_init env new_worker in
    record { worker = worker; batch = if worker.running then some selecting else none }

-- `runOnce` is called: it returns at once, or calls `publishBatch`.
unfoldable pub ticked : Process → Process
ticked p = record {
  worker = run_once p.worker;
  batch = if p.worker.running then p.batch else some selecting;
}

-- The awaited call has ended.
unfoldable pub settled : Outcome ℕ → Process → Process
settled outcome p = record { worker = batch_settled outcome p.worker; batch = none }

unfoldable pub closed : Process → Process
closed p = record p { worker = on_module_destroy p.worker }

module _ (S : Services) where
  open S use {World}

  -- What one process does next: its timer fires, its batch makes its next call or has ended, or its
  -- module is destroyed.
  pub data Act : Process → World → Process → World → Type 0 where
    fires : (p : Process) (w : World) (ms : ℕ) → p.worker.timer ≡ some ms → Act p w (ticked p) w
    goes :
        (p : Process) (w : World) (x : Point)
        → p.batch ≡ some x
        → result x ≡ none
        → Act p w (record p { batch = some (advance S x w).0 }) (advance S x w).1
    settles :
        (p : Process) (w : World) (x : Point) (outcome : Outcome ℕ)
        → p.batch ≡ some x
        → result x ≡ some outcome
        → Act p w (settled outcome p) w
    closes : (p : Process) (w : World) → Act p w (closed p) w

  -- What may happen: a process acts, dies at any point or comes up, an event is enqueued, or
  -- something leaves the rows and what was sent as they are.
  pub data Step : List Process → World → List Process → World → Type 0 where
    acts :
        {p q : Process} {w v : World} (ps : List Process) → Act p w q v → Step (p ∷ ps) w (q ∷ ps) v
    dies : (p : Process) (ps : List Process) (w : World) → Step (p ∷ ps) w ps w
    other :
        (p : Process) {ps qs : List Process} {w v : World}
        → Step ps w qs v
        → Step (p ∷ ps) w (p ∷ qs) v
    boots : (env : Environment) (ps : List Process) (w : World) → Step ps w (booted env ∷ ps) w
    enqueues :
        (input : EnqueueEventInput) (ps : List Process) (w : World)
        → Step ps w ps (enqueue S input none w).1
    passes :
        (ps : List Process) (w v : World)
        → ((j : String) → S.find v j ≡ S.find w j)
        → S.delivered v ≡ S.delivered w
        → Step ps w ps v

  pub data Reach (start : World) : List Process → World → Type 0 where
    here : Reach start [] start
    next :
        {ps qs : List Process} {w v : World} → Reach start ps w → Step ps w qs v → Reach start qs v

abbrev pub added : Option Point → List Point → List Point
added none xs = xs
added (some x) xs = x ∷ xs

-- The calls of `publishBatch` that are under way.
abbrev pub points : List Process → List Point
points [] = []
points (p ∷ ps) = added p.batch (points ps)
