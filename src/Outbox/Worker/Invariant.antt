-- ===== src/Outbox/Worker/Invariant.antt =====
-- At most one batch is under way, and the worker is never stuck.
use autospace_parking.Prelude.{ℕ, ◌+◌, ◌≤◌, ◌≡◌, refl, ◌∙◌, true, none, arith, eqb}
use autospace_parking.Js.Exec.{Outcome}
use autospace_parking.Outbox.Worker.{
  Environment, Worker, new_worker, poll_interval, run_once, batch_settled, on_module_init,
  on_module_destroy, Step, fires, settles, destroyed, Reach, here, next,
}

-- The poll interval is 250 ms at least, whatever the setting holds.
poll_interval_lower : (env : Environment) → 250 ≤ poll_interval env
unfolding poll_interval
poll_interval_lower env = ground arith

pub record IsValid (w : Worker) : Type 0 where
  pub at_most_one : w.in_flight ≤ 1
  pub guarded : w.running ≡ eqb w.in_flight 1

run_once-IsValid : (w : Worker) → IsValid w → IsValid (run_once w)
unfolding run_once
run_once-IsValid w v = ground arith

init-IsValid : (env : Environment) → IsValid (on_module_init env new_worker)
unfolding on_module_init
init-IsValid env = ground arith

Step-IsValid : {w u : Worker} → Step w u → IsValid w → IsValid u
unfolding batch_settled on_module_destroy
Step-IsValid (fires w ms t) v = run_once-IsValid w v
Step-IsValid (settles w outcome h) v = ground arith
Step-IsValid (destroyed w) v = ground arith

-- In every state that a started worker reaches by timer ticks, batches that end and its
-- destruction, at most one batch is under way, and the running flag is set exactly while one is.
pub Reach-IsValid :
    (env : Environment) {w : Worker} → Reach (on_module_init env new_worker) w → IsValid w
Reach-IsValid env here = init-IsValid env
Reach-IsValid env (next r s) = Step-IsValid s (Reach-IsValid env r)

-- However a batch ended, by a number or by an error, the next tick of a worker starts another one.
settled_run_once :
    (w : Worker) (outcome : Outcome ℕ)
    → let u = run_once (batch_settled outcome w) in (u.started ≡ w.started + 1) × (u.running ≡ true)
unfolding run_once batch_settled
settled_run_once w outcome = ground arith

stopped : {w u : Worker} → Step w u → w.timer ≡ none → (u.timer ≡ none) × (u.started ≡ w.started)
unfolding batch_settled on_module_destroy
stopped (fires w ms t) h = cc
stopped (settles w outcome p) h = (h, refl)
stopped (destroyed w) h = (refl, refl)

-- After the module is destroyed, its timer is off and no batch is started.
destroyed_starts_nothing :
    (w : Worker) {u : Worker}
    → Reach (on_module_destroy w) u
    → (u.timer ≡ none) × (u.started ≡ w.started)
unfolding on_module_destroy
destroyed_starts_nothing w here = (refl, refl)
destroyed_starts_nothing w (next r s) =
    let (off, count) = destroyed_starts_nothing w r in
    let (off', same) = stopped s off in (off', same ∙ count)
