-- ===== src/Outbox/Worker.antt =====
-- outbox-relay.worker.ts: the timer that runs batches, one at a time.
pub mod Invariant
pub mod Processes
use autospace_parking.Prelude.{
  ℕ, ◌+◌, ◌-◌, ◌<◌, String, ◌≡◌, Bool, true, false, ◌&&◌, Option, none, some, ◌==◌, if◌then◌else◌,
}
use autospace_parking.Js.Exec.{Outcome}
use autospace_parking.Js.Text.{or_default}
use autospace_parking.Js.Number.{Number, nan, infinite, integer, is_integer, is_at_least, parse_int}

-- `OUTBOX_RELAY_ENABLED` and `OUTBOX_RELAY_POLL_MS`.
pub record Environment : Type 0 where
  pub enabled : Option String
  pub poll_ms : Option String

-- The value of a number that is no less than 0.
abbrev pub magnitude : Number → ℕ
magnitude nan = 0
magnitude (infinite minus) = 0
magnitude (integer minus n) = n

unfoldable pub poll_interval : Environment → ℕ
poll_interval env =
    let configured = parse_int (or_default env.poll_ms "5000") in
    if is_integer configured && is_at_least configured 250 then magnitude configured else 5000

-- The worker's fields, and how many calls of `runOnce` wait for their batch.
pub record Worker : Type 0 where
  pub timer : Option ℕ
  pub running : Bool
  pub in_flight : ℕ
  pub started : ℕ

abbrev pub new_worker : Worker
new_worker = record { timer = none; running = false; in_flight = 0; started = 0 }

-- `runOnce` up to its `await`.
unfoldable pub run_once : Worker → Worker
run_once w =
    if w.running
    then w
    else record w { running = true; in_flight = w.in_flight + 1; started = w.started + 1 }

-- `runOnce` from where the batch has settled, by a number or by an error: both ways reach `finally`.
unfoldable pub batch_settled : Outcome ℕ → Worker → Worker
batch_settled outcome w = record w { running = false; in_flight = w.in_flight - 1 }

is_false : Option String → Bool
is_false none = false
is_false (some s) = s == "false"

unfoldable pub on_module_init : Environment → Worker → Worker
unfolding is_false run_once poll_interval
on_module_init env w =
    if is_false env.enabled then w else run_once (record w { timer = some (poll_interval env) })

unfoldable pub on_module_destroy : Worker → Worker
on_module_destroy w = record w { timer = none }

-- What the event loop may do to a worker once it is initialised: fire its timer, settle a batch
-- that is under way, or destroy the module.
pub data Step : Worker → Worker → Type 0 where
  fires : (w : Worker) (ms : ℕ) → w.timer ≡ some ms → Step w (run_once w)
  settles : (w : Worker) (outcome : Outcome ℕ) → 0 < w.in_flight → Step w (batch_settled outcome w)
  destroyed : (w : Worker) → Step w (on_module_destroy w)

pub data Reach (v : Worker) : Worker → Type 0 where
  here : Reach v v
  next : {w u : Worker} → Reach v w → Step w u → Reach v u
