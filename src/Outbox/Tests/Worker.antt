-- ===== src/Outbox/Tests/Worker.antt =====
-- A worker that is started, ticks and is destroyed.
use autospace_parking.Prelude.{◌≡◌, refl, true, none, some, arith}
use autospace_parking.Js.Exec.{rejected, value}
use autospace_parking.Js.Text.{is_space}
use autospace_parking.Js.Number.{parse_int}
use autospace_parking.Outbox.Worker.{
  Environment, Worker, new_worker, poll_interval, run_once, batch_settled, on_module_init, fires,
  settles, Reach, here, next,
}
use autospace_parking.Outbox.Worker.Invariant.{IsValid, Reach-IsValid}

abbrev settings : Environment
settings = record { enabled = none; poll_ms = some "300" }

poll_tests :
    (poll_interval settings ≡ 300)
    × (poll_interval (record { enabled = none; poll_ms = some "100" }) ≡ 5000)
    × (poll_interval (record { enabled = none; poll_ms = none }) ≡ 5000)
    × (poll_interval (record { enabled = none; poll_ms = some "soon" }) ≡ 5000)
unfolding poll_interval is_space parse_int
poll_tests = (refl, refl, refl, refl)

abbrev started : Worker
started = record { timer = some 300; running = true; in_flight = 1; started = 1 }

init_run : on_module_init settings new_worker ≡ started
unfolding on_module_init is_space parse_int
init_run = refl

-- A tick while the first batch is under way, then the end of that batch.
ticked :
    Reach
      (on_module_init settings new_worker)
      (batch_settled (rejected (value "down")) (run_once started))
unfolding on_module_init is_space parse_int
ticked =
    next (next here (fires started 300 refl))
      (settles (run_once started) (rejected (value "down")) (unfold run_once in omega arith))

Reach-IsValid_example : IsValid (batch_settled (rejected (value "down")) (run_once started))
Reach-IsValid_example = Reach-IsValid settings ticked
