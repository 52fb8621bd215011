-- ===== src/Outbox/Worker/Processes/Coupled.antt =====
-- How a worker's running flag and the batch that it awaits go together.
use autospace_parking.Prelude.{ℕ, ◌≡◌, Option, none, some, List, All, arith, eqb}
use autospace_parking.Outbox.Services.{Services}
use autospace_parking.Outbox.Interleaving.{Point}
use autospace_parking.Outbox.Worker.{
  Environment, run_once, batch_settled, on_module_init, on_module_destroy,
}
use autospace_parking.Outbox.Worker.Processes.{
  Process, booted, ticked, settled, closed, Act, fires, goes, settles, closes, Step, acts, dies,
  other, boots, enqueues, passes,
}

-- The number of batches that a process has under way.
abbrev pub batches_of : Option Point → ℕ
batches_of none = 0
batches_of (some _) = 1

-- The flag, the count and the batch agree.
pub record IsCoupled (p : Process) : Type 0 where
  pub counted : p.worker.in_flight ≡ batches_of p.batch
  pub flagged : p.worker.running ≡ eqb (batches_of p.batch) 1

pub booted-IsCoupled : (env : Environment) → IsCoupled (booted env)
unfolding booted on_module_init
booted-IsCoupled env = ground arith

ticked-IsCoupled : (p : Process) → IsCoupled p → IsCoupled (ticked p)
unfolding ticked run_once
ticked-IsCoupled p c = ground arith

module _ (S : Services) where
  Act-IsCoupled :
      {p : Process} {w : S.World} {q : Process} {v : S.World}
      → Act S p w q v
      → IsCoupled p
      → IsCoupled q
  unfolding settled closed batch_settled on_module_destroy
  Act-IsCoupled (fires p w ms t) c = ticked-IsCoupled p c
  Act-IsCoupled (goes p w x b r) c = ground arith
  Act-IsCoupled (settles p w x outcome b r) c = ground arith
  Act-IsCoupled (closes p w) c = ground arith

  pub Step-IsCoupled :
      {ps qs : List Process} {w v : S.World}
      → Step S ps w qs v
      → All IsCoupled ps
      → All IsCoupled qs
  Step-IsCoupled (acts ps a) c = (Act-IsCoupled a c.0, c.1)
  Step-IsCoupled (dies p ps w) c = c.1
  Step-IsCoupled (other p s) c = (c.0, Step-IsCoupled s c.1)
  Step-IsCoupled (boots env ps w) c = (booted-IsCoupled env, c)
  Step-IsCoupled (enqueues input ps w) c = c
  Step-IsCoupled (passes ps w v rows sends) c = c
