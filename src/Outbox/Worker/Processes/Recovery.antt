-- ===== src/Outbox/Worker/Processes/Recovery.antt =====
-- A process that comes up and whose turns are the only ones.
use autospace_parking.Prelude.{some, List, ◌∷◌}
use autospace_parking.Outbox.Services.{Services}
use autospace_parking.Outbox.Interleaving.{Point}
use autospace_parking.Outbox.Worker.{Worker}
use autospace_parking.Outbox.Worker.Processes.{Process, Reach}

-- A process with a batch under way.
abbrev awaiting : Worker → Point → Process
awaiting worker x = record { worker = worker; batch = some x }

module _ (S : Services) (start : S.World) (ps : List Process) where
  open S use {World}

  abbrev At : Worker → Point × World → Type 0
  At worker o = Reach S start (awaiting worker o.0 ∷ ps) o.1
