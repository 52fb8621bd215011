-- ===== src/Outbox/Worker/Processes/Refinement.antt =====
-- The processes with their workers as relays that take turns.
use autospace_parking.Prelude.{
  ◌≡◌, refl, ap, subst, inl, inr, Option, none, some, List, ◌∷◌, All, arith, Bool-cases,
}
use autospace_parking.Outbox.Services.{Services}
use autospace_parking.Outbox.Worker.{new_worker, on_module_init}
use autospace_parking.Outbox.Interleaving.{Point, selecting, advance, Turn, takes, turns}
use autospace_parking.Outbox.Interleaving
use autospace_parking.Outbox.Worker.Processes.{
  Process, added, points, booted, ticked, settled, closed, Act, fires, goes, settles, closes, Step,
  acts, dies, other, boots, enqueues, passes, Reach, here, next,
}
use autospace_parking.Outbox.Worker.Processes.Coupled.{IsCoupled, Step-IsCoupled}

module _ (S : Services) where
  open S use {World}

  -- A step of the relays, or none.
  pub data Moves : List Point → World → List Point → World → Type 0 where
    rests : {xs ys : List Point} (w : World) → xs ≡ ys → Moves xs w ys w
    steps : {xs ys : List Point} {w v : World} → Interleaving.Step S xs w ys v → Moves xs w ys v

  Step-added :
      (b : Option Point) {xs ys : List Point} {w v : World}
      → Interleaving.Step S xs w ys v
      → Interleaving.Step S (added b xs) w (added b ys) v
  Step-added none s = s
  Step-added (some x) (turns t) = turns (Turn.other x t)
  Step-added (some x) (Interleaving.Step.enqueues input ps w) =
      Interleaving.Step.enqueues input (x ∷ ps) w
  Step-added (some x) (Interleaving.Step.passes ps w v rows sends) =
      Interleaving.Step.passes (x ∷ ps) w v rows sends

  Moves-added :
      (b : Option Point) {xs ys : List Point} {w v : World}
      → Moves xs w ys v
      → Moves (added b xs) w (added b ys) v
  Moves-added b (rests w e) = rests w (ap (added b) e)
  Moves-added b (steps s) = steps (Step-added b s)

  -- The batch of the head starts, goes on or ends.
  starting :
      (b c : Option Point) (xs : List Point) (w : World)
      → b ≡ none
      → c ≡ some selecting
      → Moves (added b xs) w (added c xs) w
  starting b c xs w was is = rw (was, is) (steps (turns (Turn.starts xs w)))

  going :
      (b : Option Point) (x : Point) (xs : List Point) (w : World)
      → b ≡ some x
      → Moves (added b xs) w ((advance S x w).0 ∷ xs) (advance S x w).1
  going b x xs w was = rw was (steps (turns (takes x xs w)))

  ending : (b : Option Point) (xs : List Point) (w : World) → Moves (added b xs) w xs w
  ending none xs w = rests w refl
  ending (some x) xs w = steps (turns (Turn.stops x xs w))

  Act-Moves :
      {p : Process} {w : World} {q : Process} {v : World} (ps : List Process)
      → Act S p w q v
      → IsCoupled p
      → Moves (added p.batch (points ps)) w (added q.batch (points ps)) v
  unfolding ticked settled closed
  Act-Moves ps (fires p w ms t) c = elim (Bool-cases p.worker.running) [
    | inl busy ↦ rests w (rw busy refl)
    | inr idle ↦ starting p.batch (ticked p).batch (points ps) w (ground arith) (rw idle refl)
  ]
  Act-Moves ps (goes p w x b r) c = going p.batch x (points ps) w b
  Act-Moves ps (settles p w x outcome b r) c = ending p.batch (points ps) w
  Act-Moves ps (closes p w) c = rests w refl

  Step-Moves :
      {ps qs : List Process} {w v : World}
      → Step S ps w qs v
      → All IsCoupled ps
      → Moves (points ps) w (points qs) v
  unfolding booted
  Step-Moves (acts ps a) c = Act-Moves ps a c.0
  Step-Moves (dies p ps w) c = ending p.batch (points ps) w
  Step-Moves (other p s) c = Moves-added p.batch (Step-Moves s c.1)
  Step-Moves (boots env ps w) c =
      let worker = on_module_init env new_worker in
      elim (Bool-cases worker.running) [
        | inl runs ↦ rw runs (steps (turns (Turn.starts (points ps) w)))
        | inr off ↦ rw off (rests w refl)
      ]
  Step-Moves (enqueues input ps w) c = steps (Interleaving.Step.enqueues input (points ps) w)
  Step-Moves (passes ps w v rows sends) c =
      steps (Interleaving.Step.passes (points ps) w v rows sends)

  moved :
      {start : World} {xs ys : List Point} {w v : World}
      → Interleaving.Reach S start xs w
      → Moves xs w ys v
      → Interleaving.Reach S start ys v
  moved {start} r (rests w e) = subst (λ zs. Interleaving.Reach S start zs w) e r
  moved r (steps s) = Interleaving.Reach.next r s

  -- Whatever the processes with their relay workers do - timers fire, batches make their calls and
  -- end, modules are destroyed, processes come up and die anywhere, events are enqueued - is a run
  -- of relays that take turns, with the same rows and messages and one call of `publishBatch` for
  -- each batch that a process awaits; and each living process awaits one batch at most, which its
  -- running flag and its count tell.
  pub Reach-refines :
      {start : World} {ps : List Process} {w : World}
      → Reach S start ps w
      → Interleaving.Reach S start (points ps) w × All IsCoupled ps
  Reach-refines here = (Interleaving.Reach.here, tt)
  Reach-refines (next r s) =
      let (run, coupled) = Reach-refines r in
      (moved run (Step-Moves s coupled), Step-IsCoupled S s coupled)
