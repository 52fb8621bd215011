-- ===== src/Outbox/Interleaving.antt =====
-- outbox-relay.service.ts and outbox.service.ts at once: `publishBatch` cut at each `await`, so that
-- any number of relays and of calls of `enqueue` take turns, and a relay may stop for good anywhere.
pub mod Alone
pub mod Rows
pub mod Kept
pub mod Sound
pub mod Recovery
pub mod Twice
use autospace_parking.Prelude.{String, ◌≡◌, ℕ, zero, suc, ◌+◌, none, List, [], ◌∷◌}
use autospace_parking.Js.Exec.{Outcome, Thrown, resolved, rejected}
use autospace_parking.Outbox.Entity.{OutboxEvent}
use autospace_parking.Outbox.Services.{Services}
use autospace_parking.Outbox.Service.{EnqueueEventInput, enqueue}
use autospace_parking.Outbox.Relay.{unpublished_query, publication, failure}

-- What a relay awaits next: the query; of the event at hand the send, the update that marks it, the
-- increment or the update that notes an error; or nothing, since it has returned or thrown. The
-- events that follow and the number of those published stand beside it.
pub data Point : Type 0 where
  selecting : Point
  publishing marking : OutboxEvent → List OutboxEvent → ℕ → Point
  counting noting : Thrown → OutboxEvent → List OutboxEvent → ℕ → Point
  finished : ℕ → Point
  threw : Thrown → Point

-- The head of the loop.
abbrev pub loop : List OutboxEvent → ℕ → Point
loop [] published = finished published
loop (event ∷ events) published = publishing event events published

abbrev pub selected : Outcome (List OutboxEvent) → Point
selected (resolved events) = loop events 0
selected (rejected thrown) = threw thrown

-- `catch`
abbrev pub or_count : Outcome (Unit {0}) → Point → OutboxEvent → List OutboxEvent → ℕ → Point
or_count (resolved _) p event events published = p
or_count (rejected thrown) p event events published = counting thrown event events published

abbrev pub or_throw : Outcome (Unit {0}) → Point → Point
or_throw (resolved _) p = p
or_throw (rejected thrown) p = threw thrown

module _ (S : Services) where
  open S use {World}

  -- One `await`, with what runs up to the next one.
  unfoldable pub advance : Point → World → Point × World
  advance selecting w = let (r, v) = S.get_many unpublished_query w in (selected r, v)
  advance (publishing event events published) w =
      let (r, v) = S.publish event w in
      (or_count r (marking event events published) event events published, v)
  advance (marking event events published) w =
      let (r, v) = S.update event.id (publication (S.now w) event) w in
      (or_count r (loop events (published + 1)) event events published, v)
  advance (counting thrown event events published) w =
      let (r, v) = S.increment event.id 1 w in
      (or_throw r (noting thrown event events published), v)
  advance (noting thrown event events published) w =
      let (r, v) = S.update event.id (failure thrown) w in (or_throw r (loop events published), v)
  advance (finished n) w = (finished n, w)
  advance (threw thrown) w = (threw thrown, w)

  unfoldable pub advance_all : ℕ → Point → World → Point × World
  advance_all zero p w = (p, w)
  advance_all (suc n) p w = let (q, v) = advance p w in advance_all n q v

  -- One of the relays takes its turn, or stops for good: it has ended, or its process has died; or
  -- there is a new call of `publishBatch`.
  pub data Turn : List Point → World → List Point → World → Type 0 where
    takes :
        (p : Point) (ps : List Point) (w : World)
        → Turn (p ∷ ps) w ((advance p w).0 ∷ ps) (advance p w).1
    stops : (p : Point) (ps : List Point) (w : World) → Turn (p ∷ ps) w ps w
    starts : (ps : List Point) (w : World) → Turn ps w (selecting ∷ ps) w
    other :
        (p : Point) {ps qs : List Point} {w v : World} → Turn ps w qs v → Turn (p ∷ ps) w (p ∷ qs) v

  -- What may happen: a turn, a call of `enqueue`, or something that leaves the rows and what was sent as they are, such as time or the lock of another transaction.
  pub data Step : List Point → World → List Point → World → Type 0 where
    turns : {ps qs : List Point} {w v : World} → Turn ps w qs v → Step ps w qs v
    enqueues :
        (input : EnqueueEventInput) (ps : List Point) (w : World)
        → Step ps w ps (enqueue S input none w).1
    passes :
        (ps : List Point) (w v : World)
        → ((j : String) → S.find v j ≡ S.find w j)
        → S.delivered v ≡ S.delivered w
        → Step ps w ps v

  pub data Reach (start : World) : List Point → World → Type 0 where
    here : Reach start [] start
    next : {ps qs : List Point} {w v : World} → Reach start ps w → Step ps w qs v → Reach start qs v
