-- ===== src/Outbox/Interleaving/Sound.antt =====
-- However relays and calls of `enqueue` take turns, and wherever relays stop: what a row says of its
-- delivery is true, and no event is lost.
use autospace_parking.Prelude.{◌+◌, inl, inr, List, [], ◌∷◌, All}
use autospace_parking.Js.Exec.Keeps.{Outcome-cases}
use autospace_parking.Outbox.Services.{Services, IsLawful}
use autospace_parking.Outbox.Relay.{unpublished_query, publication, failure}
use autospace_parking.Outbox.Interleaving.{
  Point, selecting, publishing, marking, counting, noting, finished, threw, advance, Turn, takes,
  stops, starts, other, Step, turns, enqueues, passes, Reach, here, next,
}
use autospace_parking.Outbox.Interleaving.Rows.{
  Extends, IsFaithful, Extends-Stored, Extends-refl, Extends-trans, sent-Sent,
}
use autospace_parking.Outbox.Interleaving.Kept.{
  IsReady, IsKept, IsReady-Extends, loop-IsReady, unchanged, publish-IsKept, mark-IsKept,
  count-IsKept, note-IsKept, enqueue-IsKept, All-rows, All-Extends,
}

module _ (S : Services) (L : IsLawful S) where
  open S use {World, find, delivered}

  -- One turn of a relay.
  Goes : World → Point × World → Type 0
  Goes w o = IsKept S w o.1 × IsReady S o.1 o.0

  advance-Goes : (p : Point) (w : World) → IsFaithful S w → IsReady S w p → Goes w (advance S p w)
  unfolding advance Goes
  advance-Goes selecting w h r =
      let v = (S.get_many unpublished_query w).1 in
      let kept =
        unchanged S L w v (L.find-get_many unpublished_query w)
          (L.delivered-get_many unpublished_query w) h in
      elim (Outcome-cases (S.get_many unpublished_query w).0) [
        | inr (t, lost) ↦ (kept, rw lost tt)
        | inl (events, chosen) ↦
            let found =
              All-rows S L w events
                (L.get_many-IsSelection unpublished_query w events chosen).rows in
            (
              kept,
              rw chosen (loop-IsReady S L v events 0 (All-Extends S L events kept.extends found)),
            )
      ]
  advance-Goes (publishing e es n) w h r =
      let v = (S.publish e w).1 in
      let kept = publish-IsKept S L e w r.0 h in
      let stored = Extends-Stored S L e kept.extends r.0 in
      let rest = All-Extends S L es kept.extends r.1 in
      elim (Outcome-cases (S.publish e w).0) [
        | inr (t, lost) ↦ (kept, rw lost rest)
        | inl (_, done) ↦
            let sent = sent-Sent S L w v e (L.find-publish e w) (L.delivered-publish e w done) in
            (kept, rw done (stored, sent, rest))
      ]
  advance-Goes (marking e es n) w h r =
      let v = (S.update e.id (publication (S.now w) e) w).1 in
      let kept = mark-IsKept S L e w r.0 r.1 h in
      let rest = All-Extends S L es kept.extends r.2 in
      elim (Outcome-cases (S.update e.id (publication (S.now w) e) w).0) [
        | inr (t, lost) ↦ (kept, rw lost rest)
        | inl (_, done) ↦ (kept, rw done (loop-IsReady S L v es (n + 1) rest))
      ]
  advance-Goes (counting t e es n) w h r =
      let kept = count-IsKept S L e.id w h in
      let rest = All-Extends S L es kept.extends r in
      elim (Outcome-cases (S.increment e.id 1 w).0) [
        | inr (t', lost) ↦ (kept, rw lost tt)
        | inl (_, done) ↦ (kept, rw done rest)
      ]
  advance-Goes (noting t e es n) w h r =
      let v = (S.update e.id (failure t) w).1 in
      let kept = note-IsKept S L e.id t w h in
      let rest = All-Extends S L es kept.extends r in
      elim (Outcome-cases (S.update e.id (failure t) w).0) [
        | inr (t', lost) ↦ (kept, rw lost tt)
        | inl (_, done) ↦ (kept, rw done (loop-IsReady S L v es n rest))
      ]
  advance-Goes (finished n) w h r = (record { extends = Extends-refl S L w; faithful = h }, tt)
  advance-Goes (threw t) w h r = (record { extends = Extends-refl S L w; faithful = h }, tt)

  All-IsReady :
      {w v : World} (ps : List Point) → Extends S w v → All (IsReady S w) ps → All (IsReady S v) ps
  All-IsReady [] x a = tt
  All-IsReady (p ∷ ps) x a = (IsReady-Extends S L p x a.0, All-IsReady ps x a.1)

  Turn-IsKept :
      {ps qs : List Point} {w v : World}
      → Turn S ps w qs v
      → IsFaithful S w
      → All (IsReady S w) ps
      → IsKept S w v × All (IsReady S v) qs
  unfolding Goes
  Turn-IsKept (takes p ps w) h a =
      let (kept, ready) = advance-Goes p w h a.0 in (kept, (ready, All-IsReady ps kept.extends a.1))
  Turn-IsKept (stops p ps w) h a = (record { extends = Extends-refl S L w; faithful = h }, a.1)
  Turn-IsKept (starts ps w) h a = (record { extends = Extends-refl S L w; faithful = h }, (tt, a))
  Turn-IsKept (other p t) h a =
      let (kept, ready) = Turn-IsKept t h a.1 in
      (kept, (IsReady-Extends S L p kept.extends a.0, ready))

  Step-IsKept :
      {ps qs : List Point} {w v : World}
      → Step S ps w qs v
      → IsFaithful S w
      → All (IsReady S w) ps
      → IsKept S w v × All (IsReady S v) qs
  Step-IsKept (turns t) h a = Turn-IsKept t h a
  Step-IsKept (enqueues input ps w) h a =
      let kept = enqueue-IsKept S L input w h in (kept, All-IsReady ps kept.extends a)
  Step-IsKept (passes ps w v rows sends) h a =
      let kept = unchanged S L w v rows sends h in (kept, All-IsReady ps kept.extends a)

  Reach-IsKept :
      {start : World} {ps : List Point} {w : World}
      → Reach S start ps w
      → IsFaithful S start
      → IsKept S start w × All (IsReady S w) ps
  Reach-IsKept {start} here h = (record { extends = Extends-refl S L start; faithful = h }, tt)
  Reach-IsKept (next r st) h =
      let (kept, ready) = Reach-IsKept r h in
      let (later, ready') = Step-IsKept st kept.faithful ready in
      (
        record {
          extends = Extends-trans S L kept.extends later.extends;
          faithful = later.faithful;
        },
        ready',
      )

  -- However any number of relays and calls of `enqueue` take turns, at each `await` of
  -- `publishBatch`, and wherever relays stop for good: if at the start every row that is published
  -- was sent and everything sent has a row of the same content, then so it is at each moment, and
  -- from the start on no row is gone or has other content, and nothing sent is forgotten.
  pub Reach-IsFaithful :
      {start : World} {ps : List Point} {w : World}
      → Reach S start ps w
      → IsFaithful S start
      → IsFaithful S w × Extends S start w
  Reach-IsFaithful r h = let (kept, _) = Reach-IsKept r h in (kept.faithful, kept.extends)
