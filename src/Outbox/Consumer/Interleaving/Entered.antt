-- ===== src/Outbox/Consumer/Interleaving/Entered.antt =====
-- However consumers take turns, an event that is entered in the ledger has been handled.
use autospace_parking.Prelude.{
  ◌+◌, ◌≤◌, String, ◌≡◌, ◌≢◌, sym, ap, ◌∙◌, inl, inr, none, some, List, [], ◌∷◌, ◌==◌, eq_iff,
  arith, if◌then◌else◌, All, count_if, count_if-append, Bool-cases,
}
use autospace_parking.Js.Exec.Keeps.{Outcome-cases}
use autospace_parking.Js.Json.{Json}
use autospace_parking.Outbox.Consumer.Ports.{ConsumedEvent, Services, IsLawful}
use autospace_parking.Outbox.Consumer.{Environment}
use autospace_parking.Outbox.Consumer.Once.{is_event}
use autospace_parking.Outbox.Consumer.Interleaving.{
  Point, looking, handling, inserting, finished, threw, begin, advance, Turn, takes, stops, other,
  turns, delivers, Reach, here, next,
}
use autospace_parking.Outbox.Consumer.Interleaving.Safe.{IsFresh, calls, begin-IsFresh}

module _ (S : Services) where
  open S use {World, Body, ledger, handled}

  -- An insert of the event comes after a call of the handler.
  abbrev pub IsBacked : String → World → Point → Type 0
  IsBacked k w (looking group event id type) = is_event k event ≡ (id == k)
  IsBacked k w (handling group event id type) = is_event k event ≡ (id == k)
  IsBacked k w (inserting row event) = row.event_id ≡ k → 1 ≤ calls S k w
  IsBacked k w finished = Unit
  IsBacked k w (threw thrown) = Unit

  -- The event is not in the ledger, or it was handled.
  pub record IsHandled (k : String) (w : World) : Type 0 where
    pub called : ledger w k ≢ none → 1 ≤ calls S k w

  IsBacked-le :
      (k : String) (w v : World) (p : Point)
      → calls S k w ≤ calls S k v
      → IsBacked k w p
      → IsBacked k v p
  IsBacked-le k w v (looking group event id type) le b = b
  IsBacked-le k w v (handling group event id type) le b = b
  IsBacked-le k w v (inserting row event) le b = λ same. omega (arith, b same)
  IsBacked-le k w v finished le b = tt
  IsBacked-le k w v (threw thrown) le b = tt

  All-IsBacked :
      (k : String) (w v : World) (ps : List Point)
      → calls S k w ≤ calls S k v
      → All (IsBacked k w) ps
      → All (IsBacked k v) ps
  All-IsBacked k w v [] le a = tt
  All-IsBacked k w v (p ∷ ps) le a = (IsBacked-le k w v p le a.0, All-IsBacked k w v ps le a.1)

  IsFresh-IsBacked : (k : String) (w : World) (p : Point) → IsFresh k p → IsBacked k w p
  IsFresh-IsBacked k w (looking group event id type) h = h
  IsFresh-IsBacked k w (handling group event id type) h = absurd h
  IsFresh-IsBacked k w (inserting row event) h = absurd h
  IsFresh-IsBacked k w finished h = tt
  IsFresh-IsBacked k w (threw thrown) h = tt

module _ (S : Services) (L : IsLawful S) (k : String) where
  open S use {World, Body, ledger, handled}

  -- What a turn of one consumer does to the event.
  Goes : World → Point × World → Type 0
  Goes w o = IsHandled S k o.1 × IsBacked S k o.1 o.0 × (calls S k w ≤ calls S k o.1)

  look-Goes :
      (group : String) (event : Json) (id type : String) (w : World)
      → IsHandled S k w
      → is_event k event ≡ (id == k)
      → Goes w (advance S (looking group event id type) w)
  unfolding advance Goes
  look-Goes group event id type w h fits =
      let same = L.find_one_by-world id w in
      let kept : IsHandled S k (S.find_one_by id w).1 = rw same h in
      let le : calls S k w ≤ calls S k (S.find_one_by id w).1 = rw same (omega arith) in
      elim (Outcome-cases (S.find_one_by id w).0) [
        | inr (t, lost) ↦ (kept, rw lost tt, le)
        | inl (some existing, found) ↦ (kept, rw found tt, le)
        | inl (none, found) ↦ (kept, rw found fits, le)
      ]

  calls-handler :
      (event : Json) (w : World)
      → calls S k (S.handler event w).1 ≡ calls S k w + (if is_event k event then 1 else 0)
  calls-handler event w =
      ap (count_if (is_event k)) (L.handler-handled event w)
      ∙ ground (arith, count_if-append (is_event k) (handled w) (event ∷ []))

  handle-Goes :
      (group : String) (event : Json) (id type : String) (w : World)
      → IsHandled S k w
      → is_event k event ≡ (id == k)
      → Goes w (advance S (handling group event id type) w)
  unfolding advance Goes
  handle-Goes group event id type w h fits =
      let more = calls-handler event w in
      let v = (S.handler event w).1 in
      let le : calls S k w ≤ calls S k v = omega (arith, more) in
      let kept : IsHandled S k v = record {
        called = λ there.
            ground (arith, more, h.called (λ absent. there (L.handler-ledger event w k ∙ absent)));
      } in
      elim (Outcome-cases (S.handler event w).0) [
        | inr (t, lost) ↦ (kept, rw lost tt, le)
        | inl (_, done) ↦ (kept, rw done (λ same. ground (arith, more, fits, eq_iff id k)), le)
      ]

  insert-Goes :
      (row : ConsumedEvent) (event : Json) (w : World)
      → IsHandled S k w
      → (row.event_id ≡ k → 1 ≤ calls S k w)
      → Goes w (advance S (inserting row event) w)
  unfolding advance Goes
  insert-Goes row event w h backed =
      let v = (S.insert row w).1 in
      let same : calls S k v ≡ calls S k w = ap (count_if (is_event k)) (L.insert-handled row w) in
      let le : calls S k w ≤ calls S k v = omega (arith, same) in
      elim (Outcome-cases (S.insert row w).0) [
        | inr (t, lost) ↦ (
          record {
            called = λ there.
                rw same (h.called (λ absent. there (L.insert-rejected row w t lost k ∙ absent)));
          },
          rw lost tt,
          le,
        )
        | inl (_, inserted) ↦
            let (_, rows) = L.insert-resolved row w inserted in
            (
              record {
                called = λ there. rw same (elim (Bool-cases (k == row.event_id)) [
                  | inl hit ↦ backed (sym ((eq_iff k row.event_id).0 hit))
                  | inr missed ↦ h.called (λ absent. there (rows k ∙ rw missed absent))
                ]);
              },
              rw inserted tt,
              le,
            )
      ]

  advance-Goes :
      (p : Point) (w : World) → IsHandled S k w → IsBacked S k w p → Goes w (advance S p w)
  unfolding advance Goes
  advance-Goes (looking group event id type) w h b =
      unfold advance in look-Goes group event id type w h b
  advance-Goes (handling group event id type) w h b = handle-Goes group event id type w h b
  advance-Goes (inserting row event) w h b = insert-Goes row event w h b
  advance-Goes finished w h b = (h, tt, omega arith)
  advance-Goes (threw thrown) w h b = (h, tt, omega arith)

  Turn-IsHandled :
      {ps qs : List Point} {w v : World}
      → Turn S ps w qs v
      → IsHandled S k w
      → All (IsBacked S k w) ps
      → IsHandled S k v × All (IsBacked S k v) qs × (calls S k w ≤ calls S k v)
  unfolding Goes
  Turn-IsHandled (takes p ps w) h a =
      let (kept, backed, le) = advance-Goes p w h a.0 in
      (kept, (backed, All-IsBacked S k w (advance S p w).1 ps le a.1), le)
  Turn-IsHandled (stops p ps w) h a = (h, a.1, omega arith)
  Turn-IsHandled (other p {ps} {qs} {w} {v} t) h a =
      let (kept, backed, le) = Turn-IsHandled t h a.1 in
      (kept, (IsBacked-le S k w v p le a.0, backed), le)

  Reach-IsBacked :
      {env : Environment} {start : World} {ps : List Point} {w : World}
      → Reach S env [] start ps w
      → IsHandled S k start
      → IsHandled S k w × All (IsBacked S k w) ps
  Reach-IsBacked here h = (h, tt)
  Reach-IsBacked (next r (turns t)) h =
      let (kept, backed) = Reach-IsBacked r h in
      let (kept', backed', _) = Turn-IsHandled t kept backed in (kept', backed')
  Reach-IsBacked {env} (next r (delivers m ps w)) h =
      let (kept, backed) = Reach-IsBacked r h in
      (kept, (IsFresh-IsBacked S k w (begin S env m) (begin-IsFresh S env k m), backed))

  -- If at the start an event is not in the ledger or the handler was called for it, then this
  -- holds at each moment, however many consumers that have begun since take turns, whatever is
  -- delivered to them and wherever they stop for good.
  pub Reach-IsHandled :
      {env : Environment} {start : World} {ps : List Point} {w : World}
      → IsHandled S k start
      → Reach S env [] start ps w
      → IsHandled S k w
  Reach-IsHandled h r = (Reach-IsBacked r h).0
