-- ===== src/Outbox/Interleaving/Kept.antt =====
-- What each statement of a relay, and a call of `enqueue`, keeps of the rows and of what was sent.
use autospace_parking.Prelude.{
  ℕ, String, ◌≡◌, refl, sym, ap, ◌∙◌, inl, inr, true, false, none, some, List, [], ◌∷◌, All,
}
use autospace_parking.Js.Exec.{Thrown}
use autospace_parking.Js.Exec.Keeps.{Outcome-cases}
use autospace_parking.Outbox.Entity.{OutboxEvent, apply, add_attempts}
use autospace_parking.Outbox.Services.{
  Services, IsLawful, is_unpublished, is_resolved, matches, skips,
}
use autospace_parking.Outbox.Service.{EnqueueEventInput, create, enqueue}
use autospace_parking.Outbox.Relay.{unpublished_query, publication, failure}
use autospace_parking.Outbox.Interleaving.{
  Point, selecting, publishing, marking, counting, noting, finished, threw, loop,
}
use autospace_parking.Outbox.Interleaving.Rows.{
  content, Stored, Sent, Extends, IsFaithful, Extends-Stored, Extends-Sent, Sent-content,
  patched-Extends, patched-IsFaithful, sent-Extends, sent-IsFaithful, saved-Extends,
  saved-IsFaithful,
}

module _ (S : Services) where
  open S use {World, find, delivered}

  -- What a relay relies on when it awaits its next statement.
  abbrev pub IsReady : World → Point → Type 0
  IsReady w selecting = Unit {0}
  IsReady w (publishing event events n) = Stored S w event × All (Stored S w) events
  IsReady w (marking event events n) = Stored S w event × Sent S w event × All (Stored S w) events
  IsReady w (counting thrown event events n) = All (Stored S w) events
  IsReady w (noting thrown event events n) = All (Stored S w) events
  IsReady w (finished n) = Unit {0}
  IsReady w (threw thrown) = Unit {0}

  -- What a change of the world keeps.
  pub record IsKept (w v : World) : Type 0 where
    pub extends : Extends S w v
    pub faithful : IsFaithful S v

module _ (S : Services) (L : IsLawful S) where
  open S use {World, find, delivered}

  pub All-Extends :
      {w v : World} (events : List OutboxEvent)
      → Extends S w v
      → All (Stored S w) events
      → All (Stored S v) events
  All-Extends [] x a = tt
  All-Extends (e ∷ es) x a = (Extends-Stored S L e x a.0, All-Extends es x a.1)

  pub IsReady-Extends : {w v : World} (p : Point) → Extends S w v → IsReady S w p → IsReady S v p
  IsReady-Extends selecting x r = tt
  IsReady-Extends (publishing e es n) x r = (Extends-Stored S L e x r.0, All-Extends es x r.1)
  IsReady-Extends (marking e es n) x r =
      (Extends-Stored S L e x r.0, Extends-Sent S L e x r.1, All-Extends es x r.2)
  IsReady-Extends (counting t e es n) x r = All-Extends es x r
  IsReady-Extends (noting t e es n) x r = All-Extends es x r
  IsReady-Extends (finished n) x r = tt
  IsReady-Extends (threw t) x r = tt

  pub loop-IsReady :
      (w : World) (events : List OutboxEvent) (n : ℕ)
      → All (Stored S w) events
      → IsReady S w (loop events n)
  loop-IsReady w [] n a = tt
  loop-IsReady w (e ∷ es) n a = a

  -- A statement after which the rows are the same, and what was sent.
  pub unchanged :
      (w v : World)
      → ((j : String) → find v j ≡ find w j)
      → delivered v ≡ delivered w
      → IsFaithful S w
      → IsKept S w v
  unchanged w v rows sends h = record {
    extends = patched-Extends S L w v false "" (λ e. e) (λ e. refl) rows sends;
    faithful =
        patched-IsFaithful S L w v false "" (λ e. e) (λ e. refl) rows sends
          (λ e never found old. inl old) h;
  }

  pub publish-IsKept :
      (event : OutboxEvent) (w : World)
      → Stored S w event
      → IsFaithful S w
      → IsKept S w (S.publish event w).1
  publish-IsKept event w s h =
      let v = (S.publish event w).1 in
      elim (L.delivered-publish_rejected event w) [
        | inl same ↦ unchanged w v (L.find-publish event w) same h
        | inr more ↦ record {
          extends = sent-Extends S L w v event (L.find-publish event w) more;
          faithful = sent-IsFaithful S L w v event (L.find-publish event w) more s h;
        }
      ]

  pub mark-IsKept :
      (event : OutboxEvent) (w : World)
      → Stored S w event
      → Sent S w event
      → IsFaithful S w
      → IsKept S w (S.update event.id (publication (S.now w) event) w).1
  mark-IsKept event w s sent h =
      let p = publication (S.now w) event in
      let v = (S.update event.id p w).1 in
      let ok = is_resolved (S.update event.id p w).0 in
      record {
        extends =
            patched-Extends S L w v ok event.id (apply p) (λ e. refl) (L.find-update event.id p w)
              (L.delivered-update event.id p w);
        faithful =
            patched-IsFaithful S L w v ok event.id (apply p) (λ e. refl)
              (L.find-update event.id p w) (L.delivered-update event.id p w)
              (λ e wrote found old.
                let it : s.row ≡ e = cc (s.there, found) in
                inr (Sent-content S L event e (sym s.same ∙ ap content it) sent))
              h;
      }

  pub count-IsKept : (id : String) (w : World) → IsFaithful S w → IsKept S w (S.increment id 1 w).1
  count-IsKept id w h =
      let v = (S.increment id 1 w).1 in
      let ok = is_resolved (S.increment id 1 w).0 in
      record {
        extends =
            patched-Extends S L w v ok id (add_attempts 1) (λ e. refl) (L.find-increment id 1 w)
              (L.delivered-increment id 1 w);
        faithful =
            patched-IsFaithful S L w v ok id (add_attempts 1) (λ e. refl) (L.find-increment id 1 w)
              (L.delivered-increment id 1 w) (λ e wrote found old. inl old) h;
      }

  pub note-IsKept :
      (id : String) (thrown : Thrown) (w : World)
      → IsFaithful S w
      → IsKept S w (S.update id (failure thrown) w).1
  note-IsKept id thrown w h =
      let p = failure thrown in
      let v = (S.update id p w).1 in
      let ok = is_resolved (S.update id p w).0 in
      record {
        extends =
            patched-Extends S L w v ok id (apply p) (λ e. refl) (L.find-update id p w)
              (L.delivered-update id p w);
        faithful =
            patched-IsFaithful S L w v ok id (apply p) (λ e. refl) (L.find-update id p w)
              (L.delivered-update id p w) (λ e wrote found old. inl old) h;
      }

  pub enqueue-IsKept :
      (input : EnqueueEventInput) (w : World)
      → IsFaithful S w
      → IsKept S w (enqueue S input none w).1
  unfolding enqueue
  enqueue-IsKept input w h =
      let n = create input in
      let v = (S.save n w).1 in
      elim (Outcome-cases (S.save n w).0) [
        | inr (t, lost) ↦ unchanged w v (L.find-save_rejected n w t lost) (L.delivered-save n w) h
        | inl (e, saved) ↦
            let (fresh, it, rows) = L.find-save n w e saved in
            let waits : is_unpublished e ≡ true = rw it refl in
            record {
              extends = saved-Extends S L w v e fresh waits rows (L.delivered-save n w);
              faithful = saved-IsFaithful S L w v e fresh waits rows (L.delivered-save n w) h;
            }
      ]

  pub All-rows :
      (w : World) (events : List OutboxEvent)
      → All
          (λ e.
            (find w e.id ≡ some e)
            × (matches unpublished_query e ≡ true)
            × (skips unpublished_query (S.locked w e.id) ≡ false))
          events
      → All (Stored S w) events
  All-rows w [] a = tt
  All-rows w (e ∷ es) a = (record { row = e; there = a.0.0; same = refl }, All-rows w es a.1)
