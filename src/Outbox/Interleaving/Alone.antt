-- ===== src/Outbox/Interleaving/Alone.antt =====
-- A relay that takes every turn does what `publishBatch` does.
use autospace_parking.Prelude.{
  ℕ, zero, suc, ◌+◌, ◌≡◌, refl, sym, subst, ap, ◌∙◌, inl, inr, Bool, true, false, List, [], ◌∷◌,
  arith, if◌then◌else◌,
}
use autospace_parking.Js.Exec.{Outcome, Thrown, resolved, rejected, pure, ◌>>◌}
use autospace_parking.Js.Exec.Keeps.{Outcome-cases}
use autospace_parking.Outbox.Entity.{OutboxEvent}
use autospace_parking.Outbox.Services.{Services}
use autospace_parking.Outbox.Relay.{
  unpublished_query, publication, failure, mark_published, record_failure, deliver, relay_loop,
  publish_batch,
}
use autospace_parking.Outbox.Interleaving.{
  Point, selecting, publishing, marking, counting, finished, threw, loop, advance, advance_all,
}

-- How `publishBatch` ends.
abbrev pub ended : Outcome ℕ → Point
ended (resolved n) = finished n
ended (rejected thrown) = threw thrown

-- Where the loop goes on after an event.
abbrev after : Outcome Bool → List OutboxEvent → ℕ → Point
after (resolved done) events published = loop events (if done then published + 1 else published)
after (rejected thrown) events published = threw thrown

module _ (S : Services) where
  open S use {World}

  -- After some turns without others between them.
  abbrev pub Leads : Point → World → Point → World → Type 0
  Leads p w q v = (n : ℕ) × (advance_all S n p w ≡ (q, v))

  Leads-next :
      (p q r : Point) (w v u : World) → advance S p w ≡ (q, v) → Leads q v r u → Leads p w r u
  unfolding advance_all
  Leads-next p q r w v u h (n, k) =
      (suc n, ap (λ (o : Point × World). advance_all S n o.0 o.1) h ∙ k)

  Leads-none : (p : Point) (w : World) → Leads p w p w
  unfolding advance_all
  Leads-none p w = (zero, refl)

  Leads-trans :
      (n : ℕ) (p q r : Point) (w v u : World)
      → advance_all S n p w ≡ (q, v)
      → Leads q v r u
      → Leads p w r u
  unfolding advance_all
  Leads-trans zero p q r w v u h rest =
      subst (λ (o : Point × World). Leads o.0 o.1 r u) (sym h) rest
  Leads-trans (suc n) p q r w v u h rest =
      let (m, k) = Leads-trans n (advance S p w).0 q r (advance S p w).1 v u h rest in (suc m, k)

  caught-Leads :
      (thrown : Thrown) (event : OutboxEvent) (events : List OutboxEvent) (published : ℕ)
      (w : World)
      → let o = (record_failure S event thrown >> pure false) w in
        Leads (counting thrown event events published) w (after o.0 events published) o.1
  unfolding advance_all advance record_failure
  caught-Leads thrown event events published w = elim (Outcome-cases (S.increment event.id 1 w).0) [
    | inr (t, lost) ↦ (1, ground (arith, lost))
    | inl (_, counted) ↦
        let v = (S.increment event.id 1 w).1 in
        elim (Outcome-cases (S.update event.id (failure thrown) v).0) [
          | inr (t, lost) ↦ (2, ground (arith, counted, lost))
          | inl (_, noted) ↦ (2, ground (arith, counted, noted))
        ]
  ]

  -- Where an event is delivered as `o` says.
  abbrev Delivers : OutboxEvent → List OutboxEvent → ℕ → World → Outcome Bool × World → Type 0
  Delivers event events published w o =
      Leads (publishing event events published) w (after o.0 events published) o.1

  deliver-Leads :
      (event : OutboxEvent) (events : List OutboxEvent) (published : ℕ) (w : World)
      → Delivers event events published w (deliver S event w)
  unfolding advance deliver mark_published
  deliver-Leads event events published w =
      let v = (S.publish event w).1 in
      let u = (S.update event.id (publication (S.now v) event) v).1 in
      let first = publishing event events published in
      let second = marking event events published in
      elim (Outcome-cases (S.publish event w).0) [
        | inr (t, refused) ↦
            let same : deliver S event w ≡ (record_failure S event t >> pure false) v =
              rw refused refl in
            subst (Delivers event events published w) (sym same) (
              Leads-next first (counting t event events published) _ w v _ (rw refused refl)
                (caught-Leads t event events published v))
        | inl (_, sent) ↦
            elim (Outcome-cases (S.update event.id (publication (S.now v) event) v).0) [
              | inl (_, marked) ↦
                  let same : deliver S event w ≡ (resolved true, u) = rw (sent, marked) refl in
                  subst (Delivers event events published w) (sym same) (
                    Leads-next first second _ w v _ (rw sent refl) (
                      Leads-next second (loop events (published + 1)) _ v u _ (rw marked refl)
                        (Leads-none (loop events (published + 1)) u)))
              | inr (t, lost) ↦
                  let same : deliver S event w ≡ (record_failure S event t >> pure false) u =
                    rw (sent, lost) refl in
                  subst (Delivers event events published w) (sym same) (
                    Leads-next first second _ w v _ (rw sent refl) (
                      Leads-next second (counting t event events published) _ v u _ (rw lost refl)
                        (caught-Leads t event events published u)))
            ]
      ]

  pub loop-Leads :
      (events : List OutboxEvent) (published : ℕ) (w : World)
      → let o = relay_loop S events published w in Leads (loop events published) w (ended o.0) o.1
  unfolding relay_loop
  loop-Leads [] published w = Leads-none (finished published) w
  loop-Leads (event ∷ events) published w =
      let (n, k) = deliver-Leads event events published w in
      let v = (deliver S event w).1 in
      let first = publishing event events published in
      elim (Outcome-cases (deliver S event w).0) [
        | inl (done, delivered) ↦
            let published' = if done then published + 1 else published in
            let rest = relay_loop S events published' v in
            let same : relay_loop S (event ∷ events) published w ≡ rest = rw delivered refl in
            subst (λ (o : Outcome ℕ × World). Leads first w (ended o.0) o.1) (sym same)
              (Leads-trans n first (loop events published') (ended rest.0) w v rest.1
                (k ∙ ap (λ (o : Outcome Bool). (after o events published, v)) delivered)
                (loop-Leads events published' v))
        | inr (t, lost) ↦
            let same : relay_loop S (event ∷ events) published w ≡ (rejected t, v) = rw lost refl in
            subst (λ (o : Outcome ℕ × World). Leads first w (ended o.0) o.1) (sym same)
              (n, k ∙ ap (λ (o : Outcome Bool). (after o events published, v)) lost)
      ]

  -- A relay that starts with the query and takes every turn itself comes, after some number of
  -- turns, to the end that `publishBatch` comes to: the same number returned, or the same error
  -- thrown, and the same rows and messages.
  pub advance_all-publish_batch :
      (w : World)
      → (n : ℕ) × (advance_all S n selecting w
          ≡ (ended (publish_batch S w).0, (publish_batch S w).1))
  unfolding publish_batch advance
  advance_all-publish_batch w =
      let v = (S.get_many unpublished_query w).1 in
      elim (Outcome-cases (S.get_many unpublished_query w).0) [
        | inl (events, chosen) ↦
            let o = relay_loop S events 0 v in
            let same : publish_batch S w ≡ o = rw chosen refl in
            subst (λ (o : Outcome ℕ × World). Leads selecting w (ended o.0) o.1) (sym same)
              (Leads-next selecting (loop events 0) (ended o.0) w v o.1 (rw chosen refl)
                (loop-Leads events 0 v))
        | inr (t, lost) ↦
            let same : publish_batch S w ≡ (rejected t, v) = rw lost refl in
            subst (λ (o : Outcome ℕ × World). Leads selecting w (ended o.0) o.1) (sym same)
              (Leads-next selecting (threw t) (threw t) w v v (rw lost refl)
                (Leads-none (threw t) v))
      ]
