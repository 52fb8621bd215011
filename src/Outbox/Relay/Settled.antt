-- ===== src/Outbox/Relay/Settled.antt =====
-- What becomes of each row of a batch that returns, and what the returned number counts.
use autospace_parking.Prelude.{
  ℕ, ◌+◌, String, ◌≡◌, ◌≢◌, refl, subst, sym, ◌∙◌, ◌⊎◌, inl, inr, Bool, true, false, Option, none,
  some, List, [], ◌∷◌, arith, if◌then◌else◌, All, All-map, All-zip, Memᴰ-concat, not,
}
use mathlib.Core.List.{Memᴰ}
use autospace_parking.Js.Exec.{Outcome, resolved, ◌>>=◌}
use autospace_parking.Js.Exec.Keeps.{>>=-eq-resolved}
use autospace_parking.Outbox.Entity.{OutboxEvent}
use autospace_parking.Outbox.Services.{
  Services, is_unpublished, matches, IsLawful, HasDistinctIds, IsSelection,
}
use autospace_parking.Outbox.Relay.{unpublished_query, deliver, relay_loop, publish_batch}
use autospace_parking.Outbox.Relay.Rows.{relay_loop-other, deliver-other}
use autospace_parking.Outbox.Relay.Delivery.{published, failed, Delivered, deliver_lem}
use autospace_parking.Outbox.Relay.Sent.{relay_loop-Has}

abbrev counted : Bool → ℕ
counted b = if b then 1 else 0

abbrev pub is_marked : Option OutboxEvent → Bool
is_marked none = false
is_marked (some r) = not (is_unpublished r)

-- How many of the events have a published row.
abbrev pub count_marked : (String → Option OutboxEvent) → List OutboxEvent → ℕ
count_marked rows [] = 0
count_marked rows (e ∷ es) = counted (is_marked (rows e.id)) + count_marked rows es

unpublished_of : (e : OutboxEvent) → matches unpublished_query e ≡ true → is_unpublished e ≡ true
unfolding unpublished_query
unpublished_of e h = h

module _ (S : Services) where
  -- The batch after its query.
  pub publish_batch_after :
      (w : S.World) (es : List OutboxEvent)
      → (S.get_many unpublished_query w).0 ≡ resolved es
      → publish_batch S w ≡ relay_loop S es 0 (S.get_many unpublished_query w).1
  unfolding publish_batch
  publish_batch_after w es selected = rw (selected, ◌>>=◌)

  selection_of :
      (w : S.World) (m : ℕ)
      → (publish_batch S w).0 ≡ resolved m
      → (es : List OutboxEvent) × ((S.get_many unpublished_query w).0 ≡ resolved es)
  unfolding publish_batch
  selection_of w m r =
      let (es, selected, _) =
        >>=-eq-resolved (S.get_many unpublished_query) (λ es. relay_loop S es 0) w r in
      (es, selected)

module _ (S : Services) (L : IsLawful S) where
  open S use {World, find, delivered}

  -- An event of a batch that has returned: its row was marked after the broker took the event, or
  -- has one attempt more, an error, and is still unpublished.
  abbrev pub Settled : World → OutboxEvent → Type 0
  Settled w e =
      ((t : ℕ) × (find w e.id ≡ some (published t e)) × Memᴰ e (delivered w))
      ⊎ ((m : String) × (find w e.id ≡ some (failed m e)))

  abbrev IsPending : World → OutboxEvent → Type 0
  IsPending w e = (find w e.id ≡ some e) × (is_unpublished e ≡ true)

  Delivered-Settled :
      (e : OutboxEvent) (w v u : World) (b : Bool)
      → is_unpublished e ≡ true
      → Delivered S L e w v b
      → (find u e.id ≡ find v e.id)
      → (Memᴰ e (delivered v) → Memᴰ e (delivered u))
      → Settled u e × (counted (is_marked (find u e.id)) ≡ counted b)
  Delivered-Settled e w v u true p d same more =
      (inl (d.0.0, same ∙ d.0.1, more (rw d.1 (Memᴰ-concat (delivered w)))), ground arith)
  Delivered-Settled e w v u false p d same more = (inr (d.0, same ∙ d.1), ground arith)

  -- What a loop that returned `m` has done, if it began at `n` and ended in the world `v`.
  abbrev pub Report : List OutboxEvent → ℕ → ℕ → World → Type 0
  Report es n m v = All (Settled v) es × (m ≡ n + count_marked (find v) es)

  relay_loop-Settled :
      (es : List OutboxEvent) (n : ℕ) (w : World) (m : ℕ)
      → All (IsPending w) es
      → HasDistinctIds es
      → (relay_loop S es n w).0 ≡ resolved m
      → Report es n m (relay_loop S es n w).1
  unfolding relay_loop
  relay_loop-Settled [] n w m rows distinct r = (tt, ground arith)
  relay_loop-Settled (e ∷ es) n w m rows distinct r =
      let (b, done, same) =
        >>=-eq-resolved (deliver S e) (λ done. relay_loop S es (if done then n + 1 else n)) w r in
      let w1 = (deliver S e w).1 in
      let k = (if b then n + 1 else n) in
      let later : All (IsPending w1) es =
        All-zip
          (λ d pending other. (
            (deliver-other S L d.id (some d) e (λ same_id. other (sym same_id))).at w pending.0,
            pending.1,
          ))
          es rows.1 distinct.0 in
      let (settled, count) = relay_loop-Settled es k w1 m later distinct.1 (rw same at r) in
      let u = (relay_loop S es k w1).1 in
      let (here, one) =
        Delivered-Settled e w w1 u b rows.0.1 (deliver_lem S L e w b rows.0.0 done)
          ((relay_loop-other S L e.id (find w1 e.id) es k distinct.0).at w1 refl)
          ((relay_loop-Has S L e es k).at w1) in
      subst (λ (o : Outcome ℕ × World). Report (e ∷ es) n m o.1) (sym same)
        ((here, settled), ground arith)

  abbrev FrameOf : List OutboxEvent → World → World → Type 0
  FrameOf es w v = (j : String) → All (λ e. j ≢ e.id) es → find v j ≡ find w j

  -- The same for a batch whose selection is known.
  pub publish_batch-Report :
      (w : World) (es : List OutboxEvent) (m : ℕ)
      → (S.get_many unpublished_query w).0 ≡ resolved es
      → (publish_batch S w).0 ≡ resolved m
      → IsSelection S unpublished_query w es
        × Report es 0 m (publish_batch S w).1
        × FrameOf es w (publish_batch S w).1
  unfolding publish_batch
  publish_batch-Report w es m selected r =
      let chosen = L.get_many-IsSelection unpublished_query w es selected in
      let w1 = (S.get_many unpublished_query w).1 in
      let kept = λ (j : String). L.find-get_many unpublished_query w j in
      let rows : All (IsPending w1) es =
        All-map (λ e row. (kept e.id ∙ row.0, unpublished_of e row.1)) es chosen.rows in
      let same = publish_batch_after S w es selected in
      (
        chosen,
        subst (λ (o : Outcome ℕ × World). Report es 0 m o.1) (sym same)
            (relay_loop-Settled es 0 w1 m rows chosen.distinct (rw same at r)),
        λ j others.
            subst (λ (o : Outcome ℕ × World). find o.1 j ≡ find w j) (sym same)
              ((relay_loop-other S L j (find w j) es 0 others).at w1 (kept j)),
      )

  -- A batch that returns has selected the oldest unpublished rows that no other transaction holds,
  -- at most fifty; each of them either has its row marked as published with one attempt more and
  -- no error, after the broker took the event, or keeps its row unpublished with one attempt more
  -- and an error message; the returned number counts the marked rows; and every other row is as it
  -- was.
  pub publish_batch-Settled :
      (w : World) (m : ℕ)
      → (publish_batch S w).0 ≡ resolved m
      → (es : List OutboxEvent) × IsSelection S unpublished_query w es
        × Report es 0 m (publish_batch S w).1
        × ((j : String) → All (λ e. j ≢ e.id) es → find (publish_batch S w).1 j ≡ find w j)
  publish_batch-Settled w m r =
      let (es, selected) = selection_of S w m r in
      let (chosen, report, frame) = publish_batch-Report w es m selected r in
      (es, chosen, report, frame)
