-- ===== src/Outbox/Relay/Batches.antt =====
-- Batches one after another, while no other transaction holds a row.
use autospace_parking.Prelude.{
  ℕ, zero, suc, ◌≤◌, String, ◌≡◌, ◌≢◌, refl, ap, subst, ◌∙◌, ◌⊎◌, inl, inr, true, false, some, List,
  [], ◌∷◌, ◌++◌, arith, All, All-map, All-Memᴰ, Memᴰ-append_right, Memᴰ-append_left, length,
  Bool-cases, Option-cases, ◌==◌, eq_iff,
}
use mathlib.Core.List.{Memᴰ}
use autospace_parking.Js.Exec.{Outcome, resolved}
use autospace_parking.Outbox.Entity.{OutboxEvent}
use autospace_parking.Outbox.Services.{Services, is_unpublished, IsLawful, matches, skips}
use autospace_parking.Outbox.Relay.{batch_size, unpublished_query, publish_batch}
use autospace_parking.Outbox.Relay.Waiting.{
  is_pending, waiting, waiting-pos, waiting-none, waiting-length, waiting-lt,
}
use autospace_parking.Outbox.Relay.Rows.{publish_batch_published}
use autospace_parking.Outbox.Relay.Settled.{publish_batch_after, publish_batch-Report, is_marked}
use autospace_parking.Outbox.Relay.Progress.{DatabaseAnswers, BrokerAccepts, relay_loop_accepted}
use autospace_parking.Outbox.Relay.Drain.{batch_lem, not_selected_of_absent, publish_batch_drains}

module _ (S : Services) where
  unfoldable pub batches : ℕ → S.World → S.World
  batches zero w = w
  batches (suc n) w = batches n (publish_batch S w).1

module _ (S : Services) (L : IsLawful S) (D : DatabaseAnswers S) (B : BrokerAccepts S) where
  open S use {World, find, locked, delivered}

  listed_or_not :
      (j : String) (es : List OutboxEvent)
      → ((x : OutboxEvent) × Memᴰ x es × (x.id ≡ j)) ⊎ All (λ x. j ≢ x.id) es
  listed_or_not j [] = inr tt
  listed_or_not j (x ∷ es) = elim (Bool-cases (x.id == j)) [
    | inl same ↦ inl (x, Memᴰ.head refl, (eq_iff x.id j).0 same)
    | inr apart ↦ elim (listed_or_not j es) [
      | inl (y, m, same) ↦ inl (y, Memᴰ.tail m, same)
      | inr others ↦ inr (λ (same : j ≡ x.id). ground (arith, eq_iff x.id j, apart, same), others)
    ]
  ]

  delivered-sent :
      (w : World) (es : List OutboxEvent)
      → (S.get_many unpublished_query w).0 ≡ resolved es
      → delivered (publish_batch S w).1 ≡ delivered w ++ es
  delivered-sent w es selected =
      ap (λ (o : Outcome ℕ × World). delivered o.1) (publish_batch_after S w es selected)
      ∙ (relay_loop_accepted S L D B es 0 (S.get_many unpublished_query w).1).1
      ∙ ap (λ (before : List OutboxEvent). before ++ es) (L.delivered-get_many unpublished_query w)

  -- A batch keeps what was delivered.
  batch_keeps :
      (w : World) (e : OutboxEvent)
      → Memᴰ e (delivered w)
      → Memᴰ e (delivered (publish_batch S w).1)
  batch_keeps w e m =
      let (es, selected) = (D.get_many unpublished_query).from w in
      rw (delivered-sent w es selected) (Memᴰ-append_left (delivered w) es m)

  -- A row is delivered as it is, or stays as it is.
  batch_row :
      (w : World) (e : OutboxEvent)
      → find w e.id ≡ some e
      → Memᴰ e (delivered (publish_batch S w).1) ⊎ (find (publish_batch S w).1 e.id ≡ some e)
  batch_row w e row =
      let (es, selected) = (D.get_many unpublished_query).from w in
      let r = (batch_lem S L D B w es selected).0 in
      let (chosen, _, frame) = publish_batch-Report S L w es (length es) selected r in
      elim (listed_or_not e.id es) [
        | inr others ↦ inr (frame e.id others ∙ row)
        | inl (x, m, same) ↦
            let facts =
              All-Memᴰ
                (λ (d : OutboxEvent).
                  (find w d.id ≡ some d)
                  × (matches unpublished_query d ≡ true)
                  × (skips unpublished_query (locked w d.id) ≡ false))
                x es m chosen.rows in
            let it : x ≡ e = cc (ap (find w) same, facts.0, row) in
            inl (
              rw (delivered-sent w es selected)
                (Memᴰ-append_right (delivered w) es (subst (λ (d : OutboxEvent). Memᴰ d es) it m)))
      ]

  batch_shrinks :
      (w : World) (j : String)
      → is_pending (find (publish_batch S w).1 j) ≡ true
      → is_pending (find w j) ≡ true
  batch_shrinks w j pending =
      let (es, selected) = (D.get_many unpublished_query).from w in
      let r = (batch_lem S L D B w es selected).0 in
      let (chosen, _, frame) = publish_batch-Report S L w es (length es) selected r in
      elim (Option-cases (find w j)) [
        | inl absent ↦
            let others =
              not_selected_of_absent S L D B w j es absent
                (All-map (λ d facts. facts.0) es chosen.rows) in
            absurd (ground (arith, pending, frame j others, absent))
        | inr (x, present) ↦ elim (Bool-cases (is_unpublished x)) [
          | inl waits ↦ rw present waits
          | inr old ↦
              absurd (ground (arith, pending, publish_batch_published S L w j x present old, old))
        ]
      ]

  -- A batch that publishes fifty rows has one row fewer waiting after it, at least.
  batch_full :
      (w : World)
      → (publish_batch S w).0 ≡ resolved batch_size
      → (j : String) × (is_pending (find w j) ≡ true)
        × (is_pending (find (publish_batch S w).1 j) ≡ false)
  unfolding unpublished_query
  batch_full w full =
      let (es, selected) = (D.get_many unpublished_query).from w in
      let (r, marked) = batch_lem S L D B w es selected in
      let (chosen, _, frame) = publish_batch-Report S L w es (length es) selected r in
      first es (cc (full, r)) marked (All-map (λ d facts. (facts.0, facts.1)) es chosen.rows)
    where
      first :
          (es : List OutboxEvent)
          → length es ≡ batch_size
          → All (λ e. is_marked (find (publish_batch S w).1 e.id) ≡ true) es
          → All (λ e. (find w e.id ≡ some e) × (matches unpublished_query e ≡ true)) es
          → (j : String) × (is_pending (find w j) ≡ true)
            × (is_pending (find (publish_batch S w).1 j) ≡ false)
      first [] n marked rows = absurd (omega (arith, n))
      first (e ∷ es) n (marked, _) (row, _) = (e.id, ground (arith, row), ground (arith, marked))

  pub batches_keep :
      (n : ℕ) (w : World) (e : OutboxEvent)
      → Memᴰ e (delivered w)
      → Memᴰ e (delivered (batches S n w))
  unfolding batches
  batches_keep zero w e m = m
  batches_keep (suc n) w e m = batches_keep n (publish_batch S w).1 e (batch_keeps w e m)

  batches_row :
      (n : ℕ) (w : World) (e : OutboxEvent)
      → find w e.id ≡ some e
      → Memᴰ e (delivered (batches S n w)) ⊎ (find (batches S n w) e.id ≡ some e)
  unfolding batches
  batches_row zero w e row = inr row
  batches_row (suc n) w e row = elim (batch_row w e row) [
    | inl sent ↦ inl (batches_keep n (publish_batch S w).1 e sent)
    | inr stays ↦ batches_row n (publish_batch S w).1 e stays
  ]

  -- No other transaction holds a row.
  abbrev pub Unlocked : Type 0
  Unlocked = (w : World) (j : String) → locked w j ≡ false

  -- Every row that waits is under one of the ids.
  abbrev pub AreUnder : List String → World → Type 0
  AreUnder ids w = (j : String) → is_pending (find w j) ≡ true → Memᴰ j ids

  module _ (unlocked : Unlocked) (ids : List String) where
    drained_of :
        (w : World)
        → ((j : String) (e : OutboxEvent)
            → find w j ≡ some e
            → locked w j ≡ false
            → is_unpublished e ≡ false)
        → (j : String) → is_pending (find w j) ≡ false
    drained_of w h j = elim (Option-cases (find w j)) [
      | inl absent ↦ rw absent refl
      | inr (e, present) ↦ rw present (h j e present (unlocked w j))
    ]

    batches_drain :
        (n : ℕ) (w : World)
        → AreUnder ids w
        → waiting (find w) ids ≤ n
        → (j : String) → is_pending (find (batches S n w) j) ≡ false
    unfolding batches
    batches_drain zero w under few j = elim (Bool-cases (is_pending (find w j))) [
      | inl waits ↦ absurd (omega (arith, few, waiting-pos (find w) ids j (under j waits) waits))
      | inr done ↦ done
    ]
    batches_drain (suc n) w under few j =
        let after = (publish_batch S w).1 in
        let shrinks = batch_shrinks w in
        let under' : AreUnder ids after = λ i waits. under i (shrinks i waits) in
        elim (publish_batch_drains S L D B w) [
          | inl full ↦
              let (i, was, now) = batch_full w full in
              let fewer = waiting-lt (find w) (find after) shrinks ids i (under i was) was now in
              batches_drain n after under' (omega (arith, few, fewer)) j
          | inr drained ↦
              let none_waits =
                waiting-none (find after) ids
                  (drained_of after (λ i e row _. drained i e row (unlocked w i))) in
              batches_drain n after under' (omega (arith, none_waits)) j
        ]

    -- Where the database and the broker accept every call and no other transaction holds a row:
    -- after as many batches as there are ids of rows that wait, or more, no row is unpublished,
    -- and every event that was waiting has been sent.
    pub batches_deliver :
        (n : ℕ) (w : World)
        → AreUnder ids w
        → length ids ≤ n
        → ((j : String) → is_pending (find (batches S n w) j) ≡ false)
          × ((e : OutboxEvent)
              → find w e.id ≡ some e
              → is_unpublished e ≡ true
              → Memᴰ e (delivered (batches S n w)))
    batches_deliver n w under many =
        let drained = batches_drain n w under (omega (arith, many, waiting-length (find w) ids)) in
        (
          drained,
          λ e row waits. elim (batches_row n w e row) [
            | inl sent ↦ sent
            | inr stays ↦ absurd (ground (arith, drained e.id, stays, waits))
          ],
        )
