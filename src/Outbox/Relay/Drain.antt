-- ===== src/Outbox/Relay/Drain.antt =====
-- With a database that answers and a broker that accepts, the relay empties its queue.
use autospace_parking.Prelude.{
  ◌≤◌, String, ◌≡◌, ◌≢◌, ap, ◌∙◌, ◌⊎◌, inl, inr, true, false, Option, none, some, List, [], ◌∷◌,
  arith, All, All-map, All-Memᴰ, length, eqb, Bool-cases, Option-cases,
}
use autospace_parking.Js.Exec.{resolved}
use autospace_parking.Outbox.Entity.{OutboxEvent}
use autospace_parking.Outbox.Services.{Services, is_unpublished, IsLawful}
use autospace_parking.Outbox.Relay.{batch_size, unpublished_query, publish_batch}
use autospace_parking.Outbox.Relay.Rows.{publish_batch_published}
use autospace_parking.Outbox.Relay.Settled.{
  publish_batch_after, publish_batch-Report, count_marked, is_marked,
}
use autospace_parking.Outbox.Relay.Progress.{DatabaseAnswers, BrokerAccepts, relay_loop_accepted}

module _ (rows : String → Option OutboxEvent) where
  abbrev IsMarked : OutboxEvent → Type 0
  IsMarked e = is_marked (rows e.id) ≡ true

  count_marked-le : (es : List OutboxEvent) → count_marked rows es ≤ length es
  count_marked-le [] = omega arith
  count_marked-le (e ∷ es) = ground (arith, count_marked-le es)

  All-IsMarked : (es : List OutboxEvent) → length es ≡ count_marked rows es → All IsMarked es
  All-IsMarked [] h = tt
  All-IsMarked (e ∷ es) h =
      (ground (arith, count_marked-le es), All-IsMarked es (ground (arith, count_marked-le es)))

module _ (S : Services) (L : IsLawful S) (D : DatabaseAnswers S) (B : BrokerAccepts S) where
  open S use {World, find, locked, delivered}

  -- The number that a batch returns is that of the rows selected, and each of those is marked.
  pub batch_lem :
      (w : World) (es : List OutboxEvent)
      → (S.get_many unpublished_query w).0 ≡ resolved es
      → ((publish_batch S w).0 ≡ resolved (length es))
        × All (IsMarked (find (publish_batch S w).1)) es
  batch_lem w es selected =
      let same = publish_batch_after S w es selected in
      let w1 = (S.get_many unpublished_query w).1 in
      let r : (publish_batch S w).0 ≡ resolved (length es) =
        rw same ((relay_loop_accepted S L D B es 0 w1).0 ∙ ap resolved (omega arith)) in
      let (_, (settled, count), _) = publish_batch-Report S L w es (length es) selected r in
      (r, All-IsMarked (find (publish_batch S w).1) es (omega arith))

  pub not_selected_of_absent :
      (w : World) (j : String) (es : List OutboxEvent)
      → find w j ≡ none
      → All (λ e. find w e.id ≡ some e) es
      → All (λ e. j ≢ e.id) es
  not_selected_of_absent w j es absent rows =
      All-map (λ e row same. cc (absent, row, ap (find w) same)) es rows

  -- A row that is not locked before a batch of fewer than the limit is published after it.
  row_drained :
      (w : World) (es : List OutboxEvent) (j : String) (e : OutboxEvent)
      → (S.get_many unpublished_query w).0 ≡ resolved es
      → eqb (length es) batch_size ≡ false
      → find (publish_batch S w).1 j ≡ some e
      → locked w j ≡ false
      → is_unpublished e ≡ false
  unfolding unpublished_query
  row_drained w es j e selected short row free =
      let (r, marked) = batch_lem w es selected in
      let (chosen, _, frame) = publish_batch-Report S L w es (length es) selected r in
      let v = (publish_batch S w).1 in
      elim (Option-cases (find w j)) [
        | inl absent ↦
            let others =
              not_selected_of_absent w j es absent (All-map (λ d facts. facts.0) es chosen.rows) in
            absurd (cc (frame j others, absent, row))
        | inr (x, present) ↦ elim (Bool-cases (is_unpublished x)) [
          | inr old ↦ ground (arith, publish_batch_published S L w j x present old)
          | inl pending ↦ elim (chosen.complete j x present pending free) [
            | inl listed ↦
                let now_marked = All-Memᴰ (IsMarked (find v)) x es listed marked in
                ground (arith, now_marked, ap (find v) (L.find-id w j x present))
            | inr beyond ↦ absurd (ground (arith, beyond.0))
          ]
        ]
      ]

  -- Where the database and the broker accept every call, a batch publishes fifty rows, or leaves
  -- no unpublished row but those that others had locked.
  pub publish_batch_drains :
      (w : World)
      → ((publish_batch S w).0 ≡ resolved batch_size)
        ⊎ ((j : String) (e : OutboxEvent)
            → find (publish_batch S w).1 j ≡ some e
            → locked w j ≡ false
            → is_unpublished e ≡ false)
  publish_batch_drains w =
      let (es, selected) = (D.get_many unpublished_query).from w in
      elim (Bool-cases (eqb (length es) batch_size)) [
        | inl full ↦ inl ((batch_lem w es selected).0 ∙ ap resolved (ground arith))
        | inr short ↦ inr (λ j e row free. row_drained w es j e selected short row free)
      ]
