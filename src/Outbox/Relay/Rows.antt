-- ===== src/Outbox/Relay/Rows.antt =====
-- What `publishBatch` does to the rows of the table.
use autospace_parking.Prelude.{
  ℕ, String, ◌≡◌, ◌≢◌, ap, ◌∙◌, true, false, Option, some, List, [], ◌∷◌, arith, eq_iff, All,
}
use autospace_parking.Js.Exec.{Thrown}
use autospace_parking.Js.Exec.Keeps.{Keeps, keeps_rules, >>=-cases}
use autospace_parking.Outbox.Entity.{OutboxEvent, Patch}
use autospace_parking.Outbox.Services.{Services, is_unpublished, matches, skips, IsLawful}
use autospace_parking.Outbox.Relay.{
  unpublished_query, mark_published, record_failure, deliver, relay_loop, publish_batch,
}

module _ (S : Services) (L : IsLawful S) where
  open S use {World, find}

  -- The row of `j` is `x`.
  abbrev pub RowIs : String → Option OutboxEvent → World → Type 0
  RowIs j x w = find w j ≡ x

  module _ (j : String) (x : Option OutboxEvent) where
    update-other : (id : String) (p : Patch) → j ≢ id → Keeps (RowIs j x) (S.update id p)
    update-other id p h = record { at = λ w e. ground (arith, L.find-update id p w j, eq_iff j id) }

    increment-other : (id : String) (n : ℕ) → j ≢ id → Keeps (RowIs j x) (S.increment id n)
    increment-other id n h = record {
      at = λ w e. ground (arith, L.find-increment id n w j, eq_iff j id);
    }

    publish-other : (e : OutboxEvent) → Keeps (RowIs j x) (S.publish e)
    publish-other e = record { at = λ w h. ground (arith, L.find-publish e w j) }

    mark_published-other : (e : OutboxEvent) → j ≢ e.id → Keeps (RowIs j x) (mark_published S e)
    unfolding mark_published
    mark_published-other e h = record { at = λ w r. (update-other e.id _ h).at w r }

    record_failure-other :
        (e : OutboxEvent) (t : Thrown) → j ≢ e.id → Keeps (RowIs j x) (record_failure S e t)
    unfolding record_failure
    record_failure-other e t h = search (keeps_rules, update-other, increment-other)

    pub deliver-other : (e : OutboxEvent) → j ≢ e.id → Keeps (RowIs j x) (deliver S e)
    unfolding deliver
    deliver-other e h =
        search (keeps_rules, publish-other, mark_published-other, record_failure-other) depth 8

    pub relay_loop-other :
        (es : List OutboxEvent) (n : ℕ)
        → All (λ e. j ≢ e.id) es
        → Keeps (RowIs j x) (relay_loop S es n)
    unfolding relay_loop
    relay_loop-other [] n h = search keeps_rules
    relay_loop-other (e ∷ es) n h =
        search (keeps_rules, deliver-other e h.0, λ (m : ℕ). relay_loop-other es m h.1)

  not_selected :
      (w : World) (j : String) (x : OutboxEvent) (es : List OutboxEvent)
      → find w j ≡ some x
      → is_unpublished x ≡ false
      → All
          (λ e.
            (find w e.id ≡ some e)
            × (matches unpublished_query e ≡ true)
            × (skips unpublished_query (S.locked w e.id) ≡ false))
          es
      → All (λ e. j ≢ e.id) es
  unfolding unpublished_query
  not_selected w j x [] h p rows = tt
  not_selected w j x (e ∷ es) h p ((row, unpublished, _), rows) =
      (λ same. ground (arith, ap (find w) same), not_selected w j x es h p rows)

  -- A row that is published is left as it is by a batch, whether the batch returns or throws.
  pub publish_batch_published :
      (w : World) (j : String) (x : OutboxEvent)
      → find w j ≡ some x
      → is_unpublished x ≡ false
      → find (publish_batch S w).1 j ≡ some x
  unfolding publish_batch
  publish_batch_published w j x h p =
      >>=-cases (RowIs j (some x)) (S.get_many unpublished_query) (λ es. relay_loop S es 0) w
        (λ e _. L.find-get_many unpublished_query w j ∙ h)
        λ es selected.
          (relay_loop-other j (some x) es 0 (
              not_selected w j x es h p
                (L.get_many-IsSelection unpublished_query w es selected).rows)).at
            _ (L.find-get_many unpublished_query w j ∙ h)
