-- ===== src/Outbox/Relay/Restored.antt =====
-- A database and a broker that accept every call from some time on, whatever they did before.
use autospace_parking.Prelude.{
  ℕ, zero, suc, ◌+◌, String, ◌≡◌, refl, ap, ◌∙◌, true, false, List, [], ◌∷◌, if◌then◌else◌,
}
use autospace_parking.Js.Exec.{Thrown, resolved, pure, ◌>>◌}
use autospace_parking.Js.Exec.Restricts.{
  restrict, Restricts, Restricts-bind, Restricts-catch, Restricts-pure,
}
use autospace_parking.Outbox.Entity.{OutboxEvent, NewEvent, Patch}
use autospace_parking.Outbox.Services.{Services, Query, IsLawful}
use autospace_parking.Outbox.Relay.{
  failure, unpublished_query, mark_published, record_failure, deliver, relay_loop, publish_batch,
}
use autospace_parking.Outbox.Relay.Progress.{DatabaseAnswers, BrokerAccepts}
use autospace_parking.Outbox.Relay.Batches.{batches}

-- The worlds from that time on: no call leads out of them, each call of a batch is accepted in them,
-- and no other transaction holds a row.
pub record IsRestored (S : Services) (Up : S.World → Type 0) : Type 0 where
  pub save : (n : NewEvent) (w : S.World) → Up w → Up (S.save n w).1
  pub get_many : (q : Query) (w : S.World) → Up w → Up (S.get_many q w).1
  pub update : (id : String) (p : Patch) (w : S.World) → Up w → Up (S.update id p w).1
  pub increment : (id : String) (n : ℕ) (w : S.World) → Up w → Up (S.increment id n w).1
  pub publish : (e : OutboxEvent) (w : S.World) → Up w → Up (S.publish e w).1
  pub selects :
      (q : Query) (w : S.World)
      → Up w
      → (es : List OutboxEvent) × ((S.get_many q w).0 ≡ resolved es)
  pub updates : (id : String) (p : Patch) (w : S.World) → Up w → (S.update id p w).0 ≡ resolved tt
  pub increments : (id : String) (n : ℕ) (w : S.World) → Up w → (S.increment id n w).0 ≡ resolved tt
  pub accepts : (e : OutboxEvent) (w : S.World) → Up w → (S.publish e w).0 ≡ resolved tt
  pub unlocked : (w : S.World) → Up w → (j : String) → S.locked w j ≡ false

module _ (S : Services) (Up : S.World → Type 0) (R : IsRestored S Up) where
  -- The services in those worlds only.
  abbrev pub restored : Services
  restored = record {
    World = (w : S.World) × Up w;
    save = λ n. restrict (S.save n) (R.save n);
    get_many = λ q. restrict (S.get_many q) (R.get_many q);
    update = λ id p. restrict (S.update id p) (R.update id p);
    increment = λ id n. restrict (S.increment id n) (R.increment id n);
    publish = λ e. restrict (S.publish e) (R.publish e);
    now = λ x. S.now x.0;
    find = λ x. S.find x.0;
    locked = λ x. S.locked x.0;
    delivered = λ x. S.delivered x.0;
  }

  pub restored-IsLawful : IsLawful S → IsLawful restored
  restored-IsLawful L = record {
    find-id = λ x j e row. L.find-id x.0 j e row;
    get_many-IsSelection = λ q x es selected.
        let s = L.get_many-IsSelection q x.0 es selected in
        record {
          rows = s.rows;
          distinct = s.distinct;
          ordered = s.ordered;
          bounded = s.bounded;
          complete = s.complete;
        };
    find-get_many = λ q x j. L.find-get_many q x.0 j;
    locked-get_many = λ q x j. L.locked-get_many q x.0 j;
    delivered-get_many = λ q x. L.delivered-get_many q x.0;
    find-save = λ n x e saved. L.find-save n x.0 e saved;
    find-save_rejected = λ n x t lost j. L.find-save_rejected n x.0 t lost j;
    delivered-save = λ n x. L.delivered-save n x.0;
    find-update = λ id p x j. L.find-update id p x.0 j;
    find-increment = λ id n x j. L.find-increment id n x.0 j;
    delivered-update = λ id p x. L.delivered-update id p x.0;
    delivered-increment = λ id n x. L.delivered-increment id n x.0;
    find-publish = λ e x j. L.find-publish e x.0 j;
    delivered-publish = λ e x done. L.delivered-publish e x.0 done;
    delivered-publish_rejected = λ e x. L.delivered-publish_rejected e x.0;
  }

  pub restored-DatabaseAnswers : DatabaseAnswers restored
  restored-DatabaseAnswers = record {
    get_many = λ q. record { from = λ x. R.selects q x.0 x.1 };
    update = λ id p. record { from = λ x. (tt, R.updates id p x.0 x.1) };
    increment = λ id n. record { from = λ x. (tt, R.increments id n x.0 x.1) };
  }

  pub restored-BrokerAccepts : BrokerAccepts restored
  restored-BrokerAccepts e x = R.accepts e x.0 x.1

  get_many-Restricts : (q : Query) → Restricts Up (S.get_many q) (restored.get_many q)
  get_many-Restricts q = record { at = λ x. (refl, refl) }

  publish-Restricts : (e : OutboxEvent) → Restricts Up (S.publish e) (restored.publish e)
  publish-Restricts e = record { at = λ x. (refl, refl) }

  update-Restricts : (id : String) (p : Patch) → Restricts Up (S.update id p) (restored.update id p)
  update-Restricts id p = record { at = λ x. (refl, refl) }

  increment-Restricts :
      (id : String) (n : ℕ) → Restricts Up (S.increment id n) (restored.increment id n)
  increment-Restricts id n = record { at = λ x. (refl, refl) }

  mark_published-Restricts :
      (e : OutboxEvent) → Restricts Up (mark_published S e) (mark_published restored e)
  unfolding mark_published
  mark_published-Restricts e = record { at = λ x. (refl, refl) }

  record_failure-Restricts :
      (e : OutboxEvent) (t : Thrown)
      → Restricts Up (record_failure S e t) (record_failure restored e t)
  unfolding record_failure
  record_failure-Restricts e t =
      Restricts-bind (S.increment e.id 1) (restored.increment e.id 1)
        (λ _. S.update e.id (failure t)) (λ _. restored.update e.id (failure t))
        (increment-Restricts e.id 1) λ _. update-Restricts e.id (failure t)

  deliver-Restricts : (e : OutboxEvent) → Restricts Up (deliver S e) (deliver restored e)
  unfolding deliver
  deliver-Restricts e =
      Restricts-catch (S.publish e >> (mark_published S e >> pure true))
        (restored.publish e >> (mark_published restored e >> pure true))
        (λ t. record_failure S e t >> pure false) (λ t. record_failure restored e t >> pure false)
        (Restricts-bind (S.publish e) (restored.publish e) (λ _. mark_published S e >> pure true)
          (λ _. mark_published restored e >> pure true) (publish-Restricts e)
          λ _.
            Restricts-bind (mark_published S e) (mark_published restored e) (λ _. pure true)
              (λ _. pure true) (mark_published-Restricts e) λ _. Restricts-pure true)
        λ t.
          Restricts-bind (record_failure S e t) (record_failure restored e t) (λ _. pure false)
            (λ _. pure false) (record_failure-Restricts e t) λ _. Restricts-pure false

  relay_loop-Restricts :
      (es : List OutboxEvent) (n : ℕ) → Restricts Up (relay_loop S es n) (relay_loop restored es n)
  unfolding relay_loop
  relay_loop-Restricts [] n = Restricts-pure n
  relay_loop-Restricts (e ∷ es) n =
      Restricts-bind (deliver S e) (deliver restored e)
        (λ done. relay_loop S es (if done then n + 1 else n))
        (λ done. relay_loop restored es (if done then n + 1 else n)) (deliver-Restricts e)
        λ done. relay_loop-Restricts es (if done then n + 1 else n)

  publish_batch-Restricts : Restricts Up (publish_batch S) (publish_batch restored)
  unfolding publish_batch
  publish_batch-Restricts =
      Restricts-bind (S.get_many unpublished_query) (restored.get_many unpublished_query)
        (λ es. relay_loop S es 0) (λ es. relay_loop restored es 0)
        (get_many-Restricts unpublished_query) λ es. relay_loop-Restricts es 0

  pub batches-restored : (n : ℕ) (x : restored.World) → (batches restored n x).0 ≡ batches S n x.0
  unfolding batches
  batches-restored zero x = refl
  batches-restored (suc n) x =
      batches-restored n (publish_batch restored x).1
      ∙ ap (batches S n) (publish_batch-Restricts.at x).1
