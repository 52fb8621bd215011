-- ===== src/Outbox/Interleaving/Recovery.antt =====
-- Batches one after another, after any history of relays and calls of `enqueue`.
use autospace_parking.Prelude.{
  ℕ, ◌≤◌, String, ◌≡◌, ap, ◌∙◌, ◌⊎◌, some, inl, inr, Bool-cases, List, length, subst, true,
}
use autospace_parking.Outbox.Entity.{OutboxEvent}
use autospace_parking.Outbox.Services.{Services, IsLawful, is_unpublished}
use autospace_parking.Outbox.Relay.Progress.{DatabaseAnswers, BrokerAccepts}
use mathlib.Core.List.{Memᴰ}
use autospace_parking.Outbox.Relay.Waiting.{is_pending}
use autospace_parking.Outbox.Relay.Restored.{
  IsRestored, restored, restored-IsLawful, restored-DatabaseAnswers, restored-BrokerAccepts,
  batches-restored,
}
use autospace_parking.Outbox.Relay.Batches.{
  batches, batches_keep, Unlocked, AreUnder, batches_deliver,
}
use autospace_parking.Outbox.Interleaving.{Point, Reach}
use autospace_parking.Outbox.Interleaving.Rows.{
  Stored, Sent, IsFaithful, Sent-content, Extends-Stored,
}
use autospace_parking.Outbox.Interleaving.Sound.{Reach-IsFaithful}

module _ (S : Services) (L : IsLawful S) (D : DatabaseAnswers S) (B : BrokerAccepts S)
    (unlocked : Unlocked S L D B) (ids : List String) where
  open S use {World, find}

  -- Where what the rows say of their delivery is true, enough batches send each event that has a row.
  pub batches-Sent :
      (n : ℕ) (w : World)
      → AreUnder S L D B ids w
      → length ids ≤ n
      → IsFaithful S w
      → (e : OutboxEvent) → Stored S w e
      → Sent S (batches S n w) e
  batches-Sent n w under many h e s =
      let same_id : s.row.id ≡ e.id = ap (λ (d : OutboxEvent). d.id) s.same in
      let there : find w s.row.id ≡ some s.row = ap (find w) same_id ∙ s.there in
      elim (Bool-cases (is_unpublished s.row)) [
        | inl waits ↦
            let (_, send) = batches_deliver S L D B unlocked ids n w under many in
            record { event = s.row; listed = send s.row there waits; same = s.same }
        | inr old ↦
            let was = Sent-content S L s.row e s.same (h.published s.row there old) in
            record {
              event = was.event;
              listed = batches_keep S L D B n w was.event was.listed;
              same = was.same;
            }
      ]

module _ (S : Services) where
  -- Every row that waits is under one of the ids.
  abbrev pub WaitUnder : List String → S.World → Type 0
  WaitUnder ids w = (j : String) → is_pending (S.find w j) ≡ true → Memᴰ j ids

-- The database and the broker accept every call from the last state of the history on.
module _ (S : Services) (L : IsLawful S) (Up : S.World → Type 0) (R : IsRestored S Up) where
  open S use {World}

  Stored-restored :
      (x : (w : World) × Up w) (e : OutboxEvent) → Stored S x.0 e → Stored (restored S Up R) x e
  Stored-restored x e s = record { row = s.row; there = s.there; same = s.same }

  IsFaithful-restored : (x : (w : World) × Up w) → IsFaithful S x.0 → IsFaithful (restored S Up R) x
  IsFaithful-restored x h = record {
    published = λ e row old.
        let s = h.published e row old in
        record { event = s.event; listed = s.listed; same = s.same };
    stored = λ d m. Stored-restored x d (h.stored d m);
  }

  -- After any history that began with rows that tell the truth, enough batches send each event that
  -- had a row at its start or has one at its end.
  pub recovery_lem :
      {start : World} {ps : List Point} {w : World}
      → Reach S start ps w
      → IsFaithful S start
      → Up w
      → (n : ℕ) (ids : List String) → WaitUnder S ids w
      → length ids ≤ n
      → (e : OutboxEvent) → Stored S start e ⊎ Stored S w e
      → Sent S (batches S n w) e
  recovery_lem {w = w} r h up n ids under many e s =
      let (faithful, extends) = Reach-IsFaithful S L r h in
      let now : Stored S w e = elim s [
        | inl before ↦ Extends-Stored S L e extends before
        | inr there ↦ there
      ] in
      let x : (v : World) × Up v = (w, up) in
      let sent =
        batches-Sent (restored S Up R) (restored-IsLawful S Up R L)
          (restored-DatabaseAnswers S Up R) (restored-BrokerAccepts S Up R)
          (λ y j. R.unlocked y.0 y.1 j) ids n x under many (IsFaithful-restored x faithful) e
          (Stored-restored x e now) in
      record {
        event = sent.event;
        listed =
            subst (λ (v : World). Memᴰ sent.event (S.delivered v)) (batches-restored S Up R n x)
              sent.listed;
        same = sent.same;
      }
