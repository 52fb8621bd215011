-- ===== src/Outbox/Interleaving/Rows.antt =====
-- What no statement of the outbox changes: an event's row stays, with the content that it began with.
use autospace_parking.Prelude.{
  String, ◌≡◌, refl, sym, ap, ◌∙◌, subst, ◌⊎◌, inl, inr, Bool, true, false, ◌&&◌, none, some, [],
  ◌∷◌, ◌++◌, ◌==◌, eq_iff, arith, if◌then◌else◌, Bool-cases, Option-cases, Memᴰ-append_left,
  Memᴰ-append_right,
}
use mathlib.Core.Option
use mathlib.Core.List.Memᴰ
use mathlib.Core.List.{Memᴰ}
use autospace_parking.Outbox.Entity.{OutboxEvent}
use autospace_parking.Outbox.Services.{Services, IsLawful, is_unpublished}

-- An event but for what its delivery writes.
abbrev pub content : OutboxEvent → OutboxEvent
content e = record e { published_at = none; attempts = 0; last_error = none }

module _ (S : Services) where
  open S use {World, find, delivered}

  -- The row of an event.
  pub record Stored (w : World) (e : OutboxEvent) : Type 0 where
    pub row : OutboxEvent
    pub there : find w e.id ≡ some row
    pub same : content row ≡ content e

  -- The event has reached the broker.
  pub record Sent (w : World) (e : OutboxEvent) : Type 0 where
    pub event : OutboxEvent
    pub listed : Memᴰ event (delivered w)
    pub same : content event ≡ content e

  -- No row is gone or has other content, and what was sent stays sent.
  pub record Extends (w v : World) : Type 0 where
    pub rows : (e : OutboxEvent) → find w e.id ≡ some e → Stored v e
    pub sent : (d : OutboxEvent) → Memᴰ d (delivered w) → Memᴰ d (delivered v)

  -- Every row that is published was sent, and everything sent has a row.
  pub record IsFaithful (w : World) : Type 0 where
    pub published : (e : OutboxEvent) → find w e.id ≡ some e → is_unpublished e ≡ false → Sent w e
    pub stored : (d : OutboxEvent) → Memᴰ d (delivered w) → Stored w d

module _ (S : Services) (L : IsLawful S) where
  open S use {World, find, delivered}

  pub Extends-Stored : {w v : World} (e : OutboxEvent) → Extends S w v → Stored S w e → Stored S v e
  Extends-Stored {w} {v} e x s =
      let same_id : s.row.id ≡ e.id = ap (λ (d : OutboxEvent). d.id) s.same in
      let later = x.rows s.row (ap (find w) same_id ∙ s.there) in
      record {
        row = later.row;
        there = ap (find v) (sym same_id) ∙ later.there;
        same = later.same ∙ s.same;
      }

  pub Extends-Sent : {w v : World} (e : OutboxEvent) → Extends S w v → Sent S w e → Sent S v e
  Extends-Sent e x s = record { event = s.event; listed = x.sent s.event s.listed; same = s.same }

  pub Sent-content :
      {w : World} (d e : OutboxEvent) → content d ≡ content e → Sent S w d → Sent S w e
  Sent-content d e h s = record { event = s.event; listed = s.listed; same = s.same ∙ h }

  pub Extends-refl : (w : World) → Extends S w w
  Extends-refl w = record {
    rows = λ e row. record { row = e; there = row; same = refl };
    sent = λ d m. m;
  }

  pub Extends-trans : {w v u : World} → Extends S w v → Extends S v u → Extends S w u
  Extends-trans x y = record {
    rows = λ e row. Extends-Stored e y (x.rows e row);
    sent = λ d m. y.sent d (x.sent d m);
  }

  -- A statement that changes one row at most, or none, and not its content.
  module _ (w v : World) (ok : Bool) (id : String) (f : OutboxEvent → OutboxEvent)
      (keeps : (e : OutboxEvent) → content (f e) ≡ content e)
      (rows : (j : String)
        → find v j ≡ (if ok && j == id then Option.map f (find w j) else find w j))
      (sends : delivered v ≡ delivered w) where
    patched_row : (e : OutboxEvent) → find w e.id ≡ some e → Stored S v e
    patched_row e row = elim (Bool-cases (ok && e.id == id)) [
      | inl hit ↦ record { row = f e; there = rows e.id ∙ rw (hit, row) refl; same = keeps e }
      | inr missed ↦ record { row = e; there = rows e.id ∙ rw missed row; same = refl }
    ]

    pub patched-Extends : Extends S w v
    patched-Extends = record { rows = patched_row; sent = λ d m. rw sends m }

    abbrev pub Marks : Type 0
    Marks =
        (e : OutboxEvent)
        → ok ≡ true
        → find w id ≡ some e
        → is_unpublished (f e) ≡ false
        → (is_unpublished e ≡ false) ⊎ Sent S w e

    was_sent :
        Marks
        → IsFaithful S w
        → (e : OutboxEvent) → find v e.id ≡ some e
        → is_unpublished e ≡ false
        → (ok && e.id == id) ≡ true
        → (x : OutboxEvent) → find w e.id ≡ some x
        → Sent S w e
    was_sent marks h e row old hit x present =
        let patched : find v e.id ≡ some (f x) = rows e.id ∙ rw (hit, present) refl in
        let it : f x ≡ e = cc (patched, row) in
        let x_id : x.id ≡ e.id = L.find-id w e.id x present in
        let at_id : x.id ≡ id = ground (arith, hit, eq_iff e.id id, x_id) in
        let x_sent : Sent S w x =
          elim (marks x (ground (arith, hit)) (ap (find w) (sym at_id ∙ x_id) ∙ present)
            (ap is_unpublished it ∙ old)) [
              | inl was ↦ h.published x (ap (find w) x_id ∙ present) was
              | inr sent ↦ sent
            ] in
        Sent-content x e (sym (keeps x) ∙ ap content it) x_sent

    pub patched-IsFaithful : Marks → IsFaithful S w → IsFaithful S v
    patched-IsFaithful marks h = record {
      published = λ e row old. elim (Bool-cases (ok && e.id == id)) [
        | inr missed ↦
            Extends-Sent e patched-Extends
              (h.published e (sym (rows e.id ∙ rw missed refl) ∙ row) old)
        | inl hit ↦ elim (Option-cases (find w e.id)) [
          | inl absent ↦ absurd (ground (arith, rows e.id, hit, absent, row))
          | inr (x, present) ↦
              Extends-Sent e patched-Extends (was_sent marks h e row old hit x present)
        ]
      ];
      stored = λ d m. Extends-Stored d patched-Extends (h.stored d (rw (← sends) m));
    }

  -- A send that reached the broker.
  module _ (w v : World) (event : OutboxEvent) (rows : (j : String) → find v j ≡ find w j)
      (sends : delivered v ≡ delivered w ++ event ∷ []) where
    pub sent-Extends : Extends S w v
    sent-Extends = record {
      rows = λ e row. record { row = e; there = rows e.id ∙ row; same = refl };
      sent = λ d m. rw sends (Memᴰ-append_left (delivered w) (event ∷ []) m);
    }

    pub sent-Sent : Sent S v event
    sent-Sent = record {
      event = event;
      listed = rw sends (Memᴰ-append_right (delivered w) (event ∷ []) (Memᴰ.head refl));
      same = refl;
    }

    pub sent-IsFaithful : Stored S w event → IsFaithful S w → IsFaithful S v
    sent-IsFaithful s h = record {
      published =
          λ e row old. Extends-Sent e sent-Extends (h.published e (sym (rows e.id) ∙ row) old);
      stored = λ d m.
          Extends-Stored d sent-Extends
            (elim (Memᴰ.append_cases (delivered w) (subst (λ ds. Memᴰ d ds) sends m)) [
              | inl earlier ↦ h.stored d earlier
              | inr now ↦ subst (Stored S w) (sym (Memᴰ.eq_of_singleton now)) s
            ]);
    }

  -- A row that is new, and not published.
  module _ (w v : World) (event : OutboxEvent) (fresh : find w event.id ≡ none)
      (waits : is_unpublished event ≡ true)
      (rows : (j : String) → find v j ≡ (if j == event.id then some event else find w j))
      (sends : delivered v ≡ delivered w) where
    old_row : (e : OutboxEvent) → find w e.id ≡ some e → find v e.id ≡ some e
    old_row e row =
        ground (
          arith,
          rows e.id,
          eq_iff e.id event.id,
          ap (find w) {x = e.id} {y = event.id},
          fresh,
          row,
        )

    pub saved-Extends : Extends S w v
    saved-Extends = record {
      rows = λ e row. record { row = e; there = old_row e row; same = refl };
      sent = λ d m. rw sends m;
    }

    pub saved-IsFaithful : IsFaithful S w → IsFaithful S v
    saved-IsFaithful h = record {
      published = λ e row old. elim (Bool-cases (e.id == event.id)) [
        | inl hit ↦ absurd (ground (arith, rows e.id, hit, row, old, waits))
        | inr missed ↦
            Extends-Sent e saved-Extends
              (h.published e (sym (rows e.id ∙ rw missed refl) ∙ row) old)
      ];
      stored = λ d m. Extends-Stored d saved-Extends (h.stored d (rw (← sends) m));
    }
