-- ===== src/Outbox/Tests/Recovery.antt =====
-- A broker that refuses its first event and then takes all, and a process that dies after that.
use autospace_parking.Prelude.{
  ◌≡◌, refl, inl, inr, Bool, true, false, some, [], ◌∷◌, Bool-cases, if◌then◌else◌,
}
use autospace_parking.Js.Exec.{Exec, error, rejected}
use autospace_parking.Outbox.Services.{Services, IsLawful}
use autospace_parking.Outbox.Memory as Rows
use autospace_parking.Outbox.Memory.{Memory}
use autospace_parking.Outbox.Memory.Lawful.{memory-IsLawful}
use autospace_parking.Outbox.Relay.{unpublished_query}
use autospace_parking.Outbox.Relay.Restored.{IsRestored}
use autospace_parking.Outbox.Interleaving as Turns
use autospace_parking.Outbox.Interleaving.{publishing, counting, advance}
use autospace_parking.Outbox.Interleaving.Rows.{IsFaithful}
use autospace_parking.Outbox.Worker.{on_module_init}
use autospace_parking.Outbox.Worker.Processes.{
  Process, booted, goes, acts, dies, boots, Reach, here, next,
}
use autospace_parking.Outbox.Tests.Relay.{accepts, both_wait}
use autospace_parking.Outbox.Tests.Interleaving.{sent_a, sent_b, both_wait-IsFaithful}
use autospace_parking.Outbox.Tests.Processes.{unset}

abbrev rows : Services
rows = Rows.memory accepts

-- The two rows, and whether the broker is up.
abbrev pub World : Type 0
World = Memory × Bool

abbrev on_rows : {A : Type 0} → Exec Memory A → Exec World A
on_rows m (w, up) = ((m w).0, ((m w).1, up))

abbrev pub flaky : Services
flaky = record {
  World = World;
  save = λ n. on_rows (rows.save n);
  get_many = λ q. on_rows (rows.get_many q);
  update = λ id p. on_rows (rows.update id p);
  increment = λ id n. on_rows (rows.increment id n);
  publish = λ e x.
      if x.1
      then on_rows (rows.publish e) x
      else (rejected (error "KafkaJSConnectionError" "connection refused"), (x.0, true));
  now = λ x. rows.now x.0;
  find = λ x. rows.find x.0;
  locked = λ x. rows.locked x.0;
  delivered = λ x. rows.delivered x.0;
}

pub flaky-IsLawful : IsLawful flaky
flaky-IsLawful =
    let L = memory-IsLawful accepts in
    record {
      find-id = λ x. L.find-id x.0;
      get_many-IsSelection = λ q x es selected.
          let s = L.get_many-IsSelection q x.0 es selected in
          record {
            rows = s.rows;
            distinct = s.distinct;
            ordered = s.ordered;
            bounded = s.bounded;
            complete = s.complete;
          };
      find-get_many = λ q x. L.find-get_many q x.0;
      locked-get_many = λ q x. L.locked-get_many q x.0;
      delivered-get_many = λ q x. L.delivered-get_many q x.0;
      find-save = λ n x. L.find-save n x.0;
      find-save_rejected = λ n x. L.find-save_rejected n x.0;
      delivered-save = λ n x. L.delivered-save n x.0;
      find-update = λ id p x. L.find-update id p x.0;
      find-increment = λ id n x. L.find-increment id n x.0;
      delivered-update = λ id p x. L.delivered-update id p x.0;
      delivered-increment = λ id n x. L.delivered-increment id n x.0;
      find-publish = λ e (w, up) j. elim (Bool-cases up) [
        | inl is_up ↦ rw is_up refl
        | inr down ↦ rw down refl
      ];
      delivered-publish =
          λ e (w, up) done. elim (Bool-cases up) [ inl is_up ↦ rw is_up refl | inr down ↦ cc ];
      delivered-publish_rejected = λ e (w, up). elim (Bool-cases up) [
        | inl is_up ↦ inr (rw is_up refl)
        | inr down ↦ inl (rw down refl)
      ];
    }

-- The broker is up.
abbrev pub Up : World → Type 0
Up x = x.1 ≡ true

going : (b : Bool) → b ≡ true → b ≡ true
going b up = up

pub flaky-IsRestored : IsRestored flaky Up
flaky-IsRestored = record {
  save = λ n x up. up;
  get_many = λ q x up. up;
  update = λ id p x up. up;
  increment = λ id n x up. up;
  publish = λ e (w, b) up. rw (going b up) refl;
  selects = λ q x up. (Rows.selection q x.0, refl);
  updates = λ id p x up. refl;
  increments = λ id n x up. refl;
  accepts = λ e (w, b) up. rw (going b up) refl;
  unlocked = λ x up j. refl;
}

abbrev pub origin : World
origin = (both_wait, false)

abbrev pub later : World
later = (both_wait, true)

pub origin-IsFaithful : IsFaithful flaky origin
origin-IsFaithful = record {
  published = λ e row old.
      let s = both_wait-IsFaithful.published e row old in
      record { event = s.event; listed = s.listed; same = s.same };
  stored = λ d m. elim m [ ];
}

abbrev reading : Process
reading = record (booted unset) { batch = some (publishing sent_b (sent_a ∷ []) 0) }

-- A process reads the two rows, the broker refuses the first event, and the process dies before it
-- writes that down.
pub refused : Reach flaky origin [] later
unfolding booted on_module_init advance unpublished_query
refused =
    next
      (next
        (next (next here (boots unset [] origin))
          (acts [] (goes (booted unset) origin Turns.Point.selecting refl refl)))
        (acts [] (goes reading origin (publishing sent_b (sent_a ∷ []) 0) refl refl)))
      (dies _ [] later)
