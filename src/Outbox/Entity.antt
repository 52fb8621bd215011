-- ===== src/Outbox/Entity.antt =====
-- outbox-event.entity.ts: a row of `platform_outbox_events`, and the partial updates of it.
use autospace_parking.Prelude.{ℕ, ◌+◌, String, Option, none, some}
use autospace_parking.Js.Json.{Object}

-- Dates are milliseconds since the epoch.
pub record OutboxEvent : Type 0 where
  pub id : String
  pub aggregate_type : String
  pub aggregate_id : String
  pub event_type : String
  pub event_version : ℕ
  pub payload : Object
  pub metadata : Object
  pub occurred_at : ℕ
  pub published_at : Option ℕ
  pub attempts : ℕ
  pub last_error : Option String

-- What `create` is given: the database adds the id and the time.
pub record NewEvent : Type 0 where
  pub aggregate_type : String
  pub aggregate_id : String
  pub event_type : String
  pub event_version : ℕ
  pub payload : Object
  pub metadata : Object
  pub published_at : Option ℕ
  pub attempts : ℕ
  pub last_error : Option String

abbrev pub stored : String → ℕ → NewEvent → OutboxEvent
stored id now n = record {
  id = id;
  aggregate_type = n.aggregate_type;
  aggregate_id = n.aggregate_id;
  event_type = n.event_type;
  event_version = n.event_version;
  payload = n.payload;
  metadata = n.metadata;
  occurred_at = now;
  published_at = n.published_at;
  attempts = n.attempts;
  last_error = n.last_error;
}

-- The columns that an update names; `none` leaves a column as it is.
pub record Patch : Type 0 where
  pub published_at : Option (Option ℕ)
  pub attempts : Option ℕ
  pub last_error : Option (Option String)

abbrev pub assigned {ℓ} : {A : Type ℓ} → Option A → A → A
assigned none old = old
assigned (some new) old = new

abbrev pub apply : Patch → OutboxEvent → OutboxEvent
apply p e = record e {
  published_at = assigned p.published_at e.published_at;
  attempts = assigned p.attempts e.attempts;
  last_error = assigned p.last_error e.last_error;
}

abbrev pub add_attempts : ℕ → OutboxEvent → OutboxEvent
add_attempts n e = record e { attempts = e.attempts + n }
