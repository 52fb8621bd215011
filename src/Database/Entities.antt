-- ===== src/Database/Entities.antt =====
-- outbox-event.entity.ts and consumed-event.entity.ts: the tables that the decorators describe. A
-- column that `nullable` is not set for is NOT NULL.
use autospace_parking.Prelude.{String, Bool, true, false, List, [], ◌∷◌, ◌==◌, if◌then◌else◌}
use autospace_parking.Database.Options.{Entity, outbox_event, consumed_event}

-- Where the value of a new row comes from if the entity has none: nowhere, the default that is
-- named, or the database, as for generated ids and for dates of creation.
pub data Default : Type 0 where
  absent generated : Default
  given : String → Default

pub record Declared : Type 0 where
  pub property : String
  pub name : String
  pub type : String
  pub primary : Bool
  pub nullable : Bool
  pub default : Default

-- `@Index(name, properties)`
pub record DeclaredIndex : Type 0 where
  pub name : String
  pub properties : List String

abbrev declares : String → String → String → Default → Declared
declares property name type default = record {
  property = property;
  name = name;
  type = type;
  primary = false;
  nullable = false;
  default = default;
}

-- `@Entity({ name })`
abbrev pub table_of : Entity → String
table_of outbox_event = "platform_outbox_events"
table_of consumed_event = "platform_consumed_events"

abbrev pub outbox_declared : List Declared
outbox_declared =
    record (declares "id" "id" "uuid" generated) { primary = true }
    ∷ declares "aggregateType" "aggregate_type" "varchar(100)" absent
    ∷ declares "aggregateId" "aggregate_id" "varchar(255)" absent
    ∷ declares "eventType" "event_type" "varchar(200)" absent
    ∷ declares "eventVersion" "event_version" "integer" (given "1")
    ∷ declares "payload" "payload" "jsonb" absent
    ∷ declares "metadata" "metadata" "jsonb" (given "'{}'::jsonb")
    ∷ declares "occurredAt" "occurred_at" "timestamptz" generated
    ∷ record (declares "publishedAt" "published_at" "timestamptz" absent) { nullable = true }
    ∷ declares "attempts" "attempts" "integer" (given "0")
    ∷ record (declares "lastError" "last_error" "text" absent) { nullable = true }
    ∷ []

abbrev pub consumed_declared : List Declared
consumed_declared =
    record (declares "eventId" "event_id" "varchar(255)" absent) { primary = true }
    ∷ declares "eventType" "event_type" "varchar(200)" absent
    ∷ declares "consumerGroup" "consumer_group" "varchar(200)" absent
    ∷ declares "processedAt" "processed_at" "timestamptz" generated
    ∷ []

abbrev pub declared : Entity → List Declared
declared outbox_event = outbox_declared
declared consumed_event = consumed_declared

abbrev pub declared_indexes : Entity → List DeclaredIndex
declared_indexes outbox_event =
    record {
      name = "IDX_platform_outbox_aggregate";
      properties = "aggregateType" ∷ "aggregateId" ∷ "occurredAt" ∷ [];
    }
    ∷ []
declared_indexes consumed_event = []

-- The columns of the key.
abbrev pub primary_columns : List Declared → List String
primary_columns [] = []
primary_columns (d ∷ ds) =
    let rest = primary_columns ds in if d.primary then d.name ∷ rest else rest

-- The columns of some properties.
abbrev pub column_of : List Declared → String → List String
column_of [] property = []
column_of (d ∷ ds) property =
    let rest = column_of ds property in if d.property == property then d.name ∷ rest else rest
