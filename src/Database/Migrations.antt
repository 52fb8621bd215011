-- ===== src/Database/Migrations.antt =====
-- apps/api/src/common/database/migrations: the statements of the two migrations. Of a
-- column its name, its type, whether it may be NULL and its default are kept.
pub mod Statements
pub mod Tables
use autospace_parking.Prelude.{String, Bool, true, false, Option, none, some, List, [], ◌∷◌}
use autospace_parking.Database.Migrations.Statements.{
  Column, column, Index, Statement, create_extension, create_table, create_index, drop_table,
}

abbrev pub outbox_table : String
outbox_table = "platform_outbox_events"

abbrev pub consumed_table : String
consumed_table = "platform_consumed_events"

abbrev pub outbox_columns : List Column
outbox_columns =
    column "id" "uuid" false (some "gen_random_uuid()")
    ∷ column "aggregate_type" "varchar(100)" false none
    ∷ column "aggregate_id" "varchar(255)" false none
    ∷ column "event_type" "varchar(200)" false none
    ∷ column "event_version" "integer" false (some "1")
    ∷ column "payload" "jsonb" false none
    ∷ column "metadata" "jsonb" false (some "'{}'::jsonb")
    ∷ column "occurred_at" "timestamptz" false (some "now()")
    ∷ column "published_at" "timestamptz" true none
    ∷ column "attempts" "integer" false (some "0")
    ∷ column "last_error" "text" true none
    ∷ []

abbrev pub unpublished_index : Index
unpublished_index = record {
  name = "IDX_platform_outbox_unpublished";
  columns = "occurred_at" ∷ "id" ∷ [];
  condition = some "published_at IS NULL";
}

abbrev pub aggregate_index : Index
aggregate_index = record {
  name = "IDX_platform_outbox_aggregate";
  columns = "aggregate_type" ∷ "aggregate_id" ∷ "occurred_at" ∷ [];
  condition = none;
}

-- `CreatePlatformFoundation1726444800000`
unfoldable pub foundation_up : List Statement
foundation_up =
    create_extension "postgis"
    ∷ create_extension "pgcrypto"
    ∷ create_table true outbox_table outbox_columns ("id" ∷ [])
    ∷ create_index outbox_table unpublished_index
    ∷ create_index outbox_table aggregate_index
    ∷ []

unfoldable pub foundation_down : List Statement
foundation_down = drop_table true outbox_table ∷ []

-- `CreateConsumedEvents1726448400000`. `createTable` and `dropTable` check nothing beforehand.
abbrev pub consumed_columns : List Column
consumed_columns =
    column "event_id" "varchar(255)" false none
    ∷ column "event_type" "varchar(200)" false none
    ∷ column "consumer_group" "varchar(200)" false none
    ∷ column "processed_at" "timestamptz" false (some "now()")
    ∷ []

unfoldable pub consumed_up : List Statement
consumed_up = create_table false consumed_table consumed_columns ("event_id" ∷ []) ∷ []

unfoldable pub consumed_down : List Statement
consumed_down = drop_table false consumed_table ∷ []
