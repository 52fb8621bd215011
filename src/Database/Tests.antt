-- ===== src/Database/Tests.antt =====
-- The options of the database from settings, and from ones that are refused.
use autospace_parking.Prelude.{All, ◌≡◌, refl, true, false, none, some, [], ◌∷◌}
use autospace_parking.Database.Source.{data_source, HasTable, data_source-HasTable}
use autospace_parking.Js.Exec.{error, resolved, rejected}
use autospace_parking.Js.Text.{is_space}
use autospace_parking.Js.Number.{integer, parse_int}
use autospace_parking.Database.Options.{
  Environment, Options, outbox_event, consumed_event, create_platform_foundation,
  create_consumed_events, on, extra, ssl_of, parse_positive_integer, database_options, IsValid,
  database_options_lem,
}

abbrev settings : Environment
settings = record {
  url = some "postgres://db/autospace";
  logging = none;
  application_name = none;
  ssl = some "true";
  ssl_reject_unauthorized = none;
  pool_max = some "5";
  connection_timeout_ms = none;
  idle_timeout_ms = some "";
}

abbrev options : Options
options = record {
  type = "postgres";
  url = "postgres://db/autospace";
  entities = outbox_event ∷ consumed_event ∷ [];
  migrations = create_platform_foundation ∷ create_consumed_events ∷ [];
  migrations_run = false;
  synchronize = false;
  logging = false;
  application_name = "autospace-api";
  ssl = on true;
  extra = record {
    max = integer false 5;
    connection_timeout_millis = integer false 5000;
    idle_timeout_millis = integer false 30000;
  };
}

options_run : database_options settings ≡ resolved options
unfolding database_options extra ssl_of parse_positive_integer is_space parse_int
options_run = refl

refused_run :
    database_options (record settings { pool_max = some "0" })
    ≡ rejected (error "Error" "Expected a positive integer, received \"0\"")
unfolding database_options extra parse_positive_integer is_space parse_int
refused_run = refl

database_options_lem_example : (settings.url ≡ some options.url) × IsValid options
database_options_lem_example = database_options_lem settings options options_run

source_run : data_source (λ o. o) settings ≡ resolved options
unfolding data_source
source_run = rw options_run refl

data_source-HasTable_example : All (HasTable options) options.entities
data_source-HasTable_example = data_source-HasTable settings options source_run
