-- ===== src/Api/Tests.antt =====
-- The API with and without settings.
use autospace_parking.Prelude.{[], ◌∷◌, true, ◌≡◌, refl, none, some, false}
use autospace_parking.Js.Number.{integer, nan, parse_int}
use autospace_parking.Js.Text.{is_space}
use autospace_parking.Js.Date.{to_iso_string}
use autospace_parking.Api.{get_health, bootstrap, jwt_options}
use autospace_parking.Api.Modules.{
  app_controller, app_service, own, Metadata, outbox_module, app_module, config, type_orm_root, jwt,
  local, outbox, availability, availability_module,
}
use autospace_parking.Database.Options.{
  Environment, outbox_event, consumed_event, create_platform_foundation, create_consumed_events,
  off, extra, parse_positive_integer, ssl_of, url_required, database_options,
}
use autospace_parking.Js.Exec.{resolved, rejected}
use autospace_parking.Api.Wiring.{IsWired, app_module-IsWired}

health_run :
    get_health 1726444800000
    ≡ record { status = "ok"; service = "api"; timestamp = "2024-09-16T00:00:00.000Z" }
unfolding get_health to_iso_string
health_run = refl

-- A port that is set to the empty text is no number.
port_run : ((bootstrap none).port ≡ integer false 4000) × ((bootstrap (some "")).port ≡ nan)
unfolding bootstrap parse_int is_space
port_run = (refl, refl)

abbrev unset : Environment
unset = record {
  url = none;
  logging = none;
  application_name = none;
  ssl = none;
  ssl_reject_unauthorized = none;
  pool_max = none;
  connection_timeout_ms = none;
  idle_timeout_ms = none;
}

-- Without the address of a database the module of the application is not even loaded.
unset_run : app_module unset none ≡ rejected url_required
unfolding app_module database_options
unset_run = refl

abbrev local_database : Environment
local_database = record unset { url = some "postgres://localhost/autospace" }

abbrev app : Metadata
app = record {
  is_global = false;
  imports =
      config true
      ∷ type_orm_root (record {
        type = "postgres";
        url = "postgres://localhost/autospace";
        entities = outbox_event ∷ consumed_event ∷ [];
        migrations = create_platform_foundation ∷ create_consumed_events ∷ [];
        migrations_run = false;
        synchronize = false;
        logging = false;
        application_name = "autospace-api";
        ssl = off;
        extra = record {
          max = integer false 20;
          connection_timeout_millis = integer false 5000;
          idle_timeout_millis = integer false 30000;
        };
      })
      ∷ jwt (jwt_options (some "secret"))
      ∷ local outbox
      ∷ local availability
      ∷ [];
  controllers = app_controller ∷ [];
  providers = own app_service ∷ [];
  exports = [];
}

app_run : app_module local_database (some "secret") ≡ resolved app
unfolding app_module database_options extra parse_positive_integer ssl_of
app_run = refl

app_module-IsWired_example :
    IsWired app app × IsWired app outbox_module × IsWired app availability_module
app_module-IsWired_example = app_module-IsWired local_database (some "secret") app app_run
