-- ===== src/AvailabilityService/Tests.antt =====
-- The availability service without a database, and with one that does not answer.
use autospace_parking.Prelude.{
  String, ◌<>◌, ◌≡◌, ◌⊎◌, refl, true, false, Option, none, some, [], ◌∷◌, ◌==◌, if◌then◌else◌,
}
use autospace_parking.Go.Env.{ℤ, pos, is_positive, ok, Environment, env_or_default}
use autospace_parking.AvailabilityService.Config.{Config, from_env}
use autospace_parking.AvailabilityService.Main.{
  opens_database, closes_database, listens_grpc, serves_http, serves_grpc, stops_grpc,
  closes_listener, shuts_http_down, signalled, Happens, open_database, main,
}
use autospace_parking.AvailabilityService.Served.{served, Reachable, served-main}

abbrev ten_seconds : String → Option ℤ
ten_seconds text = some (pos 10000000000)

abbrev unset : Environment
unset key = none

abbrev happens : Happens
happens = record {
  get = λ url. none;
  opens = λ url. true;
  pings = λ url. false;
  listens = λ address. true;
  first = signalled;
  shut_down = λ timeout. true;
}

signal_run : main ten_seconds [] unset happens ≡ (
  listens_grpc ":9091"
      ∷ serves_http ":8081"
      ∷ serves_grpc ":9091"
      ∷ stops_grpc
      ∷ closes_listener
      ∷ shuts_http_down
      ∷ [],
  0,
)
unfolding main from_env env_or_default open_database
signal_run = refl

silent_run :
    main ten_seconds []
      (λ key. if key == "DATABASE_URL" then some "postgres://db" else none)
      happens
    ≡ (opens_database ∷ closes_database ∷ [], 1)
unfolding main from_env env_or_default open_database
silent_run = refl

served-main_example :
    (served (main ten_seconds [] unset happens).0 ≡ [])
    ⊎ ((cfg : Config) × (from_env ten_seconds unset ≡ ok cfg)
        × (is_positive cfg.shutdown_timeout ≡ true)
        × (served (main ten_seconds [] unset happens).0 ≡ (":" <> cfg.port) ∷ [])
        × (happens.listens (":" <> cfg.grpc_port) ≡ true)
        × Reachable cfg happens)
served-main_example = served-main ten_seconds [] unset happens
