-- ===== src/AvailabilityService/Config.antt =====
-- internal/config/config.go: `FromEnv`. The port is not looked at.
use autospace_parking.Prelude.{String, ◌≡◌, true, Option, none, some, if◌then◌else◌, arith}
use autospace_parking.Go.Env.{ℤ, is_positive, Result, ok, err, Environment, env_or_default, getenv}

pub record Config : Type 0 where
  pub port : String
  pub grpc_port : String
  pub database_url : String
  pub redis_url : String
  pub environment : String
  pub shutdown_timeout : ℤ

-- The settings, with the timeout that was parsed.
unfoldable pub with_timeout : Environment → Option ℤ → Result Config
with_timeout env none = err "SHUTDOWN_TIMEOUT must be a positive duration"
with_timeout env (some timeout) =
    if is_positive timeout
    then ok (record {
      port = env_or_default env "PORT" "8081";
      grpc_port = env_or_default env "GRPC_PORT" "9091";
      database_url = getenv env "DATABASE_URL";
      redis_url = getenv env "REDIS_URL";
      environment = env_or_default env "APP_ENV" "development";
      shutdown_timeout = timeout;
    })
    else err "SHUTDOWN_TIMEOUT must be a positive duration"

-- `time.ParseDuration` in nanoseconds is a parameter, with `none` for an error.
unfoldable pub from_env : (String → Option ℤ) → Environment → Result Config
unfolding with_timeout
from_env parse_duration env =
    with_timeout env (parse_duration (env_or_default env "SHUTDOWN_TIMEOUT" "10s"))

timeout_positive :
    (env : Environment) (timeout : Option ℤ) (cfg : Config)
    → with_timeout env timeout ≡ ok cfg
    → is_positive cfg.shutdown_timeout ≡ true
unfolding with_timeout
timeout_positive env none cfg h = cc h
timeout_positive env (some timeout) cfg h = ground arith

pub from_env_positive :
    (parse_duration : String → Option ℤ) (env : Environment) (cfg : Config)
    → from_env parse_duration env ≡ ok cfg
    → is_positive cfg.shutdown_timeout ≡ true
unfolding from_env
from_env_positive parse_duration env cfg h =
    timeout_positive env (parse_duration (env_or_default env "SHUTDOWN_TIMEOUT" "10s")) cfg h
