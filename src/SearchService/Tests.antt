-- ===== src/SearchService/Tests.antt =====
-- The search service with its default settings, and with a port that is refused.
use autospace_parking.Prelude.{
  String, ◌≡◌, refl, true, false, none, some, [], ◌∷◌, ◌==◌, if◌then◌else◌,
}
use autospace_parking.Go.Env.{pos, ok, err, Environment, env_or_default, atoi}
use autospace_parking.Go.Http.{serve, serve_mux}
use autospace_parking.SearchService.Config.{Platform, Config, from_env, IsValid, from_env-IsValid}
use autospace_parking.SearchService.Handler.{
  new_handler, routes, request_logger, not_implemented, write_json, health,
}
use autospace_parking.SearchService.Main.{
  Happens, stopped, main, run_server, after, listen_address, Serves, healthcheck_lem,
}

-- Levels are texts; every duration is that of ten seconds, but for the empty one.
abbrev platform : Platform
platform = record {
  parse_duration = λ text. if text == "" then none else some (pos 10000000000);
  Level = String;
  unmarshal_level = λ text. ok text;
  write_time = λ now. "now";
}

abbrev unset : Environment
unset key = none

abbrev defaults : Config platform
defaults = record { port = "8080"; log_level = "info"; shutdown_timeout = pos 10000000000 }

defaults_run : from_env platform unset ≡ ok defaults
unfolding from_env env_or_default atoi
defaults_run = refl

port_run :
    from_env platform (λ key. if key == "PORT" then some "65536" else none)
    ≡ err "PORT must be between 1 and 65535"
unfolding from_env env_or_default atoi
port_run = refl

from_env-IsValid_example : IsValid platform unset defaults
from_env-IsValid_example = from_env-IsValid platform unset defaults defaults_run

search_run :
    (new_handler platform 1 3 (record { method = "GET"; path = "/v1/search" })).0.status ≡ 501
unfolding new_handler request_logger serve_mux serve routes not_implemented write_json
search_run = refl

post_run :
    (new_handler platform 1 3 (record { method = "POST"; path = "/v1/search" })).0.status ≡ 405
unfolding new_handler request_logger serve_mux serve routes
post_run = refl

-- Only the address of the health check is asked for.
abbrev happens : Happens
happens = record {
  get = λ url. some (if url == "http://127.0.0.1:8080/health/ready" then 200 else 404);
  first = λ address. stopped false;
  shut_down = λ timeout. true;
}

exit_run : main platform [] unset happens ≡ 1
unfolding main run_server after from_env env_or_default atoi
exit_run = refl

reached : Serves platform defaults happens "/health/ready"
unfolding listen_address new_handler request_logger serve_mux serve routes health write_json
reached = (1, 3, refl)

healthcheck_lem_example : main platform ("healthcheck" ∷ []) unset happens ≡ 0
healthcheck_lem_example = healthcheck_lem platform unset defaults happens defaults_run reached
