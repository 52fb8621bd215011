-- ===== src/SearchService/Main.antt =====
-- cmd/server/main.go: the process of the search service, by its exit code.
use autospace_parking.Prelude.{
  ℕ, String, ◌<>◌, ◌≡◌, refl, sym, ◌∙◌, ap, Bool, ◌==◌, Option, none, some, List, [], ◌∷◌, eqb,
  if◌then◌else◌,
}
use text.Mathlib.TextLemmas.{append_assoc}
use autospace_parking.Go.Env.{ℤ, Environment, Result, ok, err, env_or_default}
use autospace_parking.Go.Http.{serve, serve_mux}
use autospace_parking.SearchService.Config.{Platform, Config, from_env, from_env-IsValid}
use autospace_parking.SearchService.Handler.{
  new_handler, routes, request_logger, health, write_json,
}

-- What ends the wait of `main`: a signal, or the server, whose error may be `ErrServerClosed`.
pub data First : Type 0 where
  signalled : First
  stopped : Bool → First

-- What happens to the process: the status that the health check's request is answered with, `none`
-- for an error; what ends the wait of a server that listens at an address; and whether `Shutdown`
-- ends in time.
pub record Happens : Type 0 where
  pub get : String → Option ℕ
  pub first : String → First
  pub shut_down : ℤ → Bool

exit_of : Option ℕ → ℕ
exit_of none = 1
exit_of (some status) = if eqb status 200 then 0 else 1

unfoldable pub health_address : Environment → String
health_address env = "http://127.0.0.1:" <> (env_or_default env "PORT" "8080" <> "/health/ready")

unfoldable pub run_healthcheck : Environment → Happens → ℕ
unfolding exit_of health_address
run_healthcheck env h = exit_of (h.get (health_address env))

module _ (P : Platform) where
  unfoldable pub listen_address : Config P → String
  listen_address cfg = ":" <> cfg.port

  unfoldable pub after : First → ℤ → Happens → ℕ
  after signalled timeout h = if h.shut_down timeout then 0 else 1
  after (stopped closed) timeout h = if closed then 0 else 1

  unfoldable pub run_server : Result (Config P) → Happens → ℕ
  unfolding after listen_address
  run_server (err e) h = 1
  run_server (ok cfg) h = after (h.first (listen_address cfg)) cfg.shutdown_timeout h

  -- `main`, with the arguments after the program's name.
  unfoldable pub main : List String → Environment → Happens → ℕ
  unfolding run_server
  main [] env h = run_server (from_env P env) h
  main (argument ∷ more) env h =
      if argument == "healthcheck" then run_healthcheck env h else run_server (from_env P env) h

  -- A request to the machine itself, for a path, reaches the server that listens with these settings.
  abbrev pub Serves : Config P → Happens → String → Type 0
  Serves cfg h path =
      (now later : ℕ) × (h.get ("http://127.0.0.1" <> (listen_address cfg <> path))
        ≡ some (new_handler P now later (record { method = "GET"; path = path })).0.status)

  ready :
      (now later : ℕ)
      → (new_handler P now later (record { method = "GET"; path = "/health/ready" })).0.status ≡ 200
  unfolding new_handler request_logger serve_mux serve routes health write_json
  ready now later = refl

  health_address_lem :
      (env : Environment) (cfg : Config P)
      → cfg.port ≡ env_or_default env "PORT" "8080"
      → health_address env ≡ "http://127.0.0.1" <> (listen_address cfg <> "/health/ready")
  unfolding health_address listen_address
  health_address_lem env cfg port = rw (← port) (
      append_assoc "http://127.0.0.1" ":" (cfg.port <> "/health/ready")
      ∙ ap (λ (s : String). "http://127.0.0.1" <> s)
          (sym (append_assoc ":" cfg.port "/health/ready")))

  -- If the settings of the search service are accepted, and a request of the machine itself for
  -- /health/ready reaches the server that listens with these settings, then the health check, run
  -- with the same environment, exits with 0.
  pub healthcheck_lem :
      (env : Environment) (cfg : Config P) (h : Happens)
      → from_env P env ≡ ok cfg
      → Serves cfg h "/health/ready"
      → main ("healthcheck" ∷ []) env h ≡ 0
  unfolding main run_healthcheck
  healthcheck_lem env cfg h made serves =
      let (now, later, answered) = serves in
      let port = (from_env-IsValid P env cfg made).port in
      let status : h.get (health_address env) ≡ some 200 =
        ap h.get (health_address_lem env cfg port)
        ∙ (answered ∙ ap (λ (n : ℕ). some n) (ready now later)) in
      rw status refl
