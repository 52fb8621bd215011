-- ===== src/AvailabilityService/Main.antt =====
-- cmd/server/main.go: what the process of the availability service does, in order, and its exit code.
-- The logger is left out.
use autospace_parking.Prelude.{
  ℕ, String, ◌<>◌, Bool, true, false, ◌==◌, Option, none, some, List, [], ◌∷◌, ◌++◌, eqb,
  if◌then◌else◌,
}
use autospace_parking.Go.Env.{ℤ, Result, ok, err, Environment}
use autospace_parking.Go.Http.{Handler, Route, json}
use autospace_parking.Js.Json.{str, end, field}
use autospace_parking.AvailabilityService.Config.{Config, from_env}

pub data Action : Type 0 where
  opens_database closes_database : Action
  listens_grpc serves_http serves_grpc : String → Action
  stops_grpc closes_listener shuts_http_down : Action

-- What ends the wait of `main`: a signal, or an error of a server, which may be `ErrServerClosed`.
pub data First : Type 0 where
  signalled : First
  failed : Bool → First

-- What happens to the process: the status that the health check's request is answered with, `none`
-- for an error; whether `sql.Open`, its ping and `net.Listen` succeed; what ends the wait; and
-- whether `Shutdown` ends in time.
pub record Happens : Type 0 where
  pub get : String → Option ℕ
  pub opens : String → Bool
  pub pings : String → Bool
  pub listens : String → Bool
  pub first : First
  pub shut_down : ℤ → Bool

unfoldable pub health_handler : String → Handler
health_handler status now request = record {
  status = 200;
  content_type = "application/json";
  body = json (field "service" (str "availability-service") (field "status" (str status) end));
}

unfoldable pub routes : List Route
routes =
    record { method = "GET"; path = "/health/live"; handler = health_handler "live" }
    ∷ record { method = "GET"; path = "/health/ready"; handler = health_handler "ready" }
    ∷ []

exit_of : Option ℕ → ℕ
exit_of none = 1
exit_of (some status) = if eqb status 200 then 0 else 1

unfoldable pub healthcheck : String → Happens → List Action × ℕ
unfolding exit_of
healthcheck port h = ([], exit_of (h.get ("http://127.0.0.1:" <> (port <> "/health/ready"))))

-- A database that may be open, or an error; an empty address is that of no database.
pub data Database : Type 0 where
  absent : Database
  opened : Database
  refused : List Action → Database

unfoldable pub open_database : String → Happens → Database
open_database url h =
    if url == ""
    then absent
    else if h.opens url
    then if h.pings url then opened else refused (opens_database ∷ closes_database ∷ [])
    else refused []

-- The deferred close.
abbrev deferred : Bool → List Action
deferred true = closes_database ∷ []
deferred false = []

-- From the wait on. `os.Exit` skips what is deferred.
unfoldable pub wait : Bool → Config → Happens → First → List Action × ℕ
wait has_database cfg h signalled =
    let stopping = stops_grpc ∷ closes_listener ∷ shuts_http_down ∷ [] in
    if h.shut_down cfg.shutdown_timeout
    then (stopping ++ deferred has_database, 0)
    else (stopping, 1)
wait has_database cfg h (failed closed) = if closed then (deferred has_database, 0) else ([], 1)

unfoldable pub serve : Bool → Config → Happens → List Action × ℕ
unfolding wait
serve has_database cfg h =
    let grpc_address = ":" <> cfg.grpc_port in
    let (after, exit) = wait has_database cfg h h.first in
    if h.listens grpc_address
    then (
      listens_grpc grpc_address ∷ serves_http (":" <> cfg.port) ∷ serves_grpc grpc_address ∷ after,
      exit,
    )
    else ([], 1)

unfoldable pub with_database : Database → Config → Happens → List Action × ℕ
unfolding serve
with_database (refused actions) cfg h = (actions, 1)
with_database absent cfg h = serve false cfg h
with_database opened cfg h =
    let (actions, exit) = serve true cfg h in (opens_database ∷ actions, exit)

unfoldable pub run : List String → Result Config → Happens → List Action × ℕ
unfolding with_database healthcheck
run arguments (err e) h = ([], 1)
run [] (ok cfg) h = with_database (open_database cfg.database_url h) cfg h
run (argument ∷ more) (ok cfg) h =
    if argument == "healthcheck"
    then healthcheck cfg.port h
    else with_database (open_database cfg.database_url h) cfg h

-- `main`, with the arguments after the program's name.
unfoldable pub main : (String → Option ℤ) → List String → Environment → Happens → List Action × ℕ
unfolding run
main parse_duration arguments env h = run arguments (from_env parse_duration env) h
