-- ===== src/SearchService/Handler.antt =====
-- internal/httpapi/handler.go: the routes of the search service, and its log of requests.
use autospace_parking.Prelude.{ℕ, ◌-◌, String, List, [], ◌∷◌}
use autospace_parking.Js.Json.{str, Object, end, field}
use autospace_parking.Go.Http.{Request, Response, json, Handler, Route, serve_mux}
use autospace_parking.SearchService.Config.{Platform}

unfoldable pub write_json : ℕ → Object → Response
write_json status body = record {
  status = status;
  content_type = "application/json";
  body = json body;
}

unfoldable pub health : Platform → String → Handler
unfolding write_json
health P status now request = write_json 200 (
    field "status" (str status)
      (field "service" (str "search-service") (field "timestamp" (str (P.write_time now)) end)))

unfoldable pub not_implemented : Handler
unfolding write_json
not_implemented now request = write_json 501 (
    field "code" (str "search_not_implemented")
      (field "message" (str "The search read model is not available yet.") end))

unfoldable pub routes : Platform → List Route
routes P =
    record { method = "GET"; path = "/health/live"; handler = health P "live" }
    ∷ record { method = "GET"; path = "/health/ready"; handler = health P "ready" }
    ∷ record { method = "GET"; path = "/v1/search"; handler = not_implemented }
    ∷ []

-- What is logged of a request.
pub record Line : Type 0 where
  pub method : String
  pub path : String
  pub duration_ms : ℕ

-- `requestLogger`, on a request that the handler answers from one time to another.
unfoldable pub request_logger : Handler → ℕ → ℕ → Request → Response × Line
request_logger next started_at ended_at request = (
  next started_at request,
  record { method = request.method; path = request.path; duration_ms = ended_at - started_at },
)

unfoldable pub new_handler : Platform → ℕ → ℕ → Request → Response × Line
unfolding routes request_logger
new_handler P = request_logger (serve_mux (routes P))
