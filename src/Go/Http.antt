-- ===== src/Go/Http.antt =====
-- What the Go services use of net/http: requests whose path is clean, responses, and a `ServeMux` with
-- patterns of a method and a path. A body is given without the end of its line.
use autospace_parking.Prelude.{
  ℕ, String, Bool, false, ◌||◌, ◌&&◌, List, [], ◌∷◌, ◌==◌, if◌then◌else◌,
}
use autospace_parking.Js.Json.{Object}

pub record Request : Type 0 where
  pub method : String
  pub path : String

pub data Body : Type 0 where
  json : Object → Body
  text : String → Body

pub record Response : Type 0 where
  pub status : ℕ
  pub content_type : String
  pub body : Body

-- A handler, at a time.
abbrev pub Handler : Type 0
Handler = ℕ → Request → Response

-- `mux.HandleFunc(method + " " + path, handler)`
pub record Route : Type 0 where
  pub method : String
  pub path : String
  pub handler : Handler

abbrev pub plain : ℕ → String → Response
plain status message = record {
  status = status;
  content_type = "text/plain; charset=utf-8";
  body = text message;
}

-- A pattern with GET is also one for HEAD.
matches_method : String → String → Bool
matches_method pattern method = pattern == method || (pattern == "GET" && method == "HEAD")

-- The handlers of a path, from the route on; whether the path was found with other methods.
unfoldable pub serve : List Route → Bool → Handler
unfolding matches_method
serve [] seen now request =
    if seen then plain 405 "Method Not Allowed" else plain 404 "404 page not found"
serve (route ∷ routes) seen now request =
    let rest = serve routes (seen || route.path == request.path) now request in
    if route.path == request.path && matches_method route.method request.method
    then route.handler now request
    else rest

unfoldable pub serve_mux : List Route → Handler
serve_mux routes = serve routes false
