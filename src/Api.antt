-- ===== src/Api.antt =====
-- apps/api/src: the controller of the API with its service (app.controller.ts, app.service.ts), the
-- options of its tokens (app.module.ts) and the start of the server (main.ts).
pub mod Modules
pub mod Wiring
mod Tests
use autospace_parking.Prelude.{ℕ, ◌*◌, String, Bool, true, Option}
use autospace_parking.Js.Text.{or_default}
use autospace_parking.Js.Number.{Number, parse_int}
use autospace_parking.Js.Date.{to_iso_string}

unfoldable pub get_hello : String
get_hello = "Hello World!"

pub record Health : Type 0 where
  pub status : String
  pub service : String
  pub timestamp : String

-- `getHealth` at a time in milliseconds.
unfoldable pub get_health : ℕ → Health
get_health now = record { status = "ok"; service = "api"; timestamp = to_iso_string now }

-- `JwtModule.register`
pub record JwtOptions : Type 0 where
  pub global : Bool
  pub secret : Option String
  pub expires_in : ℕ

unfoldable pub jwt_options : Option String → JwtOptions
jwt_options jwt_secret = record { global = true; secret = jwt_secret; expires_in = 24 * 60 * 60 }

-- What `bootstrap` asks of the framework: a pipe for all requests, and where to listen.
pub record Server : Type 0 where
  pub transform : Bool
  pub whitelist : Bool
  pub port : Number
  pub host : String

-- `PORT`
unfoldable pub bootstrap : Option String → Server
bootstrap port = record {
  transform = true;
  whitelist = true;
  port = parse_int (or_default port "4000");
  host = "0.0.0.0";
}
