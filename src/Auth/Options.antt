-- ===== src/Auth/Options.antt =====
-- authOptions.ts: the providers, the settings of sessions and tokens, and the pages.
use autospace_parking.Prelude.{ℕ, String, Bool, true, Option, List, [], ◌∷◌}
use autospace_parking.Auth.Token.{max_age}
use autospace_parking.Auth.Session as Session

-- `GoogleProvider`
pub record GoogleOptions : Type 0 where
  pub client_id : Option String
  pub client_secret : Option String
  pub scope : String

-- `GOOGLE_CLIENT_ID` and `GOOGLE_CLIENT_SECRET`
unfoldable pub google_provider : Option String → Option String → GoogleOptions
google_provider client_id client_secret = record {
  client_id = client_id;
  client_secret = client_secret;
  scope = "openid profile";
}

pub record CredentialField : Type 0 where
  pub name : String
  pub label : String
  pub type : String

unfoldable pub credential_fields : List CredentialField
credential_fields =
    record { name = "email"; label = "Email"; type = "email" }
    ∷ record { name = "password"; label = "Password"; type = "password" }
    ∷ []

-- The options but for the functions, which the other modules model.
pub record AuthOptions : Type 0 where
  pub google : GoogleOptions
  pub credentials_name : String
  pub credentials : List CredentialField
  pub debug : Bool
  pub session_strategy : String
  pub session_max_age : ℕ
  pub jwt_max_age : ℕ
  pub session_token : Session.Cookie
  pub sign_in_page : String

unfoldable pub auth_options : Option String → Option String → Session.Environment → AuthOptions
auth_options client_id client_secret env = record {
  google = google_provider client_id client_secret;
  credentials_name = "Credentials";
  credentials = credential_fields;
  debug = true;
  session_strategy = "jwt";
  session_max_age = max_age;
  jwt_max_age = max_age;
  session_token = Session.session_token env;
  sign_in_page = "/signIn";
}
