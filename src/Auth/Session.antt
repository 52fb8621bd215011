-- ===== src/Auth/Session.antt =====
-- authOptions.ts: the callback `session`, and the cookie of the session's token.
use autospace_parking.Prelude.{
  String, ◌<>◌, ◌≡◌, Bool, true, false, Option, none, some, if◌then◌else◌, Bool-cases, inl, inr,
}
use autospace_parking.Js.Text.{starts_with, truthy, or_default}
use autospace_parking.Js.Json.{Json, Object, get, as_string}

-- `NEXTAUTH_URL` and `AUTH_COOKIE_DOMAIN`.
pub record Environment : Type 0 where
  pub nextauth_url : Option String
  pub cookie_domain : Option String

url_is_secure : Option String → Bool
unfolding starts_with
url_is_secure none = false
url_is_secure (some url) = starts_with "https://" url

unfoldable pub secure_cookies : Environment → Bool
unfolding url_is_secure
secure_cookies env = url_is_secure env.nextauth_url

nonempty : Option String → Option String
nonempty none = none
nonempty (some domain) = if truthy domain then some domain else none

pub record Cookie : Type 0 where
  pub name : String
  pub http_only : Bool
  pub same_site : String
  pub path : String
  pub secure : Bool
  pub domain : Option String

unfoldable pub session_token : Environment → Cookie
unfolding nonempty
session_token env = record {
  name = (if secure_cookies env then "__Secure-" else "") <> "next-auth.session-token";
  http_only = true;
  same_site = "lax";
  path = "/";
  secure = secure_cookies env;
  domain = nonempty env.cookie_domain;
}

pub record SessionUser : Type 0 where
  pub image : Json
  pub uid : String
  pub email : Json
  pub name : Json

-- The user that `session` sets. A `uid` that is no text, which no token of ours has, reads as none.
unfoldable pub session_user : Object → SessionUser
session_user token = record {
  image = get "picture" token;
  uid = or_default (as_string (get "uid" token)) "";
  email = get "email" token;
  name = get "name" token;
}

-- The cookie's name has the prefix __Secure- exactly if the cookie is marked as secure, and it is
-- so marked exactly if the site's address begins with https://.
session_token_lem :
    (env : Environment)
    → (starts_with "__Secure-" (session_token env).name ≡ (session_token env).secure)
      × ((url : String)
          → env.nextauth_url ≡ some url
          → (session_token env).secure ≡ starts_with "https://" url)
unfolding session_token secure_cookies url_is_secure starts_with
session_token_lem env =
    (elim (Bool-cases (secure_cookies env)) [ inl e ↦ rw e | inr e ↦ rw e ], λ url given. rw given)
