-- ===== src/Auth/Token.antt =====
-- authOptions.ts, `jwt`: the token of a session, signed for a day.
pub mod Refresh
use autospace_parking.Prelude.{
  ℕ, ◌+◌, ◌*◌, ◌/◌, ◌≤◌, ◌<◌, String, Bool, ◌≡◌, ◌≢◌, true, false, Option, none, some,
  if◌then◌else◌,
}
use autospace_parking.Js.Exec.{Outcome, Thrown, error, resolved, rejected}
use autospace_parking.Js.Text.{truthy, truthy?}
use autospace_parking.Js.Number.{integer}
use autospace_parking.Js.Json.{
  Json, undefined, str, num, Object, end, field, get, assign, spread, without,
}
use autospace_parking.Js.Json.Spread.{HasDistinctKeys}

-- `jwt.sign` and `jwt.verify` of jsonwebtoken with HS256, at a time in milliseconds.
-- How a token is written as a text is left open.
pub record Jwt : Type 1 where
  pub Secret : Type 0
  pub Code : Type 0
  pub is_nonempty : Code → Bool
  pub sign : Object → Secret → ℕ → Outcome Code
  pub verify : Code → Secret → ℕ → Outcome Object

abbrev pub whole : ℕ → Json
whole n = num (integer false n)

-- A token that was signed, if it has no `nbf`, is verified with its secret until the second of its
-- `exp`; what it is verified to has the texts among the claims; `sign` sets `iat` itself.
pub record IsLawful (J : Jwt) : Type 0 where
  pub sign_nonempty :
      (claims : Object) (secret : J.Secret) (at : ℕ) (token : J.Code)
      → J.sign claims secret at ≡ resolved token
      → J.is_nonempty token ≡ true
  pub verify-sign :
      (claims : Object) (secret : J.Secret) (at later expires : ℕ) (token : J.Code)
      → HasDistinctKeys claims
      → J.sign claims secret at ≡ resolved token
      → get "exp" claims ≡ whole expires
      → get "nbf" claims ≡ undefined
      → later / 1000 < expires
      → (o : Object) × (J.verify token secret later ≡ resolved o)
  pub get-verify :
      (claims : Object) (secret : J.Secret) (at later : ℕ) (token : J.Code) (o : Object)
      → HasDistinctKeys claims
      → J.sign claims secret at ≡ resolved token
      → J.verify token secret later ≡ resolved o
      → HasDistinctKeys o × ((k s : String) → k ≢ "iat" → get k claims ≡ str s → get k o ≡ str s)
  pub verify_expired :
      (claims : Object) (secret : J.Secret) (at later expires : ℕ) (token : J.Code)
      → J.sign claims secret at ≡ resolved token
      → get "exp" claims ≡ whole expires
      → expires ≤ later / 1000
      → (t : Thrown) × (J.verify token secret later ≡ rejected t)

abbrev pub max_age : ℕ
max_age = 1 * 24 * 60 * 60

abbrev pub token_is_undefined : Thrown
token_is_undefined = error "Error" "Token is undefined"

-- `{ uid: sub, ...tokenProps, exp: expirationTimestamp }`
unfoldable pub claims_at : ℕ → Object → Object
claims_at now token =
    let now_in_seconds = now / 1000 in
    let expiration_timestamp = now_in_seconds + max_age in
    assign "exp" (whole expiration_timestamp)
      (spread (field "uid" (get "sub" token) end) (without "sub" token))

unfoldable pub encode : (J : Jwt) → ℕ → Option Object → J.Secret → Outcome J.Code
encode J now none secret = rejected token_is_undefined
encode J now (some token) secret = J.sign (claims_at now token) secret now

or_null : Outcome Object → Outcome (Option Object)
or_null (resolved o) = resolved (some o)
or_null (rejected t) = resolved none

verified : (J : Jwt) → ℕ → J.Code → J.Secret → Outcome (Option Object)
unfolding or_null
verified J now token secret =
    if J.is_nonempty token then or_null (J.verify token secret now) else rejected token_is_undefined

unfoldable pub decode : (J : Jwt) → ℕ → Option J.Code → J.Secret → Outcome (Option Object)
unfolding verified
decode J now none secret = rejected token_is_undefined
decode J now (some token) secret = verified J now token secret
