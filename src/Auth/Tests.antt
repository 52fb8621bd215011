-- ===== src/Auth/Tests.antt =====
-- Sign-ins, tokens of a session and their refreshing, on concrete users.
use autospace_parking.Auth.SignIn.{
  Credentials, Login, LoginResult, User, RegisterWithProviderInput, authorize, Accepts,
  register_unless, register_input, sign_in, Refused, sign_in_google,
}
use autospace_parking.Auth.SignIn as SignIn
use autospace_parking.Prelude.{
  sym, ap, ℕ, ◌/◌, String, ◌≡◌, refl, ◌∙◌, ◌⊎◌, inl, inr, Bool, true, false, none, some, arith,
  ◌==◌, eq_iff, Bool-cases, ltb, if◌then◌else◌,
}
use autospace_parking.Js.Exec.{Thrown, error, resolved, rejected}
use autospace_parking.Js.Number.{integer}
use autospace_parking.Js.Json.{
  undefined, Json, num, str, Object, end, field, get, assign, spread, without, get-assign,
}
use autospace_parking.Js.Json.Spread.{assign-HasDistinctKeys}
use autospace_parking.Auth.Token.{Jwt, IsLawful, whole, claims_at, encode, decode}
use autospace_parking.Auth.Token.Refresh.{Decoded, decode-encode, Identifies}

abbrev pub unexpired : Json → ℕ → Bool
unexpired (num (integer false expires)) now = ltb (now / 1000) expires
unexpired _ now = true

-- A code is the claims beside the secret that they are signed with.
abbrev pub plain : Jwt
plain = record {
  Secret = String;
  Code = Object × String;
  is_nonempty = λ token. true;
  sign = λ claims secret now. resolved (assign "iat" (whole (now / 1000)) claims, secret);
  verify = λ token secret now.
      if token.1 == secret
      then if unexpired (get "exp" token.0) now
        then resolved token.0
        else rejected (error "TokenExpiredError" "jwt expired")
      else rejected (error "JsonWebTokenError" "invalid signature");
}

verify_plain :
    (claims : Object) (secret : String) (at later expires : ℕ)
    → get "exp" claims ≡ whole expires
    → plain.verify (assign "iat" (whole (at / 1000)) claims, secret) secret later ≡ (
        if ltb (later / 1000) expires
        then resolved (assign "iat" (whole (at / 1000)) claims)
        else rejected (error "TokenExpiredError" "jwt expired"))
verify_plain claims secret at later expires e = ground (
  arith,
  eq_iff secret secret,
  eq_iff "iat" "exp",
  get-assign "iat" "exp" (whole (at / 1000)) claims,
)

value_of : {a b : Object × String} → resolved a ≡ resolved b → a ≡ b
value_of h = ground (arith, h)

verified_plain :
    (token : Object × String) (o : Object) (secret : String) (later : ℕ)
    → plain.verify token secret later ≡ resolved o
    → o ≡ token.0
verified_plain token o secret later read = ground (arith, read)

pub plain-IsLawful : IsLawful plain
plain-IsLawful = record {
  sign_nonempty = λ claims secret at token e. refl;
  verify-sign = λ claims secret at later expires token distinct signed e unbounded early. (
    assign "iat" (whole (at / 1000)) claims,
    rw (← value_of signed) (verify_plain claims secret at later expires e ∙ ground arith),
  );
  get-verify = λ claims secret at later token o distinct signed read.
      let it : o ≡ assign "iat" (whole (at / 1000)) claims =
        verified_plain token o secret later read
        ∙ ap (λ (t : Object × String). t.0) (sym (value_of signed)) in
      rw it (
        assign-HasDistinctKeys _ _ _ distinct,
        λ k s other held.
            ground (arith, eq_iff "iat" k, get-assign "iat" k (whole (at / 1000)) claims),
      );
  verify_expired = λ claims secret at later expires token signed e late. (
    error "TokenExpiredError" "jwt expired",
    rw (← value_of signed) (verify_plain claims secret at later expires e ∙ ground arith),
  );
}

-- At sign-in the token has the user's id as its `sub`.
abbrev ann : Object
ann = field "name" (str "Ann") (field "sub" (str "u1") end)

abbrev code : plain.Code
code = (assign "iat" (whole 5) (claims_at 5000 ann), "key")

ann_encoded : encode plain 5000 (some ann) "key" ≡ resolved code
unfolding encode
ann_encoded = refl

ann_decoded : decode plain 60000 (some code) "key" ≡ resolved (some code.0)
unfolding decode claims_at assign spread without get
ann_decoded = refl

ann_claims :
    claims_at 5000 ann
    ≡ field "uid" (str "u1") (field "name" (str "Ann") (field "exp" (whole 86405) end))
unfolding claims_at assign spread without get
ann_claims = refl

ann-Identifies : Identifies ann "u1"
unfolding get
ann-Identifies = inr (refl, refl)

ann_unbounded : get "nbf" ann ≡ undefined
unfolding get
ann_unbounded = refl

decode-encode_example :
    Decoded plain plain-IsLawful "key" 5000 ann 60000 (decode plain 60000 (some code) "key")
decode-encode_example =
    decode-encode plain plain-IsLawful "key" 5000 60000 ann code (refl, (refl, tt)) ann_unbounded
      ann_encoded

-- The world is the test for who is registered; one login is known.
abbrev pub api : SignIn.Services
api = record {
  World = String → Bool;
  login = λ c w. (
    if c.password == "secret"
        then resolved (record {
          answer = some (record { token = "t"; uid = "u1"; image = none; name = some "Ann" });
          has_error = false;
        })
        else rejected (error "Error" "unauthorised"),
    w,
  );
  get_auth_provider = λ id w. (resolved (if w id then some id else none), w);
  register_with_provider =
      λ input w. (resolved false, λ id. if id == input.uid then true else w id);
  is_registered = λ w id. w id;
}

get_registered :
    (id uid : String) (w : String → Bool)
    → (api.get_auth_provider id w).0 ≡ resolved (some uid)
    → w id ≡ true
get_registered id uid w h = elim (Bool-cases (w id)) [
  | inl e ↦ e
  | inr e ↦ absurd (ground (arith, e, h))
]

api-IsLawful : SignIn.IsLawful api
api-IsLawful = record {
  register-is_registered = λ input w h. ground (arith, eq_iff input.uid input.uid);
  get-is_registered = get_registered;
}

abbrev pub nobody : String → Bool
nobody id = false

abbrev pub credentials : Credentials
credentials = record { email = "ann@example.org"; password = "secret" }

abbrev pub ann_user : User
ann_user = record { id = "u1"; name = some "Ann"; image = none; email = some "ann@example.org" }

authorize_run : authorize api (some credentials) nobody ≡ (resolved (some ann_user), nobody)
unfolding authorize SignIn.accept SignIn.user_of
authorize_run = refl

sign_in_google_example :
    let o = sign_in api ann_user (some "google") nobody in
    ((t : Thrown) × (o.0 ≡ rejected t))
    ⊎ ((o.0 ≡ resolved true) × (o.1 "u1" ≡ true ⊎ Refused api api-IsLawful ann_user nobody))
sign_in_google_example = sign_in_google api api-IsLawful ann_user nobody

sign_in_run : (sign_in api ann_user (some "google") nobody).1 "u1" ≡ true
unfolding sign_in register_unless register_input
sign_in_run = refl
