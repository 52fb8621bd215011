-- ===== src/Auth/ShownTests.antt =====
-- A user who signs in, and is shown their own name and email a minute and an hour later.
use autospace_parking.Prelude.{String, ◌≡◌, refl, none, some}
use autospace_parking.Js.Exec.{resolved}
use autospace_parking.Js.Json.{str, Object, end, field, get, assign, spread, without}
use autospace_parking.Auth.SignIn.{Login, authorize, accept, user_of, Accepts}
use autospace_parking.Auth.Session.{session_user}
use autospace_parking.Auth.Token.{whole, claims_at, encode, decode}
use autospace_parking.Auth.Token.Refresh.{signed_in, refreshed}
use autospace_parking.Auth.Shown.{IsTokenOf, Reads, Shows, session_user-authorize}
use autospace_parking.Auth.Tests.{plain, plain-IsLawful, api, nobody, credentials, ann_user}

abbrev token : Object
token =
    field "name" (str "Ann") (field "email" (str "ann@example.org") (field "sub" (str "u1") end))

absent : (text : String) → none ≡ some text → ⊥
absent text h = cc h

the_name : (text : String) → some "Ann" ≡ some text → str "Ann" ≡ str text
the_name text h = cc h

the_email : (text : String) → some "ann@example.org" ≡ some text → str "ann@example.org" ≡ str text
the_email text h = cc h

token-IsTokenOf : IsTokenOf ann_user token
unfolding get
token-IsTokenOf = record {
  distinct = (refl, (refl, (refl, tt)));
  no_uid = refl;
  sub = refl;
  name = the_name;
  email = the_email;
  picture = λ text h. absurd (absent text h);
}

abbrev first : plain.Code
first = (assign "iat" (whole 5) (claims_at 5000 token), "key")

abbrev second : plain.Code
second = (assign "iat" (whole 60) (claims_at 60000 first.0), "key")

first_encoded : encode plain 5000 (some token) "key" ≡ resolved first
unfolding encode
first_encoded = refl

first_decoded : decode plain 60000 (some first) "key" ≡ resolved (some first.0)
unfolding decode claims_at assign spread without get
first_decoded = refl

second_encoded : encode plain 60000 (some first.0) "key" ≡ resolved second
unfolding encode
second_encoded = refl

second_decoded : decode plain 3600000 (some second) "key" ≡ resolved (some second.0)
unfolding decode claims_at assign spread without get
second_decoded = refl

authorized : (authorize api (some credentials) nobody).0 ≡ resolved (some ann_user)
unfolding authorize accept user_of
authorized = refl

hour_later : Reads plain plain-IsLawful "key" 5000 token 3600000 second.0
hour_later = record {
  now = 60000;
  written = first.0;
  code = second;
  session = refreshed first signed_in first_encoded first_decoded;
  encoded = second_encoded;
  decoded = second_decoded;
}

session_user-authorize_example :
    (l : Login) × Accepts api (api.login credentials nobody).0 l
    × Shows (session_user second.0) credentials l
session_user-authorize_example =
    session_user-authorize api plain plain-IsLawful "key" credentials nobody ann_user token second.0
      5000 3600000 authorized token-IsTokenOf hour_later
