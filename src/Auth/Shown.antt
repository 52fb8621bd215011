-- ===== src/Auth/Shown.antt =====
-- From the credentials to the user whom a session shows: `authorize`, the token that NextAuth makes of
-- its user, the encoding and decoding of that token, and the callback `session`.
use autospace_parking.Prelude.{
  ℕ, String, ◌≡◌, refl, ap, ◌∙◌, ◌||◌, ◌==◌, inl, inr, false, some, arith,
}
use autospace_parking.Js.Exec.{resolved}
use autospace_parking.Js.Json.{str, Object, get}
use autospace_parking.Js.Json.Spread.{has, HasDistinctKeys}
use autospace_parking.Auth.SignIn.{
  Credentials, Login, User, Services, authorize, Accepts, authorize_cases,
}
use autospace_parking.Auth.Session.{SessionUser, session_user}
use autospace_parking.Auth.Token.{Jwt, IsLawful, encode, decode}
use autospace_parking.Auth.Token.Refresh.{
  Identifies, Session, refreshed, Session-Identifies, refreshed_lem, get-Session,
}

-- The token that NextAuth gives to `encode` at sign-in: the user's id as `sub`, and their name, email
-- and picture, where they have one.
pub record IsTokenOf (user : User) (token : Object) : Type 0 where
  pub distinct : HasDistinctKeys token
  pub no_uid : has "uid" token ≡ false
  pub sub : get "sub" token ≡ str user.id
  pub name : (text : String) → user.name ≡ some text → get "name" token ≡ str text
  pub email : (text : String) → user.email ≡ some text → get "email" token ≡ str text
  pub picture : (text : String) → user.image ≡ some text → get "picture" token ≡ str text

-- The session shows the user whom the login answered with.
pub record Shows (shown : SessionUser) (c : Credentials) (l : Login) : Type 0 where
  pub uid : shown.uid ≡ l.uid
  pub email : shown.email ≡ str c.email
  pub name : (text : String) → l.name ≡ some text → shown.name ≡ str text
  pub image : (text : String) → l.image ≡ some text → shown.image ≡ str text

module _ (J : Jwt) (L : IsLawful J) (secret : J.Secret) where
  -- What the callback `session` is given: the code of some token of the session, decoded.
  pub record Reads (start : ℕ) (token : Object) (later : ℕ) (o : Object) : Type 0 where
    pub now : ℕ
    pub written : Object
    pub code : J.Code
    pub session : Session J L secret start token now written
    pub encoded : encode J now (some written) secret ≡ resolved code
    pub decoded : decode J later (some code) secret ≡ resolved (some o)

  names : {user : User} {token : Object} → IsTokenOf user token → Identifies token user.id
  names t = inr (t.no_uid, t.sub)

  uid-Reads :
      (start later : ℕ) (token o : Object) (user : User)
      → IsTokenOf user token
      → Reads start token later o
      → get "uid" o ≡ str user.id
  uid-Reads start later token o user t r =
      let (distinct, who) =
        Session-Identifies J L secret start token user.id t.distinct (names t) r.session in
      let (_, uid, _) =
        refreshed_lem J L secret r.now later r.written o r.code user.id distinct r.encoded r.decoded
          who in
      uid

  get-Reads :
      (start later : ℕ) (token o : Object) (user : User) (k text : String)
      → IsTokenOf user token
      → Reads start token later o
      → (k == "iat" || k == "exp" || k == "sub") ≡ false
      → get k token ≡ str text
      → get k o ≡ str text
  get-Reads start later token o user k text t r other held =
      get-Session J L secret start token user.id k text t.distinct (names t) other held
        (refreshed r.code r.session r.encoded r.decoded)

module _ (S : Services) (J : Jwt) (L : IsLawful J) (secret : J.Secret) where
  -- If `authorize` gives a user for some credentials, the token at sign-in is that of the user,
  -- with no uid yet and no key twice, and the session is read at any later time, after any number
  -- of refreshes: the login accepted the credentials, and the session shows the uid that it
  -- answered with, the email of the credentials, and its name and its image where it has them.
  pub session_user-authorize :
      (c : Credentials) (w : S.World) (user : User) (token o : Object) (start later : ℕ)
      → (authorize S (some c) w).0 ≡ resolved (some user)
      → IsTokenOf user token
      → Reads J L secret start token later o
      → (l : Login) × Accepts S (S.login c w).0 l × Shows (session_user o) c l
  unfolding session_user
  session_user-authorize c w user token o start later given t r = elim (authorize_cases S c w) [
    | inr (_, refused) ↦ cc (given, refused)
    | inl (l, accepted, gave) ↦
        let answered : User = record {
          id = l.uid;
          name = l.name;
          image = l.image;
          email = some c.email;
        } in
        let is_user : user ≡ answered = ground (arith, given, gave) in
        let kept = get-Reads J L secret start later token o user in
        (
          l,
          accepted,
          record {
            uid = ground (arith, uid-Reads J L secret start later token o user t r, is_user);
            email =
                kept "email" c.email t r refl
                  (t.email c.email (ap (λ (u : User). u.email) is_user));
            name = λ text named.
                kept "name" text t r refl (t.name text (ap (λ (u : User). u.name) is_user ∙ named));
            image = λ text pictured.
                kept "picture" text t r refl
                  (t.picture text (ap (λ (u : User). u.image) is_user ∙ pictured));
          },
        )
  ]
