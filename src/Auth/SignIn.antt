-- ===== src/Auth/SignIn.antt =====
-- authOptions.ts: `authorize` of the credentials provider, and the callback `signIn`.
use autospace_parking.Prelude.{
  String, ◌≡◌, sym, subst, ◌⊎◌, inl, inr, Bool, true, false, not, ◌||◌, ◌==◌, Option, none, some,
  arith, if◌then◌else◌, Bool-cases, Option-cases,
}
use autospace_parking.Js.Exec.{
  Exec, Outcome, Thrown, error, resolved, rejected, pure, throw, catch, ◌>>=◌, ◌>>◌,
}
use autospace_parking.Js.Exec.Keeps.{Outcome-cases, >>=-resolved}
use autospace_parking.Js.Text.{truthy, truthy?, or_default}

pub record Credentials : Type 0 where
  pub email : String
  pub password : String

-- What the login mutation answers: `data` with its token and user, and whether there is an error.
pub record Login : Type 0 where
  pub token : String
  pub uid : String
  pub image : Option String
  pub name : Option String

pub record LoginResult : Type 0 where
  pub answer : Option Login
  pub has_error : Bool

-- A user as the providers give one.
pub record User : Type 0 where
  pub id : String
  pub name : Option String
  pub image : Option String
  pub email : Option String

pub record RegisterWithProviderInput : Type 0 where
  pub uid : String
  pub image : Option String
  pub name : String

-- The three GraphQL operations of the API, and a view of what is registered. Of a register request
-- the answer is whether it has an error: a server's errors come in the answer, and only a failed
-- transport throws.
pub record Services : Type 1 where
  pub World : Type 0
  pub login : Credentials → Exec World LoginResult
  pub get_auth_provider : String → Exec World (Option String)
  pub register_with_provider : RegisterWithProviderInput → Exec World Bool
  pub is_registered : World → String → Bool

-- A register request that is answered without an error registers the user; whoever is found is
-- registered.
pub record IsLawful (S : Services) : Type 0 where
  pub register-is_registered :
      (input : RegisterWithProviderInput) (w : S.World)
      → (S.register_with_provider input w).0 ≡ resolved false
      → S.is_registered (S.register_with_provider input w).1 input.uid ≡ true
  pub get-is_registered :
      (id uid : String) (w : S.World)
      → (S.get_auth_provider id w).0 ≡ resolved (some uid)
      → S.is_registered (S.get_auth_provider id w).1 id ≡ true

abbrev pub credentials_required : Thrown
credentials_required = error "Error" "Email and password are required"

abbrev pub authentication_failed : Thrown
authentication_failed = error "Error" "Authentication failed: Invalid credentials or user not found"

unfoldable pub user_of : String → Login → User
user_of email l = record { id = l.uid; name = l.name; image = l.image; email = some email }

module _ {S : Type 0} where
  -- The answer to the login, once it is there.
  unfoldable pub accept : String → LoginResult → Exec S (Option User)
  unfolding user_of
  accept email r = elim r.answer [
    | none ↦ throw authentication_failed
    | some l ↦
        if not (truthy l.token) || r.has_error
        then throw authentication_failed
        else pure (some (user_of email l))
  ]

-- `name || ''`, which for a text is the text itself.
unfoldable pub register_input : User → RegisterWithProviderInput
register_input user = record { uid = user.id; image = user.image; name = or_default user.name "" }

module _ (S : Services) where
  open S use {World}

  unfoldable pub authorize : Option Credentials → Exec World (Option User)
  authorize none = throw credentials_required
  authorize (some c) = catch (do r ← S.login c; accept c.email r) (λ thrown. pure none)

  -- `signIn`. The account is the name of its provider, if there is one.
  unfoldable pub register_unless : User → Option String → Exec World Bool
  register_unless user existing =
      if truthy? existing
      then pure true
      else do S.register_with_provider (register_input user); pure true

  is_google : Option String → Bool
  is_google none = false
  is_google (some provider) = provider == "google"

  unfoldable pub sign_in : User → Option String → Exec World Bool
  unfolding is_google
  sign_in user account =
      if is_google account
      then (do existing ← S.get_auth_provider user.id; register_unless user existing)
      else pure true

  -- A login is accepted if it answers with a token and no error.
  abbrev pub Accepts : Outcome LoginResult → Login → Type 0
  Accepts o l =
      (r : LoginResult) × (o ≡ resolved r)
      × (r.answer ≡ some l)
      × (truthy l.token ≡ true)
      × (r.has_error ≡ false)

  accept_accepted :
      (email : String) (r : LoginResult) (l : Login) (w : World)
      → r.answer ≡ some l
      → truthy l.token ≡ true
      → r.has_error ≡ false
      → accept email r w ≡ (resolved (some (user_of email l)), w)
  unfolding accept
  accept_accepted email r l w given token fine = rw (given, token, fine)

  accept_cases :
      (email : String) (r : LoginResult) (w : World)
      → ((l : Login) × (r.answer ≡ some l) × (truthy l.token ≡ true) × (r.has_error ≡ false))
        ⊎ (((l : Login) → r.answer ≡ some l → truthy l.token ≡ true → r.has_error ≡ true)
            × (accept email r w ≡ (rejected authentication_failed, w)))
  unfolding accept
  accept_cases email r w = elim (Option-cases r.answer) [
    | inl nothing ↦ inr (λ l given _. cc (nothing, given), rw nothing)
    | inr (l, given) ↦ elim (Bool-cases (truthy l.token)) [
      | inr empty ↦
          inr (λ m same token. ground (arith, given, same, empty, token), rw (given, empty))
      | inl token ↦ elim (Bool-cases r.has_error) [
        | inl wrong ↦ inr (λ m _ _. wrong, rw (given, token, wrong))
        | inr fine ↦ inl (l, given, token, fine)
      ]
    ]
  ]

  -- With credentials, authorize never throws: it gives the user whom the login answered with, if
  -- the login answered with a token and no error, and null otherwise.
  pub authorize_cases :
      (c : Credentials) (w : World)
      → ((l : Login) × Accepts (S.login c w).0 l
          × (authorize (some c) w ≡ (
            resolved (
                some (record { id = l.uid; name = l.name; image = l.image; email = some c.email })),
            (S.login c w).1,
          )))
        ⊎ (((l : Login) → ¬ Accepts (S.login c w).0 l)
            × (authorize (some c) w ≡ (resolved none, (S.login c w).1)))
  unfolding authorize user_of
  authorize_cases c w =
      let w1 = (S.login c w).1 in
      elim (Outcome-cases (S.login c w).0) [
        | inr (t, threw) ↦ inr (
          λ l accepted. let (r, answered, given, token, fine) = accepted in cc (threw, answered),
          ground (arith, threw),
        )
        | inl (r, answered) ↦ elim (accept_cases c.email r w1) [
          | inl (l, given, token, fine) ↦ inl (
            l,
            (r, answered, given, token, fine),
            ground (arith, answered, accept_accepted c.email r l w1 given token fine),
          )
          | inr (none_such, refused) ↦ inr (
            λ l accepted.
                let (r2, answered2, given, token, fine) = accepted in
                ground (arith, answered, answered2, none_such l),
            ground (arith, answered, refused),
          )
        ]
      ]

module _ (S : Services) (L : IsLawful S) where
  -- The API was asked to register the user, and answered with an error.
  abbrev pub Refused : User → S.World → Type 0
  Refused user w = (S.register_with_provider (register_input user) w).0 ≡ resolved true

  register_unless_cases :
      (user : User) (existing : Option String) (v : S.World)
      → (truthy? existing ≡ true → S.is_registered v user.id ≡ true)
      → let o = register_unless S user existing v in
        ((t : Thrown) × (o.0 ≡ rejected t))
        ⊎ ((o.0 ≡ resolved true) × (S.is_registered o.1 user.id ≡ true ⊎ Refused user v))
  unfolding register_unless register_input
  register_unless_cases user existing v known = elim (Bool-cases (truthy? existing)) [
    | inl found ↦ inr (rw found, inl (rw found (known found)))
    | inr missing ↦ elim (Outcome-cases (S.register_with_provider (register_input user) v).0) [
      | inr (t, threw) ↦ inl (t, ground (arith, missing, threw))
      | inl (false, done) ↦ inr (
        ground (arith, missing, done),
        inl (ground (arith, missing, done, L.register-is_registered (register_input user) v done)),
      )
      | inl (true, refused) ↦ inr (ground (arith, missing, refused), inr refused)
    ]
  ]

  -- A sign-in with Google throws or is allowed; and when it is allowed, the user is registered, or
  -- the API has answered the registration with an error.
  pub sign_in_google :
      (user : User) (w : S.World)
      → let o = sign_in S user (some "google") w in
        ((t : Thrown) × (o.0 ≡ rejected t))
        ⊎ ((o.0 ≡ resolved true)
            × (S.is_registered o.1 user.id ≡ true ⊎ Refused user (S.get_auth_provider user.id w).1))
  unfolding sign_in
  sign_in_google user w =
      let v = (S.get_auth_provider user.id w).1 in
      elim (Outcome-cases (S.get_auth_provider user.id w).0) [
        | inr (t, threw) ↦ inl (t, ground (arith, threw))
        | inl (existing, found) ↦
            subst
              (λ (o : Outcome Bool × S.World).
                ((t : Thrown) × (o.0 ≡ rejected t))
                ⊎ ((o.0 ≡ resolved true) × (S.is_registered o.1 user.id ≡ true ⊎ Refused user v)))
              (sym (>>=-resolved (S.get_auth_provider user.id) (register_unless S user) w found))
              (register_unless_cases user existing v (found_registered existing found))
      ]
    where
      found_registered :
          (existing : Option String)
          → (S.get_auth_provider user.id w).0 ≡ resolved existing
          → truthy? existing ≡ true
          → S.is_registered (S.get_auth_provider user.id w).1 user.id ≡ true
      found_registered none e h = cc h
      found_registered (some uid) e h = L.get-is_registered user.id uid w e
