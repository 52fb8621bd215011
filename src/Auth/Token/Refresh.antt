-- ===== src/Auth/Token/Refresh.antt =====
-- A token is encoded at sign-in and encoded again whenever the session is read.
use autospace_parking.Prelude.{
  ℕ, ◌+◌, ◌/◌, ◌≤◌, ◌<◌, String, ◌≡◌, ◌≢◌, refl, ◌∙◌, ◌⊎◌, inl, inr, true, false, ◌||◌, ◌==◌,
  Option, none, some, arith, eq_iff, leb, Bool-cases, if◌then◌else◌,
}
use autospace_parking.Js.Exec.{Outcome, resolved}
use autospace_parking.Js.Exec.Keeps.{Outcome-cases}
use autospace_parking.Js.Json.{
  str, undefined, Object, end, field, get, spread, without, get-assign, get-without,
}
use autospace_parking.Js.Json.Spread.{
  has, HasDistinctKeys, get-spread, has-without, without-HasDistinctKeys, assign-HasDistinctKeys,
  spread-HasDistinctKeys,
}
use autospace_parking.Auth.Token.{Jwt, IsLawful, max_age, whole, claims_at, encode, decode}

-- Who a token is of: its `uid`, or its `sub` where it has no `uid` yet, as at sign-in.
abbrev pub Identifies : Object → String → Type 0
Identifies token u =
    (get "uid" token ≡ str u) ⊎ ((has "uid" token ≡ false) × (get "sub" token ≡ str u))

held_has : (k s : String) (o : Object) → get k o ≡ str s → has k o ≡ true
unfolding get
held_has k s end h = cc h
held_has k s (field j v o) h = ground (arith, held_has k s o)

get-claims_at :
    (now : ℕ) (token : Object) (k : String)
    → HasDistinctKeys token
    → k ≢ "exp"
    → k ≢ "sub"
    → get k (claims_at now token)
      ≡ (if has k token then get k token else get k (field "uid" (get "sub" token) end))
unfolding claims_at
get-claims_at now token k h p q =
    let rest = without "sub" token in
    let base : Object = field "uid" (get "sub" token) end in
    ground (
      arith,
      get-assign "exp" k (whole (now / 1000 + max_age)) (spread base rest),
      get-spread k base rest (without-HasDistinctKeys "sub" token h),
      has-without "sub" k token,
      get-without "sub" k token,
      eq_iff "exp" k,
      eq_iff "sub" k,
    )

nbf-claims_at :
    (now : ℕ) (token : Object)
    → HasDistinctKeys token
    → get "nbf" token ≡ undefined
    → get "nbf" (claims_at now token) ≡ undefined
unfolding get
nbf-claims_at now token h unbounded =
    get-claims_at now token "nbf" h (ground (arith, eq_iff "nbf" "exp"))
      (ground (arith, eq_iff "nbf" "sub"))
    ∙ ground (arith, unbounded)

exp-claims_at :
    (now : ℕ) (token : Object) → get "exp" (claims_at now token) ≡ whole (now / 1000 + max_age)
unfolding claims_at
exp-claims_at now token = ground (
  arith,
  get-assign "exp" "exp" (whole (now / 1000 + max_age))
      (spread (field "uid" (get "sub" token) end) (without "sub" token)),
  eq_iff "exp" "exp",
)

uid-claims_at :
    (now : ℕ) (token : Object) (u : String)
    → HasDistinctKeys token
    → Identifies token u
    → get "uid" (claims_at now token) ≡ str u
unfolding get
uid-claims_at now token u h (inl uid) =
    get-claims_at now token "uid" h (ground (arith, eq_iff "uid" "exp"))
      (ground (arith, eq_iff "uid" "sub"))
    ∙ rw (held_has "uid" u token uid) uid
uid-claims_at now token u h (inr (none_yet, sub)) =
    get-claims_at now token "uid" h (ground (arith, eq_iff "uid" "exp"))
      (ground (arith, eq_iff "uid" "sub"))
    ∙ rw none_yet sub

claims_at-HasDistinctKeys :
    (now : ℕ) (token : Object) → HasDistinctKeys token → HasDistinctKeys (claims_at now token)
unfolding claims_at
claims_at-HasDistinctKeys now token h =
    assign-HasDistinctKeys _ _ _ (spread-HasDistinctKeys _ (without "sub" token) (refl, tt))

late_or_early : (a b : ℕ) → (a ≤ b) ⊎ (b < a)
late_or_early a b = elim (Bool-cases (leb a b)) [
  | inl e ↦ inl (ground arith)
  | inr e ↦ inr (ground arith)
]

module _ (J : Jwt) (L : IsLawful J) (secret : J.Secret) where
  -- What a decoded token has of the one that was encoded.
  abbrev pub KeepsTexts : Object → Object → Type 0
  KeepsTexts token o =
      HasDistinctKeys o
      × ((u : String) → Identifies token u → get "uid" o ≡ str u)
      × ((k s : String) → k ≢ "iat" → k ≢ "exp" → k ≢ "sub" → get k token ≡ str s → get k o ≡ str s)

  verified-decode :
      (later : ℕ) (code : J.Code) (o : Object)
      → J.is_nonempty code ≡ true
      → decode J later (some code) secret ≡ resolved (some o)
      → J.verify code secret later ≡ resolved o
  unfolding decode
  verified-decode later code o nonempty read = elim (Outcome-cases (J.verify code secret later)) [
    | inl (x, verified) ↦ ground (arith, nonempty, read, verified)
    | inr (t, threw) ↦ absurd (ground (arith, nonempty, read, threw))
  ]

  decoded-KeepsTexts :
      (now later : ℕ) (token o : Object) (code : J.Code)
      → HasDistinctKeys token
      → encode J now (some token) secret ≡ resolved code
      → decode J later (some code) secret ≡ resolved (some o)
      → KeepsTexts token o
  unfolding encode
  decoded-KeepsTexts now later token o code h signed read =
      let claims = claims_at now token in
      let nonempty = L.sign_nonempty claims secret now code signed in
      let (distinct, texts) =
        L.get-verify claims secret now later code o (claims_at-HasDistinctKeys now token h) signed
          (verified-decode later code o nonempty read) in
      (
        distinct,
        λ u who.
            texts "uid" u (ground (arith, eq_iff "uid" "iat")) (uid-claims_at now token u h who),
        λ k s not_iat not_exp not_sub held.
            texts k s not_iat
              (get-claims_at now token k h not_exp not_sub ∙ rw (held_has k s token held) held),
      )

  -- Before the second in which the token expires it is decoded; from then on it is not.
  abbrev pub Decoded : ℕ → Object → ℕ → Outcome (Option Object) → Type 0
  Decoded now token later r =
      ((later / 1000 < now / 1000 + 86400)
        × ((o : Object) × (r ≡ resolved (some o)) × KeepsTexts token o))
      ⊎ ((now / 1000 + 86400 ≤ later / 1000) × (r ≡ resolved none))

  -- A token with no key twice and no nbf that was encoded is decoded, as long as less than a day
  -- has passed since, in whole seconds, to one whose uid is the user that it named and that holds
  -- the same texts but iat, exp and sub; and to null from the end of the day on.
  pub decode-encode :
      (now later : ℕ) (token : Object) (code : J.Code)
      → HasDistinctKeys token
      → get "nbf" token ≡ undefined
      → encode J now (some token) secret ≡ resolved code
      → Decoded now token later (decode J later (some code) secret)
  unfolding encode decode
  decode-encode now later token code h unbounded signed =
      let claims = claims_at now token in
      let expires = now / 1000 + max_age in
      let nonempty = L.sign_nonempty claims secret now code signed in
      let at = exp-claims_at now token in
      elim (late_or_early expires (later / 1000)) [
        | inl late ↦
            let (t, threw) = L.verify_expired claims secret now later expires code signed at late in
            inr (late, rw (nonempty, threw))
        | inr early ↦
            let (o, read) =
              L.verify-sign claims secret now later expires code
                (claims_at-HasDistinctKeys now token h) signed at
                (nbf-claims_at now token h unbounded) early in
            let decoded : decode J later (some code) secret ≡ resolved (some o) =
              rw (nonempty, read) in
            inl (early, (o, decoded, decoded-KeepsTexts now later token o code h signed decoded))
      ]

  -- The tokens of a session that began with `token` at `start`: each is what the code of the one
  -- before it is decoded to.
  pub data Session (start : ℕ) (token : Object) : ℕ → Object → Type 0 where
    signed_in : Session start token start token
    refreshed :
        {now later : ℕ} {t o : Object} (code : J.Code)
        → Session start token now t
        → encode J now (some t) secret ≡ resolved code
        → decode J later (some code) secret ≡ resolved (some o)
        → Session start token later o

  -- A code of a session gives back a token that names the user by its uid.
  pub refreshed_lem :
      (now later : ℕ) (t o : Object) (code : J.Code) (u : String)
      → HasDistinctKeys t
      → encode J now (some t) secret ≡ resolved code
      → decode J later (some code) secret ≡ resolved (some o)
      → Identifies t u
      → HasDistinctKeys o
        × (get "uid" o ≡ str u)
        × ((k s : String) → k ≢ "iat" → k ≢ "exp" → k ≢ "sub" → get k t ≡ str s → get k o ≡ str s)
  refreshed_lem now later t o code u h signed read who =
      let (distinct, same, texts) = decoded-KeepsTexts now later t o code h signed read in
      (distinct, same u who, texts)

  -- If the token at sign-in names the user by its uid, or has no uid and names the user by its
  -- sub, and no key of it stands twice, then every token of the session, however often it is
  -- refreshed, names that user in this way.
  pub Session-Identifies :
      (start : ℕ) (token : Object) (u : String)
      → HasDistinctKeys token
      → Identifies token u
      → {at : ℕ} {o : Object} → Session start token at o
      → HasDistinctKeys o × Identifies o u
  Session-Identifies start token u h who signed_in = (h, who)
  Session-Identifies start token u h who (refreshed code s signed read) =
      let (distinct, same) = Session-Identifies start token u h who s in
      let (distinct', same', _) = refreshed_lem _ _ _ _ code u distinct signed read same in
      (distinct', inl same')

  -- A text of the token at sign-in, but for the times and `sub`, stays in every token.
  pub get-Session :
      (start : ℕ) (token : Object) (u k text : String)
      → HasDistinctKeys token
      → Identifies token u
      → (k == "iat" || k == "exp" || k == "sub") ≡ false
      → get k token ≡ str text
      → {at : ℕ} {o : Object} → Session start token at o
      → get k o ≡ str text
  get-Session start token u k text h who other held signed_in = held
  get-Session start token u k text h who other held (refreshed code s signed read) =
      let (distinct, same) = Session-Identifies start token u h who s in
      let before = get-Session start token u k text h who other held s in
      let (_, _, texts) = refreshed_lem _ _ _ _ code u distinct signed read same in
      texts k text (ground (arith, other, eq_iff k "iat")) (ground (arith, other, eq_iff k "exp"))
        (ground (arith, other, eq_iff k "sub")) before
