-- ===== src/Go/Env.antt =====
-- The environment of a Go service: `os.LookupEnv`, `envOrDefault` (which each service has a copy of),
-- and `strconv.Atoi`.
use autospace_parking.Prelude.{
  ◌≡◌, refl, ◌⊎◌, inl, inr, ℕ, ◌+◌, ◌-◌, ◌*◌, ◌^◌, String, Bool, true, false, ◌&&◌, Option, none,
  some, leb, ltb, eqb, if◌then◌else◌,
}
use autospace_parking.Js.Text.{truthy}
use Prim.Native.Char.{code}

-- `negsuc n` is -(n + 1).
pub data ℤ : Type 0 where
  pos negsuc : ℕ → ℤ

abbrev pub is_positive : ℤ → Bool
is_positive (pos n) = ltb 0 n
is_positive (negsuc n) = false

pub data Result {ℓ} (A : Type ℓ) : Type ℓ where
  ok : A → Result A
  err : String → Result A

-- `os.LookupEnv`
abbrev pub Environment : Type 0
Environment = String → Option String

nonempty_or : Option String → String → String
nonempty_or none fallback = fallback
nonempty_or (some value) fallback = if truthy value then value else fallback

unfoldable pub env_or_default : Environment → String → String → String
unfolding nonempty_or
env_or_default env key fallback = nonempty_or (env key) fallback

-- `os.Getenv`
abbrev pub getenv : Environment → String → String
getenv env key = elim (env key) [ none ↦ "" | some value ↦ value ]

digits : String → ℕ → Option ℕ
digits String.[] n = some n
digits (String.◌∷◌ c s) n =
    if leb b'0' (code c) && leb (code c) b'9' then digits s (n * 10 + (code c - b'0')) else none

unsigned : String → Option ℕ
unfolding digits
unsigned String.[] = none
unsigned s = digits s 0

limit : ℕ
limit = 2 ^ 63

signed : Bool → Option ℕ → Option ℤ
unfolding limit
signed negative none = none
signed false (some n) = if ltb n limit then some (pos n) else none
signed true (some n) =
    if leb n limit then some (if leb n 0 then pos 0 else negsuc (n - 1)) else none

-- `strconv.Atoi` with 64 bits; `none` is an error.
unfoldable pub atoi : String → Option ℤ
unfolding unsigned signed
atoi String.[] = none
atoi (String.◌∷◌ c s) =
    if eqb (code c) b'-'
    then signed true (unsigned s)
    else if eqb (code c) b'+'
    then signed false (unsigned s)
    else signed false (unsigned (String.◌∷◌ c s))

pub Result-cases {ℓ} :
    {A : Type ℓ} (r : Result A) → ((a : A) × (r ≡ ok a)) ⊎ ((e : String) × (r ≡ err e))
Result-cases (ok a) = inl (a, refl)
Result-cases (err e) = inr (e, refl)
