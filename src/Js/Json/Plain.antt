-- ===== src/Js/Json/Plain.antt =====
-- The values that `JSON.parse` gives back as `JSON.stringify` was given them.
use autospace_parking.Prelude.{false, ◌≡◌, ◌⊎◌, ◌<◌}
use autospace_parking.Js.Number.{Number, nan, infinite, integer}
use autospace_parking.Js.Json.{
  Json, undefined, null, bool, num, str, arr, obj, Items, nil, cons, Object, end, field,
}
use autospace_parking.Js.Json.Spread.{has}

-- `-0` is written as 0, what is not finite as `null`.
abbrev IsWritten : Number → Type 0
IsWritten nan = ⊥
IsWritten (infinite minus) = ⊥
IsWritten (integer minus n) = (minus ≡ false) ⊎ (0 < n)

unfoldable mutual
  pub IsPlain : Json → Type 0
  IsPlain undefined = ⊥
  IsPlain null = Unit
  IsPlain (bool b) = Unit
  IsPlain (num n) = IsWritten n
  IsPlain (str s) = Unit
  IsPlain (arr xs) = IsPlainItems xs
  IsPlain (obj o) = IsPlainObject o

  pub IsPlainItems : Items → Type 0
  IsPlainItems nil = Unit
  IsPlainItems (cons v xs) = IsPlain v × IsPlainItems xs

  pub IsPlainObject : Object → Type 0
  IsPlainObject end = Unit
  IsPlainObject (field k v o) = (has k o ≡ false) × (IsPlain v × IsPlainObject o)
