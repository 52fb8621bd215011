-- ===== src/Js/Exec.antt =====
-- Asynchronous methods that may throw. A promise is settled by a value or by what was thrown, and
-- the state comes back beside either: what was written before a throw stays written.
pub mod Keeps
pub mod Returns
pub mod Restricts
use autospace_parking.Prelude.{String}

-- A thrown value: an `Error` with its name and message, or another value by its `String(…)`.
pub data Thrown : Type 0 where
  error : String → String → Thrown
  value : String → Thrown

-- `error instanceof Error ? error.message : String(error)`
abbrev pub message_of : Thrown → String
message_of (error name message) = message
message_of (value text) = text

pub data Outcome {ℓ} (A : Type ℓ) : Type ℓ where
  resolved : A → Outcome A
  rejected : Thrown → Outcome A

abbrev pub Exec {ℓ} : Type ℓ → Type ℓ → Type ℓ
Exec S A = S → Outcome A × S

abbrev pub pure {ℓ} : {S A : Type ℓ} → A → Exec S A
pure a s = (resolved a, s)

abbrev pub throw {ℓ} : {S A : Type ℓ} → Thrown → Exec S A
throw e s = (rejected e, s)

abbrev pub lift {ℓ} : {S A : Type ℓ} → Outcome A → Exec S A
lift r s = (r, s)

abbrev continue {ℓ} : {S A B : Type ℓ} → Outcome A → (A → Exec S B) → Exec S B
continue (resolved a) f s = f a s
continue (rejected e) f s = (rejected e, s)

infixl 5 ◌>>=◌ ◌>>◌
abbrev pub ◌>>=◌ {ℓ} : {S A B : Type ℓ} → Exec S A → (A → Exec S B) → Exec S B
◌>>=◌ m f s = let (r, s') = m s in continue r f s'

abbrev pub ◌>>◌ {ℓ} : {S A B : Type ℓ} → Exec S A → Exec S B → Exec S B
m >> k = m >>= λ _. k

abbrev handle {ℓ} : {S A : Type ℓ} → Outcome A → (Thrown → Exec S A) → Exec S A
handle (resolved a) f s = (resolved a, s)
handle (rejected e) f s = f e s

-- `try { m } catch (error) { f(error) }`
abbrev pub catch {ℓ} : {S A : Type ℓ} → Exec S A → (Thrown → Exec S A) → Exec S A
catch m f s = let (r, s') = m s in handle r f s'
