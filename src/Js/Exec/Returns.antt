-- ===== src/Js/Exec/Returns.antt =====
-- Asynchronous methods that return from every state: none of their steps throws, or it is caught.
use autospace_parking.Prelude.{◌≡◌, refl}
use autospace_parking.Js.Exec.{Thrown, Outcome, resolved, rejected, Exec, pure, ◌>>=◌, catch}

pub record Returns {ℓ} {S A : Type ℓ} (m : Exec S A) : Type ℓ where
  pub from : (s : S) → (a : A) × ((m s).0 ≡ resolved a)

module _ {ℓ} {S A : Type ℓ} where
  pub Returns-pure : (a : A) → Returns (pure {S = S} a)
  Returns-pure a = record { from = λ s. (a, refl) }

  pub Returns-catch :
      (m : Exec S A) (f : Thrown → Exec S A) → ((e : Thrown) → Returns (f e)) → Returns (catch m f)
  Returns-catch m f rf = record { from = λ s. go (m s).0 (m s).1 }
    where
      go : (r : Outcome A) (t : S) → (a : A) × ((catch (λ (_ : S). (r, t)) f t).0 ≡ resolved a)
      go (resolved a) t = (a, refl)
      go (rejected e) t = (rf e).from t

module _ {ℓ} {S A B : Type ℓ} where
  pub Returns-bind :
      (m : Exec S A) (f : A → Exec S B) → Returns m → ((a : A) → Returns (f a)) → Returns (m >>= f)
  Returns-bind m f rm rf = record { from = λ s. go (m s).0 (m s).1 (rm.from s).0 (rm.from s).1 }
    where
      go :
          (r : Outcome A) (t : S) (a : A)
          → r ≡ resolved a
          → (b : B) × ((((λ (_ : S). (r, t)) >>= f) t).0 ≡ resolved b)
      go (resolved c) t a e = (rf c).from t
      go (rejected x) t a e = absurd (cc)

pub ruleset returns_rules = (Returns-pure, Returns-catch, Returns-bind)
