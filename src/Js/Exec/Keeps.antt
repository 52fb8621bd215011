-- ===== src/Js/Exec/Keeps.antt =====
-- What asynchronous methods keep, whether they return or throw: one rule for each way to build one.
use autospace_parking.Prelude.{◌≡◌, refl, ◌⊎◌, inl, inr, Bool, true, false, if◌then◌else◌}
use autospace_parking.Js.Exec.{Thrown, Outcome, resolved, rejected, Exec, pure, throw, ◌>>=◌, catch}

-- The invariant `I` of the world holds after the method if it held before.
pub record Keeps {ℓ} {World A : Type ℓ} (I : World → Type ℓ) (method : Exec World A) : Type ℓ where
  pub at : (w : World) → I w → I (method w).1

module _ {ℓ} {World A B : Type ℓ} {I : World → Type ℓ} where
  -- The second method goes on from the world of the first one, unless that threw.
  pub Keeps-bind :
      (first : Exec World A) (next : A → Exec World B)
      → Keeps I first
      → ((a : A) → Keeps I (next a))
      → Keeps I (first >>= next)
  Keeps-bind first next kept later = record { at = λ w h. go (first w).0 (first w).1 (kept.at w h) }
    where
      go : (r : Outcome A) (w : World) → I w → I (((λ (_ : World). (r, w)) >>= next) w).1
      go (resolved a) w h = (later a).at w h
      go (rejected e) w h = h

module _ {ℓ} {World A : Type ℓ} {I : World → Type ℓ} where
  pub Keeps-catch :
      (method : Exec World A) (handler : Thrown → Exec World A)
      → Keeps I method
      → ((e : Thrown) → Keeps I (handler e))
      → Keeps I (catch method handler)
  Keeps-catch method handler kept caught = record {
    at = λ w h. go (method w).0 (method w).1 (kept.at w h);
  }
    where
      go : (r : Outcome A) (w : World) → I w → I (catch (λ _. (r, w)) handler w).1
      go (resolved a) w h = h
      go (rejected e) w h = (caught e).at w h

  pub Keeps-if :
      (test : Bool) (yes_way no_way : Exec World A)
      → Keeps I yes_way
      → Keeps I no_way
      → Keeps I (if test then yes_way else no_way)
  Keeps-if false yes_way no_way p q = q
  Keeps-if true yes_way no_way p q = p

  pub Keeps-throw : (e : Thrown) → Keeps I (throw {A = A} e)
  Keeps-throw e = record { at = λ w h. h }

  pub Keeps-pure : (a : A) → Keeps I (pure a)
  Keeps-pure a = record { at = λ w h. h }

pub ruleset keeps_rules = (Keeps-bind, Keeps-catch, Keeps-if, Keeps-throw, Keeps-pure)

-- A method that returns did each of its steps.
pub >>=-eq-resolved {ℓ} :
    {S A B : Type ℓ} (m : Exec S A) (f : A → Exec S B) (s : S) {b : B}
    → ((m >>= f) s).0 ≡ resolved b
    → (a : A) × ((m s).0 ≡ resolved a) × ((m >>= f) s ≡ f a (m s).1)
>>=-eq-resolved {S = S} {A = A} m f s {b} h = go (m s).0 (m s).1 h
  where
    go :
        (r : Outcome A) (t : S)
        → (((λ (_ : S). (r, t)) >>= f) s).0 ≡ resolved b
        → (a : A) × (r ≡ resolved a) × (((λ (_ : S). (r, t)) >>= f) s ≡ f a t)
    go (resolved a) t e = (a, refl, refl)
    go (rejected x) t e = cc

-- A property of the state after two steps, from whether the first one returned.
pub >>=-cases {ℓ κ} :
    {S A B : Type ℓ} (Q : S → Type κ) (m : Exec S A) (f : A → Exec S B) (s : S)
    → ((e : Thrown) → (m s).0 ≡ rejected e → Q (m s).1)
    → ((a : A) → (m s).0 ≡ resolved a → Q (f a (m s).1).1)
    → Q ((m >>= f) s).1
>>=-cases {S = S} {A = A} Q m f s threw returned = go (m s).0 (m s).1 threw returned
  where
    go :
        (r : Outcome A) (t : S)
        → ((e : Thrown) → r ≡ rejected e → Q t)
        → ((a : A) → r ≡ resolved a → Q (f a t).1)
        → Q (((λ (_ : S). (r, t)) >>= f) s).1
    go (resolved a) t h k = k a refl
    go (rejected e) t h k = h e refl

pub Outcome-cases {ℓ} :
    {A : Type ℓ} (r : Outcome A) → ((a : A) × (r ≡ resolved a)) ⊎ ((e : Thrown) × (r ≡ rejected e))
Outcome-cases (resolved a) = inl (a, refl)
Outcome-cases (rejected e) = inr (e, refl)

-- What follows a step that returned.
pub >>=-resolved {ℓ} :
    {S A B : Type ℓ} (m : Exec S A) (f : A → Exec S B) (s : S) {a : A}
    → (m s).0 ≡ resolved a
    → (m >>= f) s ≡ f a (m s).1
>>=-resolved m f s h = rw (h, ◌>>=◌)

pub >>=-rejected {ℓ} :
    {S A B : Type ℓ} (m : Exec S A) (f : A → Exec S B) (s : S) {e : Thrown}
    → (m s).0 ≡ rejected e
    → (m >>= f) s ≡ (rejected e, (m s).1)
>>=-rejected m f s h = rw (h, ◌>>=◌)
