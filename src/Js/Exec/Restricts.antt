-- ===== src/Js/Exec/Restricts.antt =====
-- Methods on a part of the states, which the methods never leave: what they do there is what the
-- methods that they restrict do.
use autospace_parking.Prelude.{◌≡◌, refl, subst}
use autospace_parking.Js.Exec.{Thrown, Outcome, resolved, rejected, Exec, pure, ◌>>=◌, catch}

-- A method under which the part is closed, on the part.
abbrev pub restrict :
    {W A : Type 0} {Up : W → Type 0} (m : Exec W A)
    → ((w : W) → Up w → Up (m w).1)
    → Exec ((w : W) × Up w) A
restrict m keeps x = ((m x.0).0, ((m x.0).1, keeps x.0 x.1))

module _ {W : Type 0} (Up : W → Type 0) where
  abbrev pub Part : Type 0
  Part = (w : W) × Up w

  -- The same outcome, and the same state but for the proof.
  abbrev pub IsSame : {A : Type 0} → Outcome A × W → Outcome A × Part → Type 0
  IsSame o r = (r.0 ≡ o.0) × (r.1.0 ≡ o.1)

  pub record Restricts {A : Type 0} (m : Exec W A) (r : Exec Part A) : Type 0 where
    pub at : (x : Part) → IsSame (m x.0) (r x)

module _ {W A B : Type 0} {Up : W → Type 0} where
  pub Restricts-bind :
      (m : Exec W A) (r : Exec (Part Up) A) (f : A → Exec W B) (g : A → Exec (Part Up) B)
      → Restricts Up m r
      → ((a : A) → Restricts Up (f a) (g a))
      → Restricts Up (m >>= f) (r >>= g)
  Restricts-bind m r f g same later = record {
    at = λ x.
        let (p, q) = same.at x in
        subst (λ (o : Outcome A × W). IsSame Up (((λ (_ : W). o) >>= f) x.0) ((r >>= g) x))
          (λ i. (p i, q i)) (go (r x).0 (r x).1);
  }
    where
      go :
          (o : Outcome A) (y : Part Up)
          → IsSame Up (((λ (_ : W). (o, y.0)) >>= f) y.0) (((λ (_ : Part Up). (o, y)) >>= g) y)
      go (resolved a) y = (later a).at y
      go (rejected t) y = (refl, refl)

module _ {W A : Type 0} {Up : W → Type 0} where
  pub Restricts-catch :
      (m : Exec W A) (r : Exec (Part Up) A) (f : Thrown → Exec W A) (g : Thrown → Exec (Part Up) A)
      → Restricts Up m r
      → ((t : Thrown) → Restricts Up (f t) (g t))
      → Restricts Up (catch m f) (catch r g)
  Restricts-catch m r f g same later = record {
    at = λ x.
        let (p, q) = same.at x in
        subst (λ (o : Outcome A × W). IsSame Up (catch (λ (_ : W). o) f x.0) (catch r g x))
          (λ i. (p i, q i)) (go (r x).0 (r x).1);
  }
    where
      go :
          (o : Outcome A) (y : Part Up)
          → IsSame Up (catch (λ (_ : W). (o, y.0)) f y.0) (catch (λ (_ : Part Up). (o, y)) g y)
      go (resolved a) y = (refl, refl)
      go (rejected t) y = (later t).at y

  pub Restricts-pure : (a : A) → Restricts Up (pure a) (pure {S = Part Up} a)
  Restricts-pure a = record { at = λ x. (refl, refl) }

pub ruleset restricts_rules = (Restricts-bind, Restricts-catch, Restricts-pure)
