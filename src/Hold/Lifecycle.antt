-- ===== src/Hold/Lifecycle.antt =====
-- The life of a hold: it ends once, by a confirmation, a release or its expiry.
use autospace_parking.Prelude.{ℕ, ◌≡◌, refl, ◌∙◌, String, Bool, true, false, arith}
use autospace_parking.Js.Text.{truthy}
use autospace_parking.Hold.{
  HoldStatus, active, confirmed, released, Hold, is_active, confirm, release,
}

pub data Step : Hold → Hold → Type 0 where
  confirms : (now : ℕ) (booking_id : String) (h : Hold) → Step h (confirm now booking_id h).0
  releases : (now : ℕ) (reason : String) (h : Hold) → Step h (release now reason h).0

pub data Reach (start : Hold) : Hold → Type 0 where
  here : Reach start start
  next : {h k : Hold} → Reach start h → Step h k → Reach start k

abbrev pub is_confirmed : HoldStatus → Bool
is_confirmed confirmed = true
is_confirmed _ = false

abbrev pub is_released : HoldStatus → Bool
is_released released = true
is_released _ = false

-- A booking stands in a hold that is confirmed and in no other, a reason in one that is released and
-- in no other.
pub record IsValid (h : Hold) : Type 0 where
  pub booked : truthy h.booking_id ≡ is_confirmed h.status
  pub reasoned : truthy h.release_reason ≡ is_released h.status

Step-IsValid : {h k : Hold} → Step h k → IsValid h → IsValid k
unfolding confirm release
Step-IsValid (confirms now booking_id h) v = ground arith
Step-IsValid (releases now reason h) v = ground arith

Step-final : {h k : Hold} → Step h k → is_active h.status ≡ false → k ≡ h
unfolding confirm release
Step-final (confirms now booking_id h) done = ground arith
Step-final (releases now reason h) done = ground arith

Reach-final : {h k : Hold} → Reach h k → is_active h.status ≡ false → k ≡ h
Reach-final here done = refl
Reach-final (next r step) done =
    let same = Reach-final r done in Step-final step (rw same done) ∙ same

new-IsValid :
    (h : Hold)
    → h.status ≡ active
    → truthy h.booking_id ≡ false
    → truthy h.release_reason ≡ false
    → IsValid h
new-IsValid h begins unbooked unreasoned = ground arith

reached-IsValid : {start h : Hold} → IsValid start → Reach start h → IsValid h
reached-IsValid v here = v
reached-IsValid v (next r step) = Step-IsValid step (reached-IsValid v r)

-- A hold that begins active, without a booking and without a reason, has a booking exactly while
-- it is confirmed and a reason exactly while it is released, whatever is tried on it; and once it
-- is no longer active nothing changes it.
pub lifecycle_lem :
    (start : Hold) {h k : Hold}
    → start.status ≡ active
    → truthy start.booking_id ≡ false
    → truthy start.release_reason ≡ false
    → Reach start h
    → Reach h k
    → IsValid h × (is_active h.status ≡ false → k ≡ h)
lifecycle_lem start begins unbooked unreasoned r later =
    (reached-IsValid (new-IsValid start begins unbooked unreasoned) r, Reach-final later)
