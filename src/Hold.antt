-- ===== src/Hold.antt =====
-- apps/services/go/availability/internal/domain/hold.go: a hold of a parking space. A method that
-- changes `*Hold` gives back the new one beside its error. Times are seconds.
pub mod Lifecycle
pub mod Table
pub mod Book
pub mod Rows
pub mod Refinement
pub mod Coordinator
pub mod Exclusion
mod Tests
mod CoordinatorTests
use autospace_parking.Prelude.{
  ℕ, String, Bool, true, false, not, ◌&&◌, Option, none, some, leb, if◌then◌else◌,
}
use autospace_parking.Js.Text.{truthy}

pub data HoldStatus : Type 0 where
  active confirmed released expired : HoldStatus

pub data HoldError : Type 0 where
  hold_expired hold_not_active booking_id_required release_reason_required : HoldError

pub record Hold : Type 0 where
  pub id : String
  pub quote_id : String
  pub customer_id : String
  pub parking_space_id : String
  pub expires_at : ℕ
  pub status : HoldStatus
  pub booking_id : String
  pub release_reason : String

abbrev pub is_active : HoldStatus → Bool
is_active active = true
is_active _ = false

abbrev pub is_expired : HoldStatus → Bool
is_expired expired = true
is_expired _ = false

unfoldable pub effective_status : ℕ → Hold → HoldStatus
effective_status now hold =
    if is_active hold.status && leb hold.expires_at now then expired else hold.status

unfoldable pub confirm : ℕ → String → Hold → Hold × Option HoldError
unfolding effective_status
confirm now booking_id hold =
    if not (truthy booking_id)
    then (hold, some booking_id_required)
    else if is_expired (effective_status now hold)
    then (record hold { status = expired }, some hold_expired)
    else if not (is_active hold.status)
    then (hold, some hold_not_active)
    else (record hold { status = confirmed; booking_id = booking_id }, none)

unfoldable pub release : ℕ → String → Hold → Hold × Option HoldError
unfolding effective_status
release now reason hold =
    if not (truthy reason)
    then (hold, some release_reason_required)
    else if is_expired (effective_status now hold)
    then (record hold { status = expired }, some hold_expired)
    else if not (is_active hold.status)
    then (hold, some hold_not_active)
    else (record hold { status = released; release_reason = reason }, none)
