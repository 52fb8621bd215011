-- ===== src/Availability/Service.antt =====
-- apps/services/go/availability/internal/grpcapi/service.go: `GetAvailability`.
use autospace_parking.Prelude.{
  ℕ, String, Bool, true, Option, none, some, List, [], ◌∷◌, ◌++◌, ◌==◌, if◌then◌else◌,
}

pub record Item : Type 0 where
  pub parking_space_id : String
  pub available_capacity : ℕ
  pub available : Bool

-- An error of `status.Error` with the code InvalidArgument, or a response.
pub data Answer : Type 0 where
  invalid_argument : String → Answer
  answer : List Item → Answer

abbrev pub free : String → Item
free id = record { parking_space_id = id; available_capacity = 1; available = true }

-- The loop, with the items that are appended so far.
unfoldable pub collect : List String → List Item → Answer
collect [] items = answer items
collect (id ∷ ids) items =
    let rest = collect ids (items ++ free id ∷ []) in
    if id == "" then invalid_argument "parking_space_ids cannot contain empty values" else rest

-- `none` is a request that is nil.
unfoldable pub get_availability : Option (List String) → Answer
get_availability none = invalid_argument "parking_space_ids is required"
get_availability (some []) = invalid_argument "parking_space_ids is required"
get_availability (some (id ∷ ids)) = collect (id ∷ ids) []
