-- ===== src/Admin/Listings.antt =====
-- AdminHome.tsx, `ShowGarages`: the four figures and the filter. What it renders is left out.
use autospace_parking.Prelude.{
  ℕ, ◌+◌, ◌-◌, String, Bool, true, false, not, ◌&&◌, ◌||◌, Option, some, List, [], ◌∷◌, length,
  if◌then◌else◌,
}
use autospace_parking.Js.Text.{truthy, trim, or_default, includes}

-- A garage of the answer: whether its verification, if it has one, has succeeded, the text of its
-- address, if it has one, and the number of its slots of each type.
pub record Garage : Type 0 where
  pub id : String
  pub display_name : Option String
  pub address : Option String
  pub verification : Option Bool
  pub slot_counts : List ℕ

pub data VerificationFilter : Type 0 where
  all pending verified : VerificationFilter

-- `Boolean(garage.verification?.verified)`
abbrev pub is_verified : Garage → Bool
is_verified garage = or_default garage.verification false

unfoldable pub garages_that : (Garage → Bool) → List Garage → List Garage
garages_that test [] = []
garages_that test (garage ∷ garages) =
    let rest = garages_that test garages in if test garage then garage ∷ rest else rest

unfoldable pub verified_count : List Garage → ℕ
verified_count garages = length (garages_that is_verified garages)

unfoldable pub pending_count : List Garage → ℕ
unfolding verified_count
pending_count garages = length garages - verified_count garages

unfoldable pub counts_from : ℕ → List ℕ → ℕ
counts_from total [] = total
counts_from total (count ∷ counts) = counts_from (total + count) counts

unfoldable pub spaces_from : ℕ → List Garage → ℕ
spaces_from total [] = total
spaces_from total (garage ∷ garages) =
    spaces_from (total + counts_from 0 garage.slot_counts) garages

unfoldable pub spaces_on_page : List Garage → ℕ
unfolding counts_from spaces_from
spaces_on_page garages = spaces_from 0 garages

unfoldable pub matches_status : VerificationFilter → Garage → Bool
matches_status all garage = true
matches_status verified garage = is_verified garage
matches_status pending garage = not (is_verified garage)

-- `toLocaleLowerCase` is a parameter.
module _ (lower_case : String → String) where
  unfoldable pub has_value : String → Option String → Bool
  has_value query value = includes query (lower_case (or_default value ""))

  unfoldable pub matches_query : String → Garage → Bool
  matches_query query garage =
      not (truthy query)
      || has_value query (some garage.id)
      || has_value query garage.display_name
      || has_value query garage.address

  unfoldable pub filtered_garages : VerificationFilter → String → List Garage → List Garage
  filtered_garages filter query garages =
      let normalized_query = lower_case (trim query) in
      garages_that (λ garage. matches_status filter garage && matches_query normalized_query garage)
        garages
