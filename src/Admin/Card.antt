-- ===== src/Admin/Card.antt =====
-- organisms/GarageAdminCard.tsx: a garage as the administrators see it. A component from elsewhere
-- is an element with the component's name; the icon of a slot's type is left out.
use autospace_parking.Prelude.{
  ℕ, String, Option, none, some, List, [], ◌∷◌, ◌++◌, ◌<>◌, if◌then◌else◌,
}
use mathlib.Core.List.{map}
use autospace_parking.Js.Text.{or_default}
use autospace_parking.Html.{Element, text, node}
use autospace_parking.Admin.Listings.{Garage, is_verified}

-- `{address ? <MapLink …> : null}`
abbrev map_link : Option String → List Element
map_link none = []
map_link (some address) =
    node "MapLink" (("waypoints", address) ∷ []) (node "p" [] (text address ∷ []) ∷ []) ∷ []

abbrev no_slots : List ℕ → List Element
no_slots [] = node "div" [] (text "No slots." ∷ []) ∷ []
no_slots (count ∷ counts) = []

-- How a number is written is a parameter.
module _ (to_string : ℕ → String) where
  abbrev slot : ℕ → Element
  slot count = node "div" [] (node "span" [] (text (to_string count) ∷ []) ∷ [])

  unfoldable pub badge : Garage → Element
  badge garage = node "span" [] (text (if is_verified garage then "Verified" else "Pending") ∷ [])

  unfoldable pub garage_admin_card : Garage → List Element → Element
  unfolding badge
  garage_admin_card garage children = node "article" [] (
      node "p" [] (text ("#" <> garage.id) ∷ [])
      ∷ node "div" [] (
          node "h2" [] (text (or_default garage.display_name "") ∷ [])
          ∷ node "div" [] (badge garage ∷ [])
          ∷ [])
      ∷ node "div" [] (map_link garage.address)
      ∷ node "div" [] (no_slots garage.slot_counts ++ map slot garage.slot_counts)
      ∷ node "div" [] children
      ∷ [])
