-- ===== src/Search/ResultTests.antt =====
-- A garage with two groups of free slots.
use autospace_parking.Prelude.{ℕ, String, ◌≡◌, refl, true, false, none, some, List, [], ◌∷◌}
use autospace_parking.Search.Results.{
  SlotGroup, available_count, count_from, lowest_price, lowest_from, is_disabled, show_garages,
  found, none_found,
}
use autospace_parking.Search.Card.{Garage}

abbrev groups : List SlotGroup
groups = record { count = 2; price_per_hour = 9 } ∷ record { count = 1; price_per_hour = 7 } ∷ []

card_run :
    (available_count groups ≡ 3) × (lowest_price groups ≡ some 7) × (is_disabled groups ≡ false)
unfolding available_count count_from lowest_price lowest_from is_disabled
card_run = (refl, refl, refl)

views_run :
    (show_garages {Garage = ℕ} false true none (some (1 ∷ [])) none ≡ found true (1 ∷ []))
    × (show_garages {Garage = ℕ} false false none none none ≡ none_found)
unfolding show_garages
views_run = (refl, refl)

abbrev quay : Garage
quay = record {
  id = "g1";
  display_name = some "Quay";
  address = none;
  verification = some true;
  images = [];
  available_slots = groups;
}

-- Every number is written with one sign here.
abbrev digits : ℕ → String
digits n = "#"
