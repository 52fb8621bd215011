-- ===== src/Home/QueryTests.antt =====
-- The form of the home page, filled in and sent, and the search page after its map has loaded.
use autospace_parking.Prelude.{ℕ, String, ◌≡◌, refl, true, false, none, some, List, [], ◌∷◌}
use autospace_parking.Home.{monthly}
use autospace_parking.Home.Query.{values_at, AsksFor}
use autospace_parking.Home.Request.{requested-submit}
use autospace_parking.Search.Panel as Panel
use autospace_parking.Search.Panel.{new_panel, settle_form, search_effect}
use autospace_parking.Home.Tests.{typed, times, submit_run}
use autospace_parking.Location.{new_search}
use autospace_parking.Search.Adapter.{DirtyFields, Variables}
use autospace_parking.Search.PlaceBox.{new_box}
use autospace_parking.Search.Screen.{
  Screen, opened, load_map, type_place, Reach, here, next, loads, types,
}
use autospace_parking.Search.Screen.Convert.{Sidebar, form_data_of}
use autospace_parking.Search.ScreenTests.{checks, or_zero}
use autospace_parking.Search.Tests.{ports}

abbrev query : List (String × String)
query =
    ("mode", "monthly")
    ∷ ("destination", "Leeds")
    ∷ ("arrival", "2024-09-16T10:00")
    ∷ ("departure", "2024-09-16T10:00")
    ∷ []

abbrev start : Screen ports checks or_zero
start = opened ports checks or_zero (values_at times query) (new_search ℕ) new_box

abbrev loaded : Screen ports checks or_zero
loaded = type_place ports checks or_zero "York" (
    load_map ports checks or_zero (some (record { north_east = (54, 2); south_west = (53, 1) }))
      start)

abbrev used : Reach ports checks or_zero start loaded
used =
    next (next here (loads (some (record { north_east = (54, 2); south_west = (53, 1) })) start))
      (types "York" _)

has_map : loaded.has_map ≡ true
unfolding load_map type_place
has_map = refl

abbrev untouched : DirtyFields
untouched = record {
  length = false;
  width = false;
  height = false;
  price_per_hour = false;
  types = false;
  skip = false;
  take = false;
}

abbrev bar : Sidebar ports
bar = record {
  length = none;
  width = none;
  height = none;
  price_per_hour = none;
  types = none;
  skip = none;
  take = none;
}

abbrev settled : Panel.Panel ports
settled =
    settle_form ports untouched (form_data_of ports checks or_zero bar loaded) (new_panel ports)

requested-submit_example :
    let asked = (search_effect ports settled).asked in
    (v : Variables ports) × (earlier : List (Variables ports)) × (asked ≡ v ∷ earlier)
    × AsksFor ports checks or_zero typed loaded v
requested-submit_example =
    requested-submit ports checks or_zero monthly typed query times (new_search ℕ) submit_run used
      tt has_map untouched bar Panel.Reach.here refl
