-- ===== src/Search/ScreenTests.antt =====
-- The search page, opened and used.
use autospace_parking.Prelude.{ℕ, ◌≡◌, refl, true, none, some, [], ◌∷◌}
use autospace_parking.Js.Text.{is_space, trim}
use autospace_parking.Location.{Search, new_search, effect, settle, features, searches, answers}
use autospace_parking.Location.Places.{MapboxFeature, places, place_of}
use autospace_parking.Search.Form.{FormValues, default_values}
use autospace_parking.Search.Page.{is_search_mode}
use autospace_parking.Search.PlaceBox.{new_box, apply_initial}
use autospace_parking.Search.Screen.{
  TimeChecks, Screen, opened, render, load_map, type_place, Reach, here, next, types, loads,
  looks_up, renders,
}
use autospace_parking.Search.Screen.Invariant.{IsConsistent, Shows, last_bounds, search_page_lem}
use autospace_parking.Search.Tests.{ports, times}

abbrev pub checks : TimeChecks
checks = record {
  Time = ℕ;
  is_start_time_valid = λ now time. true;
  is_end_time_valid = λ end start. true;
}

-- The page is opened with no destination.
abbrev values : FormValues
values =
    default_values times
      (record { product_mode = none; destination = none; start_time = none; end_time = none })

abbrev pub or_zero : ℕ → ℕ
or_zero n = n

abbrev typed : Screen ports checks or_zero
typed = load_map ports checks or_zero none (
    type_place ports checks or_zero "Lon"
      (opened ports checks or_zero values (new_search ℕ) new_box))

abbrev london : MapboxFeature ℕ
london = record { place_name = some "London"; center = some (0, 51) }

abbrev searching : Search ℕ
searching = effect ℕ (some "pk") "Lon" (new_search ℕ)

abbrev answered : Search ℕ
answered = settle ℕ 0 (features (some (london ∷ []))) searching

abbrev shown : Screen ports checks or_zero
shown = render ports checks or_zero (record typed { search = answered })

typed_Reach :
    Reach ports checks or_zero (opened ports checks or_zero values (new_search ℕ) new_box) shown
unfolding effect is_space trim load_map type_place opened
typed_Reach =
    next
      (next
        (next
          (next
            (next here (types "Lon" (opened ports checks or_zero values (new_search ℕ) new_box)))
            (loads none (
              type_place ports checks or_zero "Lon"
                (opened ports checks or_zero values (new_search ℕ) new_box))))
          (looks_up typed (searches (some "pk") "Lon" (new_search ℕ))))
        (looks_up (record typed { search = searching })
          (answers 0 (features (some (london ∷ []))) searching refl)))
      (renders (record typed { search = answered }))

search_page_lem_example :
    IsConsistent ports checks or_zero shown
    × Shows ports checks or_zero
        (last_bounds ports checks or_zero typed_Reach)
        shown.location_filter
unfolding default_values is_search_mode
search_page_lem_example =
    search_page_lem ports checks or_zero values (new_search ℕ) refl typed_Reach

-- The map flies to the first place that is found for what is being typed.
flight_run : shown.box.flights ≡ record { automatic = true; center = (51, 0); zoom = 12 } ∷ []
unfolding render load_map type_place opened effect settle places place_of apply_initial is_space
    trim
flight_run = refl
