-- ===== src/Home/Tests.antt =====
-- The form of the home page, filled in.
use autospace_parking.Prelude.{
  String, ◌≡◌, refl, true, false, some, none, List, [], ◌∷◌, if◌then◌else◌, ◌==◌,
}
use autospace_parking.Html.Form.{form_data, is_complete, submit}
use autospace_parking.Home.{monthly, mode_option, search_form, place_link}
use autospace_parking.Home.Sections.{home}
use autospace_parking.Home.Submission.{is_filled, home_search}
use autospace_parking.Html.{tagged, node, text}
use autospace_parking.Search.Form.{Times, default_values}
use autospace_parking.Search.Page.{params_of, initial_values}

abbrev pub typed : String → String
typed name = if name == "destination" then "Leeds" else "2024-09-16T10:00"

abbrev pub times : Times
times = record { start_time = "2024-09-16T09:05"; end_time = "2024-09-16T10:05" }

pub submit_run :
    submit typed (search_form monthly)
    ≡ some (
        ("mode", "monthly")
        ∷ ("destination", "Leeds")
        ∷ ("arrival", "2024-09-16T10:00")
        ∷ ("departure", "2024-09-16T10:00")
        ∷ [])
unfolding submit form_data is_complete search_form
submit_run = refl

link_run :
    place_link (λ place. "airports") (λ part. part) "Airports"
    ≡ node "a" (("href", "/search?category=airports") ∷ []) (text "Airports" ∷ [])
unfolding place_link
link_run = refl

-- The search page reads no `category`.
category_run :
    initial_values (params_of (("category", "airports") ∷ [])) ≡ initial_values (params_of [])
unfolding initial_values params_of
category_run = refl

home_search_example :
    (tagged "form" (home (λ place. place) (λ part. part) none monthly) ≡ search_form monthly ∷ [])
    × (is_filled typed ≡ false → submit typed (search_form monthly) ≡ none)
    × (is_filled typed ≡ true
        → (query : List (String × String)) × (submit typed (search_form monthly) ≡ some query)
          × (let values = default_values times (initial_values (params_of query)) in
              (values.product_mode ≡ (mode_option monthly).id)
              × (values.destination ≡ typed "destination")
              × (values.start_time ≡ typed "arrival")
              × (values.end_time ≡ typed "departure")))
home_search_example = home_search monthly (λ place. place) (λ part. part) none typed times
