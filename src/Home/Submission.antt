-- ===== src/Home/Submission.antt =====
-- The form of the home page leads to a search with what it was filled in with.
use autospace_parking.Prelude.{
  String, ◌≡◌, refl, true, false, ◌&&◌, Option, none, some, List, [], ◌∷◌, Bool, arith,
}
use autospace_parking.Js.Text.{truthy}
use autospace_parking.Html.Form.{form_data, is_complete, submit}
use autospace_parking.Home.{Mode, hourly_daily, monthly, airport, mode_option, search_form}
use autospace_parking.Home.Sections.{home}
use autospace_parking.Html.{tagged}
use autospace_parking.Search.Form.{Times, default_values}
use autospace_parking.Search.Page.{params_of, initial_values, is_search_mode, given_values}

abbrev query_of : (String → String) → Mode → List (String × String)
query_of typed m =
    ("mode", (mode_option m).id)
    ∷ ("destination", typed "destination")
    ∷ ("arrival", typed "arrival")
    ∷ ("departure", typed "departure")
    ∷ []

form_data-search_form :
    (m : Mode) (typed : String → String) → form_data typed (search_form m) ≡ query_of typed m
unfolding form_data search_form
form_data-search_form hourly_daily typed = refl
form_data-search_form monthly typed = refl
form_data-search_form airport typed = refl

-- All three inputs are filled in.
abbrev pub is_filled : (String → String) → Bool
is_filled typed =
    truthy (typed "destination") && (truthy (typed "arrival") && truthy (typed "departure"))

is_complete-search_form :
    (m : Mode) (typed : String → String) → is_complete typed (search_form m) ≡ is_filled typed
unfolding is_complete search_form
is_complete-search_form hourly_daily typed = ground arith
is_complete-search_form monthly typed = ground arith
is_complete-search_form airport typed = ground arith

pub known : (m : Mode) → is_search_mode (mode_option m).id ≡ true
unfolding is_search_mode
known hourly_daily = refl
known monthly = refl
known airport = refl

-- The page has one form.
forms :
    (m : Mode) (lower_case encode : String → String) (set : Option String)
    → tagged "form" (home lower_case encode set m) ≡ search_form m ∷ []
unfolding tagged home search_form
forms hourly_daily lower_case encode set = refl
forms monthly lower_case encode set = refl
forms airport lower_case encode set = refl

-- The home page has one form, that of a search. A browser does not submit it while its destination
-- or one of its times is empty; otherwise the search page that it leads to begins with the mode,
-- the destination and the two times that were chosen.
pub home_search :
    (m : Mode) (lower_case encode : String → String) (set : Option String)
    → (typed : String → String) (times : Times)
    → (tagged "form" (home lower_case encode set m) ≡ search_form m ∷ [])
      × (is_filled typed ≡ false → submit typed (search_form m) ≡ none)
      × (is_filled typed ≡ true
          → (query : List (String × String)) × (submit typed (search_form m) ≡ some query)
            × (let values = default_values times (initial_values (params_of query)) in
                (values.product_mode ≡ (mode_option m).id)
                × (values.destination ≡ typed "destination")
                × (values.start_time ≡ typed "arrival")
                × (values.end_time ≡ typed "departure")))
unfolding submit
home_search m lower_case encode set typed times =
    let complete = is_complete-search_form m typed in
    let sent = form_data-search_form m typed in
    (
      forms m lower_case encode set,
      λ empty. rw (complete, empty),
      λ filled. (
        query_of typed m,
        rw (complete, filled, sent),
        unfold params_of in
            given_values (mode_option m).id (typed "destination") (typed "arrival")
              (typed "departure") times (known m) (ground arith) (ground arith),
      ),
    )
