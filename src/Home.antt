-- ===== src/Home.antt =====
-- apps/web/src/app/page.tsx: the home page with its form for a search.
pub mod Sections
pub mod Submission
pub mod Query
pub mod Request
mod Tests
mod QueryTests
use autospace_parking.Prelude.{
  String, Bool, true, false, Option, none, some, List, [], ◌∷◌, ◌++◌, ◌<>◌, ◌==◌, if◌then◌else◌,
}
use mathlib.Core.List.{map}
use autospace_parking.Js.Text.{or_default}
use autospace_parking.Html.{Element, text, node, flag}

-- The three modes: what is sent, what the button says, and what is said under the buttons.
pub data Mode : Type 0 where
  hourly_daily monthly airport : Mode

pub record ModeOption : Type 0 where
  pub id : String
  pub label : String
  pub description : String

abbrev pub mode_option : Mode → ModeOption
mode_option hourly_daily = record {
  id = "hourly-daily";
  label = "Hourly / daily";
  description = "Book from 30 minutes to several days.";
}
mode_option monthly = record {
  id = "monthly";
  label = "Monthly";
  description = "Reserve a regular space with one monthly payment.";
}
mode_option airport = record {
  id = "airport";
  label = "Airport";
  description = "Compare airport spaces and transfer options.";
}

abbrev pub modes : List ModeOption
modes = mode_option hourly_daily ∷ mode_option monthly ∷ mode_option airport ∷ []

-- `useState`, and the handler of a radio button.
abbrev pub initial_mode : Mode
initial_mode = hourly_daily

unfoldable pub find_mode : String → List ModeOption → Option ModeOption
find_mode id [] = none
find_mode id (mode ∷ more) = if mode.id == id then some mode else find_mode id more

description_of : Option ModeOption → String
description_of none = ""
description_of (some mode) = mode.description

unfoldable pub mode_label : String → ModeOption → Element
mode_label mode item = node "label" [] (
    node "input"
      (("type", "radio")
        ∷ ("name", "mode")
        ∷ ("value", item.id)
        ∷ flag (mode == item.id) "checked" [])
      []
    ∷ text item.label
    ∷ [])

unfoldable pub time_label : String → Element
time_label field = node "label" [] (
    text (if field == "departure" then "Leave" else "Arrive")
    ∷ node "span" [] (
        node "input" (("name", field) ∷ ("type", "datetime-local") ∷ ("required", "") ∷ []) [] ∷ [])
    ∷ [])

unfoldable pub mode_choice : String → Element
unfolding mode_label
mode_choice mode =
    node "fieldset" [] (
      node "legend" [] (text "Parking type" ∷ [])
      ∷ node "div" [] (map (mode_label mode) modes)
      ∷ [])

unfoldable pub destination_input : Element
destination_input =
    node "input"
      (("id", "destination")
        ∷ ("name", "destination")
        ∷ ("required", "")
        ∷ ("placeholder", "Address, venue, station or airport")
        ∷ [])
      []

-- The form, in a mode.
unfoldable pub search_form : Mode → Element
unfolding mode_choice destination_input time_label description_of find_mode
search_form m =
    let mode = (mode_option m).id in
    node "form" (("action", "/search") ∷ []) (
      mode_choice mode
      ∷ node "p" [] (text (description_of (find_mode mode modes)) ∷ [])
      ∷ node "label" (("for", "destination") ∷ []) (text "Where do you need to park?" ∷ [])
      ∷ node "div" [] (destination_input ∷ [])
      ∷ node "div" [] (map time_label ("arrival" ∷ "departure" ∷ []))
      ∷ node "button" (("type", "submit") ∷ []) (text "Find parking" ∷ [])
      ∷ [])

abbrev pub popular_places : List String
popular_places =
    "City centres" ∷ "Airports" ∷ "Train stations" ∷ "Stadiums" ∷ "Hospitals" ∷ "Universities" ∷ []

-- The link of a place; the lower case of a text and `encodeURIComponent` are parameters.
unfoldable pub place_link : (String → String) → (String → String) → String → Element
place_link lower_case encode place =
    node "a" (("href", "/search?category=" <> encode (lower_case place)) ∷ []) (text place ∷ [])

unfoldable pub explore : (String → String) → (String → String) → Element
unfolding place_link
explore lower_case encode = node "section" [] (
    node "p" [] (text "Explore" ∷ [])
    ∷ node "h2" [] (text "Parking for every destination" ∷ [])
    ∷ node "a" (("href", "/search") ∷ []) (text "Browse all locations" ∷ [])
    ∷ node "div" [] (map (place_link lower_case encode) popular_places)
    ∷ [])

-- `NEXT_PUBLIC_PROVIDER_URL`
unfoldable pub provider_url : Option String → String
provider_url set = or_default set "http://localhost:3002/new-garage"
