-- ===== src/Search/Screen/View.antt =====
-- templates/SearchPage.tsx: what the page renders. A component from elsewhere is an element with its
-- name; its handlers are the functions of the parent module.
use autospace_parking.Prelude.{String, List, [], ◌∷◌, ◌<>◌}
use mathlib.Core.List.{map}
use autospace_parking.Html.{Element, text, node}
use autospace_parking.Search.Adapter.{Ports}
use autospace_parking.Search.Screen.{SearchMode, search_modes, TimeChecks, Screen}

unfoldable pub mode_button : SearchMode → Element
mode_button mode = node "button" (("type", "button") ∷ []) (text mode.label ∷ [])

-- An input of a time, from the present minute on.
unfoldable pub time_input : String → String → String → Element
time_input minute name value = node "div" [] (
    node "IconType" (("time", value) ∷ []) []
    ∷ node "HtmlInput"
        (("type", "datetime-local") ∷ ("min", minute) ∷ ("name", name) ∷ ("value", value) ∷ []) []
    ∷ [])

-- An error of the form, by the name of what it is about.
unfoldable pub error_line : String × String → Element
error_line (key, message) = node "div" [] (text (key <> ": " <> message) ∷ [])

abbrev panel : String → List Element → Element
panel position children = node "Panel" (("position", position) ∷ []) children

module _ (P : Ports) (T : TimeChecks) (or_zero : P.Coordinate → P.Coordinate) where
  -- From the present minute in local time, and the errors of the form, whose object is always there.
  unfoldable pub search_page : String → List (String × String) → Screen P T or_zero → Element
  unfolding mode_button time_input error_line
  search_page minute errors s = node "Map" [] (
      node "ShowGarages" [] []
      ∷ panel "left-top" (
          node "div" [] (
            node "div" [] (map mode_button search_modes)
            ∷ node "SearchPlaceBox" (("initialSearchText", s.destination) ∷ []) []
            ∷ node "div" [] (
                node "div" [] (node "IconArrowDown" [] [] ∷ [])
                ∷ time_input minute "startTime" s.start_time
                ∷ time_input minute "endTime" s.end_time
                ∷ [])
            ∷ [])
          ∷ [])
      ∷ panel "right-center" (node "DefaultZoomControls" [] [] ∷ [])
      ∷ panel "center-bottom" (map error_line errors)
      ∷ panel "right-top" (node "div" [] (node "FilterSidebar" [] [] ∷ []) ∷ [])
      ∷ [])
