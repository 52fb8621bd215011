-- ===== src/Search/Card.antt =====
-- organisms/search/SearchGarageCard.tsx: the card of a garage that was found, and the list of them in
-- organisms/search/ShowGarages.tsx. A component from elsewhere is an element with its name.
use autospace_parking.Prelude.{
  ℕ, String, Bool, false, Option, none, some, List, [], ◌∷◌, ◌++◌, ◌<>◌, eqb, length, if◌then◌else◌,
}
use mathlib.Core.List.{map}
use autospace_parking.Js.Text.{truthy, or_default}
use autospace_parking.Html.{Element, text, node, flag}
use autospace_parking.Search.Results.{
  SlotGroup, available_count, lowest_price, is_disabled, View, failed, none_found, found,
}

-- Of an address its text, and of a verification whether it has succeeded.
pub record Garage : Type 0 where
  pub id : String
  pub display_name : Option String
  pub address : Option String
  pub verification : Option Bool
  pub images : List String
  pub available_slots : List SlotGroup

-- `value || fallback`
abbrev or_text : Option String → String → String
or_text none fallback = fallback
or_text (some value) fallback = if truthy value then value else fallback

abbrev spaces_label : ℕ → String
spaces_label count = if eqb count 1 then "space" else "spaces"

abbrev pub verified_badge : Option Bool → List Element
verified_badge verification =
    if or_default verification false then node "span" [] (text "Verified" ∷ []) ∷ [] else []

-- `String(n)` and `n.toFixed(2)` are parameters.
module _ (to_string to_fixed : ℕ → String) where
  -- The pictures of a garage, an attribute for each.
  abbrev pub picture : List String → Element
  picture [] = node "div" [] []
  picture (image ∷ images) =
      node "AutoImageChanger"
        (("durationPerImage", to_string 5000)
          ∷ map (λ (url : String). ("images", url)) (image ∷ images))
        []

  unfoldable pub price_label : Option ℕ → String
  price_label none = "—"
  price_label (some price) = "$" <> to_fixed price

  -- The button; `flag` puts `disabled` on it.
  unfoldable pub book_button : Garage → Element
  book_button garage =
      node "button" (("type", "button") ∷ flag (is_disabled garage.available_slots) "disabled" [])
        (text "View and book" ∷ [])

  -- The dialog of a booking, open or not, with the times of the search.
  unfoldable pub booking_dialog : Bool → String → String → Garage → Element
  booking_dialog booking_open start_time end_time garage =
      node "Dialog" (("title", "Reserve this space") ∷ flag booking_open "open" []) (
        node "FormProviderBookSlot" (("endTime", end_time) ∷ ("startTime", start_time) ∷ [])
          (node "BookSlotPopup" (("garage", garage.id) ∷ []) [] ∷ [])
        ∷ [])

  unfoldable pub search_garage_card : Bool → String → String → Garage → Element
  unfolding price_label book_button booking_dialog
  search_garage_card booking_open start_time end_time garage =
      let count = available_count garage.available_slots in
      node "Fragment" [] (
        booking_dialog booking_open start_time end_time garage
        ∷ node "article" [] (
            node "div" [] (picture garage.images ∷ verified_badge garage.verification)
            ∷ node "div" [] (
                node "div" [] (
                  node "div" [] (
                    node "h2" [] (text (or_text garage.display_name "Parking space") ∷ [])
                    ∷ node "p" [] (
                        node "span" []
                          (text (or_text garage.address "Address available after booking") ∷ [])
                        ∷ [])
                    ∷ [])
                  ∷ node "div" [] (
                      node "p" [] (text "from" ∷ [])
                      ∷ node "p" [] (text (price_label (lowest_price garage.available_slots)) ∷ [])
                      ∷ node "p" [] (text "per hour" ∷ [])
                      ∷ [])
                  ∷ [])
                ∷ node "div" [] (
                    node "span" []
                      (text (to_string count <> " " <> spaces_label count <> " available") ∷ [])
                    ∷ book_button garage
                    ∷ [])
                ∷ [])
            ∷ [])
        ∷ [])

  -- A panel in the middle of the map with a message.
  abbrev message_panel : String → Element
  message_panel message =
      node "Panel" (("position", "center-center") ∷ [])
        (node "div" [] (node "div" [] (text message ∷ []) ∷ []) ∷ [])

  abbrev loader : Bool → List Element
  loader loading =
      if loading
      then node "Panel" (("position", "center-bottom") ∷ []) (node "Loader" [] [] ∷ []) ∷ []
      else []

  unfoldable pub results_title : Bool → List Garage → String
  results_title loading garages =
      if loading then "Searching…" else to_string (length garages) <> " nearby results"

  unfoldable pub results_panel : (Garage → Element) → Bool → List Garage → Element
  unfolding results_title
  results_panel card loading garages = node "Panel" (("position", "left-bottom") ∷ []) (
      node "div" [] (
        node "div" [] (
          node "p" [] (text (results_title loading garages) ∷ [])
          ∷ node "p" [] (text "Prices are confirmed before checkout" ∷ [])
          ∷ [])
        ∷ [])
      ∷ node "div" [] (map card garages)
      ∷ [])

  abbrev marker : Garage → Element
  marker garage = node "GarageMarker" (("marker", garage.id) ∷ []) []

  -- What `ShowGarages` renders; the card is given the times of the form and its own state.
  unfoldable pub show_view : (Garage → Element) → View Garage → Element
  unfolding results_panel
  show_view card (failed message) = message_panel message
  show_view card none_found = message_panel "No parking slots found in this area."
  show_view card (found loading garages) =
      node "Fragment" []
        (loader loading ++ (map marker garages ++ results_panel card loading garages ∷ []))
