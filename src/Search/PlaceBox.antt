-- ===== src/Search/PlaceBox.antt =====
-- SearchPlacesBox.tsx: the input that looks places up, and moves the map. A position is a latitude
-- and a longitude, of a type that is left open.
use autospace_parking.Prelude.{
  ℕ, String, Bool, true, false, not, ◌||◌, Option, none, some, List, [], ◌∷◌, ◌++◌, if◌then◌else◌,
  ◌==◌,
}
use mathlib.Core.List.{map}
use autospace_parking.Html.{Element, text, node, flag}
use autospace_parking.Js.Text.{truthy}
use autospace_parking.Location.Places.{LocationInfo}

-- A flight of the map: by the box itself, or to the option that was picked.
pub record Flight (C : Type 0) : Type 0 where
  pub automatic : Bool
  pub center : C × C
  pub zoom : ℕ

-- `hasAppliedInitialLocation`, the flights that were asked for, and the calls of
-- `onLocationChange`, both in order.
pub record Box (C : Type 0) : Type 0 where
  pub applied : Bool
  pub flights : List (Flight C)
  pub changes : List (C × C)

unfoldable pub no_options_text : String → String
no_options_text search_text = if truthy search_text then "No options." else "Type something..."

module _ {C : Type 0} where
  abbrev pub new_box : Box C
  new_box = record { applied = false; flights = []; changes = [] }

  -- `map?.flyTo(…)`, where there is a map.
  abbrev fly : Bool → Flight C → Box C → Box C
  fly has_map flight box =
      if has_map then record box { flights = box.flights ++ flight ∷ [] } else box

  -- `onLocationChange?.(…)`, where there is a listener.
  abbrev tell : Bool → C × C → Box C → Box C
  tell listens position box =
      if listens then record box { changes = box.changes ++ position ∷ [] } else box

  apply_first : Bool → List (LocationInfo C) → Box C → Box C
  apply_first listens [] box = box
  apply_first listens (first ∷ more) box = tell listens first.lat_lng (
      fly true (record { automatic = true; center = first.lat_lng; zoom = 12 })
        (record box { applied = true }))

  -- The effect: whether there is a map, and a listener.
  unfoldable pub apply_initial : Bool → Bool → String → List (LocationInfo C) → Box C → Box C
  unfolding apply_first
  apply_initial has_map listens initial_search_text location_info box =
      if not (truthy initial_search_text) || box.applied || not has_map
      then box
      else apply_first listens location_info box

  -- `onChange` of the input: an option was picked, or the input was cleared.
  unfoldable pub pick : Bool → Bool → Option (LocationInfo C) → Box C → Box C
  pick has_map listens none box = box
  pick has_map listens (some place) box =
      tell listens place.lat_lng
        (fly has_map (record { automatic = false; center = place.lat_lng; zoom = 12 }) box)

  -- The options of the input: major cities, as long as nothing is found.
  unfoldable pub options : List (LocationInfo C) → List (LocationInfo C) → List (LocationInfo C)
  options major_cities [] = major_cities
  options major_cities (place ∷ places) = place ∷ places

  unfoldable pub is_option_equal : LocationInfo C → LocationInfo C → Bool
  is_option_equal option value = option.place_name == value.place_name

  option_element : LocationInfo C → Element
  option_element place = node "option" [] (text place.place_name ∷ [])

  -- What the box renders, of the text in it, the places found and whether more are looked up: the
  -- input with its options by their labels.
  unfoldable pub search_place_box :
      List (LocationInfo C) → String → List (LocationInfo C) → Bool → Element
  unfolding option_element no_options_text options
  search_place_box major_cities search_text location_info loading =
      node "Autocomplete"
        (("inputValue", search_text)
          ∷ ("noOptionsText", no_options_text search_text)
          ∷ flag loading "loading" [])
        (map option_element (options major_cities location_info))
