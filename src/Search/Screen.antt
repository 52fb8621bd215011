-- ===== src/Search/Screen.antt =====
-- SearchPage.tsx: the form of a search as its inputs, its buttons and the map change it, with the
-- input for places in it. Validation by `trigger` is taken as done when the handler returns; the
-- schema checks the two times only where the fields are all there and have their types.
pub mod Invariant
pub mod View
pub mod Convert
use autospace_parking.Prelude.{
  ℕ, ◌≡◌, ◌≢◌, String, Bool, true, false, ◌&&◌, not, Option, none, some, List, [], ◌∷◌,
  if◌then◌else◌,
}
use mathlib.Core.List.{Memᴰ}
use autospace_parking.Js.Text.{or_default}
use autospace_parking.Location.{Search, Step, effect}
use autospace_parking.Location.Places.{LocationInfo}
use autospace_parking.Search.Form.{FormValues}
use autospace_parking.Search.Page.{is_search_mode}
use autospace_parking.Search.Adapter.{Ports, LocationFilter}
use autospace_parking.Search.PlaceBox.{Box, apply_initial, pick}

pub record SearchMode : Type 0 where
  pub value : String
  pub label : String

-- `searchModes`
abbrev pub search_modes : List SearchMode
search_modes =
    record { value = "hourly-daily"; label = "Hourly & daily" }
    ∷ record { value = "monthly"; label = "Monthly" }
    ∷ record { value = "airport"; label = "Airport" }
    ∷ []

-- `isStartTimeValid` at the time of a check, and `isEndTimeValid` of the end and the start.
pub record TimeChecks : Type 1 where
  pub Time : Type 0
  pub is_start_time_valid : Time → String → Bool
  pub is_end_time_valid : String → String → Bool

-- The corners of what the map shows, and `n || 0` for a coordinate.
pub record Bounds (C : Type 0) : Type 0 where
  pub north_east : C × C
  pub south_west : C × C

is_some {ℓ} : {A : Type ℓ} → Option A → Bool
is_some none = false
is_some (some a) = true

module _ (P : Ports) (T : TimeChecks) (or_zero : P.Coordinate → P.Coordinate) where
  open P use {Coordinate}

  -- `bounds?.getNorthEast().lat || 0` and so on: each corner is a latitude and a longitude.
  unfoldable pub filter_of : Option (Bounds Coordinate) → LocationFilter P Coordinate
  filter_of none = record {
    ne_lat = P.origin;
    ne_lng = P.origin;
    sw_lat = P.origin;
    sw_lng = P.origin;
  }
  filter_of (some bounds) = record {
    ne_lat = or_zero bounds.north_east.0;
    ne_lng = or_zero bounds.north_east.1;
    sw_lat = or_zero bounds.south_west.0;
    sw_lng = or_zero bounds.south_west.1;
  }

  -- The form's values that the page changes, which of the times has an error, the hook of the input
  -- for places and the text in it, and whether the map is there.
  pub record Screen : Type 0 where
    pub product_mode : String
    pub destination : String
    pub start_time : String
    pub end_time : String
    pub location_filter : Option (LocationFilter P Coordinate)
    pub start_error : Bool
    pub end_error : Bool
    pub search : Search Coordinate
    pub search_text : String
    pub box : Box Coordinate
    pub has_map : Bool

  unfoldable pub handle_map_change : Option (Bounds Coordinate) → Screen → Screen
  handle_map_change bounds s = record s { location_filter = some (filter_of bounds) }

  -- `onLoad` of the map.
  unfoldable pub load_map : Option (Bounds Coordinate) → Screen → Screen
  unfolding handle_map_change
  load_map bounds s = handle_map_change bounds (record s { has_map = true })

  unfoldable pub set_mode : SearchMode → Screen → Screen
  set_mode mode s = record s { product_mode = mode.value }

  -- Of the fields, the area is missing until the map has told it, and the mode must be one of three.
  unfoldable pub parses : Screen → Bool
  unfolding is_some
  parses s = is_search_mode s.product_mode && is_some s.location_filter

  -- `trigger('startTime')` and `trigger('endTime')`
  unfoldable pub trigger_start : T.Time → Screen → Screen
  trigger_start now s = record s {
    start_error = parses s && not (T.is_start_time_valid now s.start_time);
  }

  unfoldable pub trigger_end : Screen → Screen
  trigger_end s = record s {
    end_error = parses s && not (T.is_end_time_valid s.end_time s.start_time);
  }

  unfoldable pub change_start : T.Time → String → Screen → Screen
  unfolding trigger_start trigger_end
  change_start now time s = trigger_end (trigger_start now (record s { start_time = time }))

  unfoldable pub change_end : String → Screen → Screen
  unfolding trigger_end
  change_end time s = trigger_end (record s { end_time = time })

  -- The user types a place: `setSearchText`, and `setValue('destination', …)`.
  unfoldable pub type_place : String → Screen → Screen
  type_place text s = record s { search_text = text; destination = text }

  unfoldable pub pick_place : Option (LocationInfo Coordinate) → Screen → Screen
  pick_place place s = record s { box = pick s.has_map false place s.box }

  -- The effect of the input for places, after a render; the page has no listener.
  unfoldable pub render : Screen → Screen
  render s = record s {
    box = apply_initial s.has_map false s.destination s.search.location_info s.box;
  }

  pub data Change : Screen → Screen → Type 0 where
    moves :
        (bounds : Option (Bounds Coordinate)) (s : Screen) → Change s (handle_map_change bounds s)
    loads : (bounds : Option (Bounds Coordinate)) (s : Screen) → Change s (load_map bounds s)
    chooses : (mode : SearchMode) (s : Screen) → Memᴰ mode search_modes → Change s (set_mode mode s)
    starts : (now : T.Time) (time : String) (s : Screen) → Change s (change_start now time s)
    ends : (time : String) (s : Screen) → Change s (change_end time s)
    types : (text : String) (s : Screen) → Change s (type_place text s)
    picks : (place : Option (LocationInfo Coordinate)) (s : Screen) → Change s (pick_place place s)
    -- The debounced text is looked up, or a request ends.
    looks_up :
        {search : Search Coordinate} (s : Screen)
        → Step Coordinate s.search search
        → Change s (record s { search = search })
    renders : (s : Screen) → Change s (render s)

  pub data Reach (start : Screen) : Screen → Type 0 where
    here : Reach start start
    next : {s u : Screen} → Reach start s → Change s u → Reach start u

  -- The page as it is opened with the form's values.
  unfoldable pub opened : FormValues → Search Coordinate → Box Coordinate → Screen
  opened values search box = record {
    product_mode = values.product_mode;
    destination = values.destination;
    start_time = values.start_time;
    end_time = values.end_time;
    location_filter = none;
    start_error = false;
    end_error = false;
    search = search;
    search_text = values.destination;
    box = box;
    has_map = false;
  }
