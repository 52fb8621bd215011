-- ===== src/Search/Screen/Invariant.antt =====
-- What holds of the search page, whatever is done to it.
use autospace_parking.Prelude.{
  ◌≡◌, ◌≢◌, refl, String, Bool, true, false, Option, none, some, List, [], ◌∷◌, if◌then◌else◌,
  arith, count_if, count_if-append, All, All-Memᴰ,
}
use autospace_parking.Location.{Search}
use autospace_parking.Location.Places.{LocationInfo}
use autospace_parking.Search.Form.{FormValues}
use autospace_parking.Search.Page.{is_search_mode}
use autospace_parking.Search.Adapter.{Ports, LocationFilter}
use autospace_parking.Search.PlaceBox.{Box, Flight, new_box, apply_initial, pick}
use autospace_parking.Search.Screen.{
  SearchMode, search_modes, TimeChecks, Bounds, Screen, filter_of, handle_map_change, load_map,
  set_mode, change_start, change_end, type_place, pick_place, render, Change, moves, loads, chooses,
  starts, ends, types, picks, looks_up, renders, Reach, here, next, opened,
}

abbrev automatic : {C : Type 0} → Flight C → Bool
automatic flight = flight.automatic

-- The box has flown by itself once if it has applied a place, and not otherwise.
abbrev pub FliesOnce : {C : Type 0} → Box C → Type 0
FliesOnce box = count_if automatic box.flights ≡ (if box.applied then 1 else 0)

module _ {C : Type 0} where
  apply_initial-FliesOnce :
      (has_map listens : Bool) (text : String) (found : List (LocationInfo C)) (box : Box C)
      → FliesOnce box
      → FliesOnce (apply_initial has_map listens text found box)
  unfolding apply_initial
  apply_initial-FliesOnce has_map listens text [] box h = ground arith
  apply_initial-FliesOnce has_map listens text (first ∷ more) box h = ground (
    arith,
    count_if-append automatic box.flights
        (record { automatic = true; center = first.lat_lng; zoom = 12 } ∷ []),
  )

  pick-FliesOnce :
      (has_map listens : Bool) (place : Option (LocationInfo C)) (box : Box C)
      → FliesOnce box
      → FliesOnce (pick has_map listens place box)
  unfolding pick
  pick-FliesOnce has_map listens none box h = h
  pick-FliesOnce has_map listens (some place) box h = ground (
    arith,
    count_if-append automatic box.flights
        (record { automatic = false; center = place.lat_lng; zoom = 12 } ∷ []),
  )

search_modes-IsSearchMode : All (λ mode. is_search_mode mode.value ≡ true) search_modes
unfolding is_search_mode
search_modes-IsSearchMode = (refl, (refl, (refl, tt)))

module _ (P : Ports) (T : TimeChecks) (or_zero : P.Coordinate → P.Coordinate) where
  -- The mode is known; the box has flown by itself once at most; where the map is there, an area is
  -- in the form; and an error that is shown of the end time is one of the two times that stand in
  -- the form.
  pub record IsConsistent (s : Screen P T or_zero) : Type 0 where
    pub known : is_search_mode s.product_mode ≡ true
    pub flies_once : FliesOnce s.box
    pub located : s.has_map ≡ true → s.location_filter ≢ none
    pub shown : s.end_error ≡ true → T.is_end_time_valid s.end_time s.start_time ≡ false

  Change-IsConsistent :
      {s u : Screen P T or_zero} → Change P T or_zero s u → IsConsistent s → IsConsistent u
  unfolding handle_map_change load_map set_mode change_start change_end type_place pick_place render
  Change-IsConsistent (moves bounds s) v = ground arith
  Change-IsConsistent (loads bounds s) v = ground arith
  Change-IsConsistent (chooses mode s m) v = record {
    known =
        All-Memᴰ (λ (x : SearchMode). is_search_mode x.value ≡ true) mode search_modes m
          search_modes-IsSearchMode;
    flies_once = v.flies_once;
    located = v.located;
    shown = v.shown;
  }
  Change-IsConsistent (starts now time s) v = record {
    known = v.known;
    flies_once = v.flies_once;
    located = v.located;
    shown = λ h. ground arith;
  }
  Change-IsConsistent (ends time s) v = record {
    known = v.known;
    flies_once = v.flies_once;
    located = v.located;
    shown = λ h. ground arith;
  }
  Change-IsConsistent (types text s) v = record {
    known = v.known;
    flies_once = v.flies_once;
    located = v.located;
    shown = v.shown;
  }
  Change-IsConsistent (picks place s) v = record {
    known = v.known;
    flies_once = pick-FliesOnce s.has_map false place s.box v.flies_once;
    located = v.located;
    shown = v.shown;
  }
  Change-IsConsistent (looks_up s step) v = record {
    known = v.known;
    flies_once = v.flies_once;
    located = v.located;
    shown = v.shown;
  }
  Change-IsConsistent (renders s) v = record {
    known = v.known;
    flies_once =
        apply_initial-FliesOnce s.has_map false s.destination s.search.location_info s.box
          v.flies_once;
    located = v.located;
    shown = v.shown;
  }

  -- Each state of a page that was opened with a known mode is consistent.
  pub Reach-IsConsistent :
      (values : FormValues) (search : Search P.Coordinate)
      → is_search_mode values.product_mode ≡ true
      → {s : Screen P T or_zero} → Reach P T or_zero (opened P T or_zero values search new_box) s
      → IsConsistent s
  unfolding opened
  Reach-IsConsistent values search known here = record {
    known = known;
    flies_once = refl;
    located = λ h. cc;
    shown = λ h. cc;
  }
  Reach-IsConsistent values search known (next r change) =
      Change-IsConsistent change (Reach-IsConsistent values search known r)

  -- What the map has told last of what it shows, if anything.
  abbrev pub last_bounds :
      {start s : Screen P T or_zero}
      → Reach P T or_zero start s
      → Option (Option (Bounds P.Coordinate))
  last_bounds here = none
  last_bounds (next r (moves bounds s)) = some bounds
  last_bounds (next r (loads bounds s)) = some bounds
  last_bounds (next r (chooses mode s m)) = last_bounds r
  last_bounds (next r (starts now time s)) = last_bounds r
  last_bounds (next r (ends time s)) = last_bounds r
  last_bounds (next r (types text s)) = last_bounds r
  last_bounds (next r (picks place s)) = last_bounds r
  last_bounds (next r (looks_up s step)) = last_bounds r
  last_bounds (next r (renders s)) = last_bounds r

  -- The latitudes and longitudes of the corners, each 0 if the map has no bounds.
  abbrev pub AreCorners : Option (Bounds P.Coordinate) → LocationFilter P P.Coordinate → Type 0
  AreCorners none l =
      (l.ne_lat ≡ P.origin) × (l.ne_lng ≡ P.origin) × (l.sw_lat ≡ P.origin) × (l.sw_lng ≡ P.origin)
  AreCorners (some b) l =
      (l.ne_lat ≡ or_zero b.north_east.0)
      × (l.ne_lng ≡ or_zero b.north_east.1)
      × (l.sw_lat ≡ or_zero b.south_west.0)
      × (l.sw_lng ≡ or_zero b.south_west.1)

  -- The area in the form is the one that the map has told last.
  abbrev pub Shows :
      Option (Option (Bounds P.Coordinate)) → Option (LocationFilter P P.Coordinate) → Type 0
  Shows none area = area ≡ none
  Shows (some bounds) area =
      (l : LocationFilter P P.Coordinate) × (area ≡ some l) × AreCorners bounds l

  filter_of-AreCorners :
      (bounds : Option (Bounds P.Coordinate)) → AreCorners bounds (filter_of P T or_zero bounds)
  unfolding filter_of
  filter_of-AreCorners none = (refl, refl, refl, refl)
  filter_of-AreCorners (some b) = (refl, refl, refl, refl)

  Reach-Shows :
      {start s : Screen P T or_zero} (r : Reach P T or_zero start s)
      → start.location_filter ≡ none
      → Shows (last_bounds r) s.location_filter
  unfolding handle_map_change load_map set_mode change_start change_end type_place pick_place render
  Reach-Shows here h = h
  Reach-Shows (next r (moves bounds s)) h =
      (filter_of P T or_zero bounds, refl, filter_of-AreCorners bounds)
  Reach-Shows (next r (loads bounds s)) h =
      (filter_of P T or_zero bounds, refl, filter_of-AreCorners bounds)
  Reach-Shows (next r (chooses mode s m)) h = Reach-Shows r h
  Reach-Shows (next r (starts now time s)) h = Reach-Shows r h
  Reach-Shows (next r (ends time s)) h = Reach-Shows r h
  Reach-Shows (next r (types text s)) h = Reach-Shows r h
  Reach-Shows (next r (picks place s)) h = Reach-Shows r h
  Reach-Shows (next r (looks_up s step)) h = Reach-Shows r h
  Reach-Shows (next r (renders s)) h = Reach-Shows r h

  -- However the search page is used after it was opened with a known mode: its mode is known, the
  -- input for places has moved the map by itself once at most, and an error shown at the end time
  -- is one of the two times that stand in the form; the area in the form is the one that the map
  -- has told last, by its load or by a move, with the four corners of its bounds in their places,
  -- or 0 for each where it told none, and there is no area before the map has told one.
  pub search_page_lem :
      (values : FormValues) (search : Search P.Coordinate)
      → is_search_mode values.product_mode ≡ true
      → {s : Screen P T or_zero}
        (r : Reach P T or_zero (opened P T or_zero values search new_box) s)
      → IsConsistent s × Shows (last_bounds r) s.location_filter
  unfolding opened
  search_page_lem values search known r =
      (Reach-IsConsistent values search known r, Reach-Shows r refl)
