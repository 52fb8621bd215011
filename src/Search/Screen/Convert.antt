-- ===== src/Search/Screen/Convert.antt =====
-- The search page and the variables of its query: searchFormAdapter.ts reads the form that
-- SearchPage.tsx writes.
use autospace_parking.Prelude.{
  ℕ, ◌≡◌, refl, inl, inr, true, false, Option, none, some, List, Option-cases,
}
use autospace_parking.Js.Text.{truthy}
use autospace_parking.Location.{Search}
use autospace_parking.Search.Form.{SlotType, FormValues}
use autospace_parking.Search.Page.{is_search_mode}
use autospace_parking.Search.Adapter.{
  Ports, DirtyFields, FormData, LocationFilter, Variables, variables_of, convert, returned, located,
}
use autospace_parking.Search.Queries.{IsQuery, variables_of-IsQuery, convert_given}
use autospace_parking.Search.PlaceBox.{new_box}
use autospace_parking.Search.Screen.{
  TimeChecks, Screen, handle_map_change, load_map, set_mode, type_place, pick_place, render, moves,
  loads, chooses, starts, ends, types, picks, looks_up, renders, Reach, here, next, opened,
}
use autospace_parking.Search.Screen.Invariant.{Reach-IsConsistent}

module _ (P : Ports) where
  open P use {Range, Coordinate}

  -- What other parts of the page write into the form: the sidebar of the filters, and the list's pages.
  pub record Sidebar : Type 0 where
    pub length : Option Range
    pub width : Option Range
    pub height : Option Range
    pub price_per_hour : Option Range
    pub types : Option (List SlotType)
    pub skip : Option ℕ
    pub take : Option ℕ

  unfoldable pub given_area :
      Option (LocationFilter P Coordinate) → Option (LocationFilter P (Option Coordinate))
  given_area none = none
  given_area (some l) = some (record {
    ne_lat = some l.ne_lat;
    ne_lng = some l.ne_lng;
    sw_lat = some l.sw_lat;
    sw_lng = some l.sw_lng;
  })

module _ (P : Ports) (T : TimeChecks) (or_zero : P.Coordinate → P.Coordinate) where
  -- `useWatch()`: the values of the form.
  unfoldable pub form_data_of : Sidebar P → Screen P T or_zero → FormData P
  unfolding given_area
  form_data_of bar s = record {
    end_time = some s.end_time;
    start_time = some s.start_time;
    location_filter = given_area P s.location_filter;
    length = bar.length;
    width = bar.width;
    height = bar.height;
    price_per_hour = bar.price_per_hour;
    types = bar.types;
    skip = bar.skip;
    take = bar.take;
  }

  -- The query is that of what stands in the form.
  pub record Asks (s : Screen P T or_zero) (v : Variables P) : Type 0 where
    pub start : v.start ≡ s.start_time
    pub end : v.end ≡ s.end_time
    pub area : s.location_filter ≡ some v.location_filter
    pub query : IsQuery P v

  pub convert-Asks :
      (values : FormValues) (search : Search P.Coordinate) (s : Screen P T or_zero)
      → is_search_mode values.product_mode ≡ true
      → Reach P T or_zero (opened P T or_zero values search new_box) s
      → s.has_map ≡ true
      → truthy s.start_time ≡ true
      → truthy s.end_time ≡ true
      → (dirty : DirtyFields) (bar : Sidebar P) (kept : Option (Variables P))
      → (v : Variables P) × (returned P false (convert P dirty (form_data_of bar s) kept) ≡ some v)
        × Asks s v
  unfolding returned form_data_of variables_of located
  convert-Asks values search s known r loaded p q dirty bar kept =
      elim (Option-cases s.location_filter) [
        | inl nowhere ↦
            absurd ((Reach-IsConsistent P T or_zero values search known r).located loaded nowhere)
        | inr (area, there) ↦
            let given : LocationFilter P (Option P.Coordinate) = record {
              ne_lat = some area.ne_lat;
              ne_lng = some area.ne_lng;
              sw_lat = some area.sw_lat;
              sw_lng = some area.sw_lng;
            } in
            (
              variables_of P dirty (form_data_of bar s) s.start_time s.end_time given,
              convert_given P dirty (form_data_of bar s) s.start_time s.end_time given kept refl
                  refl p q (rw there refl),
              record {
                start = refl;
                end = refl;
                area = there;
                query =
                    variables_of-IsQuery P dirty (form_data_of bar s) s.start_time s.end_time given
                      p q;
              },
            )
      ]

  -- Neither of the times is changed.
  abbrev pub AreUnedited : {start s : Screen P T or_zero} → Reach P T or_zero start s → Type 0
  AreUnedited here = Unit
  AreUnedited (next r (starts now time s)) = ⊥
  AreUnedited (next r (ends time s)) = ⊥
  AreUnedited (next r (moves bounds s)) = AreUnedited r
  AreUnedited (next r (loads bounds s)) = AreUnedited r
  AreUnedited (next r (chooses mode s m)) = AreUnedited r
  AreUnedited (next r (types text s)) = AreUnedited r
  AreUnedited (next r (picks place s)) = AreUnedited r
  AreUnedited (next r (looks_up s step)) = AreUnedited r
  AreUnedited (next r (renders s)) = AreUnedited r

  pub unedited :
      {start s : Screen P T or_zero} (r : Reach P T or_zero start s)
      → AreUnedited r
      → (s.start_time ≡ start.start_time) × (s.end_time ≡ start.end_time)
  unfolding handle_map_change load_map set_mode type_place pick_place render
  unedited here h = (refl, refl)
  unedited (next r (starts now time s)) h = absurd h
  unedited (next r (ends time s)) h = absurd h
  unedited (next r (moves bounds s)) h = unedited r h
  unedited (next r (loads bounds s)) h = unedited r h
  unedited (next r (chooses mode s m)) h = unedited r h
  unedited (next r (types text s)) h = unedited r h
  unedited (next r (picks place s)) h = unedited r h
  unedited (next r (looks_up s step)) h = unedited r h
  unedited (next r (renders s)) h = unedited r h
