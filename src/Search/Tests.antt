-- ===== src/Search/Tests.antt =====
-- The form, the page's values and the query, on concrete inputs.
use autospace_parking.Prelude.{All, ℕ, ◌+◌, ◌≡◌, refl, true, false, none, some, [], ◌∷◌}
use autospace_parking.Search.Form.{
  Dates, Times, slice, get_current_time_and_one_hour_later, default_values,
}
use autospace_parking.Html.{node, text}
use autospace_parking.Search.PlaceBox.{search_place_box}
use autospace_parking.Search.Page.{page, SearchParams, initial_values, is_search_mode}
use autospace_parking.Search.Adapter.{
  DirtyFields, Ports, FormData, Variables, convert, convert_all, returned, variables_of,
  create_slots_filter, create_garages_filter,
}
use autospace_parking.Search.Queries.{IsQuery}
use autospace_parking.Search.Panel as Panel
use autospace_parking.Search.Panel.{
  Panel, new_panel, settle_form, validate, variables, identity, search_effect, settles, validates,
  renders,
}
use autospace_parking.Search.Panel.Asked.{Shows, search_effect_lem}

abbrev params : SearchParams
params = record {
  mode = some "weekly";
  destination = none;
  arrival = some "2024-09-16T10:00";
  departure = some "";
}

abbrev pub times : Times
times = record { start_time = "2024-09-16T09:05"; end_time = "2024-09-16T10:05" }

abbrev dates : Dates
dates = record {
  Date = ℕ;
  add_minutes = λ n date. date + n;
  add_hours = λ n date. date + n;
  to_local_iso_string = λ date. "2024-09-16T09:05:00.000";
}

times_run : (get_current_time_and_one_hour_later dates 0).start_time ≡ "2024-09-16T09:05"
unfolding get_current_time_and_one_hour_later slice
times_run = refl

values_run : (default_values times (initial_values params)).product_mode ≡ "hourly-daily"
unfolding default_values initial_values is_search_mode
values_run = refl

-- A filter is the pair of bounds itself.
abbrev pub ports : Ports
ports = record {
  Range = ℕ × ℕ;
  IntFilter = ℕ × ℕ;
  int_filter = λ range. range;
  Coordinate = ℕ;
  origin = 0;
}

abbrev dirty : DirtyFields
dirty = record {
  length = true;
  width = false;
  height = false;
  price_per_hour = false;
  types = false;
  skip = true;
  take = false;
}

abbrev form : FormData ports
form = record {
  end_time = some "2024-09-16T11:00";
  start_time = some "2024-09-16T10:00";
  location_filter =
      some (record { ne_lat = some 52; ne_lng = none; sw_lat = some 51; sw_lng = none });
  length = some (3, 20);
  width = some (0, 20);
  height = none;
  price_per_hour = none;
  types = none;
  skip = some 0;
  take = none;
}

abbrev query : Variables ports
query = record {
  start = "2024-09-16T10:00";
  end = "2024-09-16T11:00";
  location_filter = record { ne_lat = 52; ne_lng = 0; sw_lat = 51; sw_lng = 0 };
  slots_filter = some (record {
    length = some (3, 20);
    width = none;
    height = none;
    price_per_hour = none;
    type = none;
  });
  garage_filter = some (record { skip = none; take = some 10 });
}

query_run : returned ports false (convert_all ports ((dirty, form) ∷ []) none) ≡ some query
unfolding returned convert_all convert variables_of create_slots_filter create_garages_filter
query_run = refl

-- The form settles, the panel asks, and then the form has an error.
abbrev asking : Panel ports
asking = search_effect ports (settle_form ports dirty form (new_panel ports))

abbrev broken : Panel ports
broken = validate ports true asking

panel_run :
    (asking.asked ≡ query ∷ [])
    × ((search_effect ports broken).asked ≡ query ∷ [])
    × ((search_effect ports (validate ports false (search_effect ports broken))).asked
        ≡ query ∷ query ∷ [])
unfolding search_effect settle_form identity variables returned convert variables_of
    create_slots_filter create_garages_filter
panel_run = (refl, refl, refl)

broken_reached : Panel.Reach ports broken
broken_reached =
    Panel.next
      (Panel.next (Panel.next Panel.here (settles dirty form (new_panel ports))) (renders _))
      (validates true asking)

search_effect_lem_example :
    let after = search_effect ports broken in
    All (IsQuery ports) after.asked
    × Shows ports (variables ports broken) broken.asked after.asked
    × (search_effect ports after ≡ after)
search_effect_lem_example = search_effect_lem ports broken_reached

page_run :
    page params
    ≡ node "Suspense" [] (
        node "FormProviderSearchGarage"
          (("productMode", "hourly-daily")
            ∷ ("destination", "")
            ∷ ("startTime", "2024-09-16T10:00")
            ∷ [])
          (node "SearchPage" [] [] ∷ [])
        ∷ [])
unfolding page initial_values is_search_mode
page_run = refl

-- Major cities are offered as long as nothing is found.
box_run :
    search_place_box {C = ℕ} (record { place_name = "London"; lat_lng = (51, 0) } ∷ []) "" [] true
    ≡ node "Autocomplete"
        (("inputValue", "") ∷ ("noOptionsText", "Type something...") ∷ ("loading", "") ∷ [])
        (node "option" [] (text "London" ∷ []) ∷ [])
unfolding search_place_box
box_run = refl
