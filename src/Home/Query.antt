-- ===== src/Home/Query.antt =====
-- From the form of the home page to the query of the search page.
use autospace_parking.Prelude.{
  String, ◌≡◌, ◌∙◌, ap, inl, inr, true, false, Option, none, some, List, arith, Bool-cases, subst,
}
use autospace_parking.Html.Form.{submit}
use autospace_parking.Home.{Mode, search_form}
use autospace_parking.Home.Submission.{is_filled, home_search, known}
use autospace_parking.Js.Text.{truthy}
use autospace_parking.Location.{Search}
use autospace_parking.Search.Adapter.{Ports, DirtyFields, Variables, convert, returned}
use autospace_parking.Search.Form.{FormValues, Times, default_values}
use autospace_parking.Search.Page.{params_of, initial_values, is_search_mode}
use autospace_parking.Search.PlaceBox.{new_box}
use autospace_parking.Search.Queries.{IsQuery}
use autospace_parking.Search.Screen.{TimeChecks, Screen, Reach, opened}
use autospace_parking.Search.Screen.Convert.{
  Sidebar, form_data_of, convert-Asks, AreUnedited, unedited,
}

-- The values that the search page at an address with this query begins with.
abbrev pub values_at : Times → List (String × String) → FormValues
values_at times query = default_values times (initial_values (params_of query))

-- The form was complete, and its values are those of the search form.
submitted :
    (m : Mode) (typed : String → String) (query : List (String × String)) (times : Times)
    → submit typed (search_form m) ≡ some query
    → let values = values_at times query in
      (is_search_mode values.product_mode ≡ true)
      × ((values.start_time ≡ typed "arrival") × (truthy (typed "arrival") ≡ true))
      × ((values.end_time ≡ typed "departure") × (truthy (typed "departure") ≡ true))
submitted m typed query times sent =
    let (_, empty, complete) = home_search m (λ s. s) (λ s. s) none typed times in
    elim (Bool-cases (is_filled typed)) [
      | inr gap ↦ cc (sent, empty gap)
      | inl filled ↦
          let (query', sent', (mode, _, start, end)) = complete filled in
          let same : query' ≡ query = ground (arith, sent, sent') in
          subst
            (λ (q : List (String × String)).
              let values = values_at times q in
              (is_search_mode values.product_mode ≡ true)
              × ((values.start_time ≡ typed "arrival") × (truthy (typed "arrival") ≡ true))
              × ((values.end_time ≡ typed "departure") × (truthy (typed "departure") ≡ true)))
            same (ap is_search_mode mode ∙ known m, (start, ground arith), (end, ground arith))
    ]

module _ (P : Ports) (T : TimeChecks) (or_zero : P.Coordinate → P.Coordinate) where
  -- The query asks for the two times, and for what the map shows.
  pub record AsksFor (typed : String → String) (s : Screen P T or_zero) (v : Variables P)
      : Type 0 where
    pub start : v.start ≡ typed "arrival"
    pub end : v.end ≡ typed "departure"
    pub area : s.location_filter ≡ some v.location_filter
    pub query : IsQuery P v

  -- If the form of the home page is submitted, and the search page that it leads to is used in any
  -- way but the two times, and its map has loaded: the variables that the form is then converted
  -- into are returned while it has no errors, and ask for the two times that were typed on the
  -- home page, for the area that stands in the form, for some garages, and for no filter of slots
  -- without a key.
  pub returned-submit :
      (m : Mode) (typed : String → String) (query : List (String × String)) (times : Times)
      (search : Search P.Coordinate) {s : Screen P T or_zero}
      → submit typed (search_form m) ≡ some query
      → (r : Reach P T or_zero (opened P T or_zero (values_at times query) search new_box) s)
      → AreUnedited P T or_zero r
      → s.has_map ≡ true
      → (dirty : DirtyFields) (bar : Sidebar P) (kept : Option (Variables P))
      → (v : Variables P) × (returned P false
            (convert P dirty (form_data_of P T or_zero bar s) kept)
          ≡ some v)
        × AsksFor typed s v
  unfolding opened
  returned-submit m typed query times search {s} sent r still loaded dirty bar kept =
      let (mode, (start, arrives), (end, departs)) = submitted m typed query times sent in
      let (same_start, same_end) = unedited P T or_zero r still in
      let from : s.start_time ≡ typed "arrival" = same_start ∙ start in
      let to : s.end_time ≡ typed "departure" = same_end ∙ end in
      let (v, asked, asks) =
        convert-Asks P T or_zero (values_at times query) search s mode r loaded (rw from arrives)
          (rw to departs) dirty bar kept in
      (
        v,
        asked,
        record {
          start = asks.start ∙ from;
          end = asks.end ∙ to;
          area = asks.area;
          query = asks.query;
        },
      )
