-- ===== src/Home/Request.antt =====
-- From the form of the home page to the request of the search page's results.
use autospace_parking.Prelude.{
  String, ◌≡◌, refl, subst, ap, true, false, Option, none, some, List, [], ◌∷◌,
}
use autospace_parking.Html.Form.{submit}
use autospace_parking.Home.{Mode, search_form}
use autospace_parking.Home.Query.{values_at, AsksFor, returned-submit}
use autospace_parking.Location.{Search}
use autospace_parking.Search.Adapter.{Ports, DirtyFields, FormData, Variables, convert, returned}
use autospace_parking.Search.Form.{Times}
use autospace_parking.Search.PlaceBox.{new_box}
use autospace_parking.Search.Screen.{TimeChecks, Screen, Reach, opened}
use autospace_parking.Search.Screen.Convert.{Sidebar, form_data_of, AreUnedited}
use autospace_parking.Search.Panel.{Panel, settle_form, search_effect, variables, settles, next}
use autospace_parking.Search.Panel as Panel
use autospace_parking.Search.Panel.Asked.{Leads, Shows, search_effect_lem}

module _ (P : Ports) where
  Leads-cons :
      (v : Variables P) (asked : List (Variables P))
      → Leads P (some v) asked
      → (earlier : List (Variables P)) × (asked ≡ v ∷ earlier)
  Leads-cons v [] h = absurd h
  Leads-cons v (last ∷ earlier) h = (earlier, ap (λ x. x ∷ earlier) h)

  -- The debounce lets a form through that is complete and has no errors.
  settled_variables :
      (dirty : DirtyFields) (form : FormData P) (v : Variables P) (p : Panel P)
      → p.has_errors ≡ false
      → convert P dirty form none ≡ some v
      → variables P (settle_form P dirty form p) ≡ some v
  unfolding variables settle_form returned
  settled_variables dirty form v p valid set = rw (set, valid) refl

module _ (P : Ports) (T : TimeChecks) (or_zero : P.Coordinate → P.Coordinate) where
  -- If the form of the home page is submitted, and the search page that it leads to is used in any
  -- way but the two times, and its map has loaded: when the debounce lets the form of that page
  -- through while it has no errors, whatever the panel of the results has done before, the last
  -- request that the panel has made after its effect asks for the two times that were typed on the
  -- home page, for the area that stands in the form, for some garages, and for no filter of slots
  -- without a key.
  pub requested-submit :
      (m : Mode) (typed : String → String) (query : List (String × String)) (times : Times)
      (search : Search P.Coordinate) {s : Screen P T or_zero}
      → submit typed (search_form m) ≡ some query
      → (r : Reach P T or_zero (opened P T or_zero (values_at times query) search new_box) s)
      → AreUnedited P T or_zero r
      → s.has_map ≡ true
      → (dirty : DirtyFields) (bar : Sidebar P) {p : Panel P} → Panel.Reach P p
      → p.has_errors ≡ false
      → let asked =
          (search_effect P (settle_form P dirty (form_data_of P T or_zero bar s) p)).asked in
        (v : Variables P) × (earlier : List (Variables P)) × (asked ≡ v ∷ earlier)
        × AsksFor P T or_zero typed s v
  unfolding returned
  requested-submit m typed query times search {s} sent r still loaded dirty bar {p} run valid =
      let form = form_data_of P T or_zero bar s in
      let (v, set, asks) =
        returned-submit P T or_zero m typed query times search sent r still loaded dirty bar none in
      let (_, shows, _) = search_effect_lem P (next run (settles dirty form p)) in
      let now = settled_variables P dirty form v p valid set in
      let q = settle_form P dirty form p in
      let leads =
        subst (λ (x : Option (Variables P)). Shows P x q.asked (search_effect P q).asked) now
          shows in
      let (earlier, first) = Leads-cons P v (search_effect P q).asked leads in
      (v, earlier, first, asks)
