-- ===== src/Search/Page.antt =====
-- search/page.tsx: the values that the page takes from its address.
use autospace_parking.Prelude.{
  String, ◌≡◌, refl, Bool, true, false, ◌||◌, Option, none, some, List, [], ◌∷◌, ◌==◌,
  if◌then◌else◌, Bool-cases, inl, inr,
}
use autospace_parking.Html.{Element, node, optional}
use autospace_parking.Js.Text.{truthy, or_default}
use autospace_parking.Search.Form.{InitialValues, Times, default_values, search_product_modes}

-- `searchParams.get` of each name.
pub record SearchParams : Type 0 where
  pub mode : Option String
  pub destination : Option String
  pub arrival : Option String
  pub departure : Option String

-- `searchParams.get`: the first value of a name in the query.
unfoldable pub param : String → List (String × String) → Option String
param name [] = none
param name ((n, value) ∷ more) = if n == name then some value else param name more

unfoldable pub params_of : List (String × String) → SearchParams
unfolding param
params_of query = record {
  mode = param "mode" query;
  destination = param "destination" query;
  arrival = param "arrival" query;
  departure = param "departure" query;
}

-- `isSearchMode`
unfoldable pub is_search_mode : String → Bool
is_search_mode mode = some_is search_product_modes
  where
    some_is : List String → Bool
    some_is [] = false
    some_is (m ∷ ms) = m == mode || some_is ms

known_mode : Option String → String
known_mode none = "hourly-daily"
known_mode (some mode) = if is_search_mode mode then mode else "hourly-daily"

nonempty : Option String → Option String
nonempty none = none
nonempty (some text) = if truthy text then some text else none

unfoldable pub initial_values : SearchParams → InitialValues
unfolding known_mode nonempty
initial_values params = record {
  product_mode = some (known_mode params.mode);
  destination = some (or_default params.destination "");
  start_time = nonempty params.arrival;
  end_time = nonempty params.departure;
}

-- What the page renders: the provider of the form, with the values, around the search page.
unfoldable pub search_with_parameters : SearchParams → Element
search_with_parameters params =
    let values = initial_values params in
    node "FormProviderSearchGarage"
      (optional "productMode" values.product_mode (
        optional "destination" values.destination
          (optional "startTime" values.start_time (optional "endTime" values.end_time []))))
      (node "SearchPage" [] [] ∷ [])

-- What is shown until then is an empty element.
unfoldable pub page : SearchParams → Element
unfolding search_with_parameters
page params = node "Suspense" [] (search_with_parameters params ∷ [])

known_mode-IsSearchMode : (mode : Option String) → is_search_mode (known_mode mode) ≡ true
unfolding known_mode
known_mode-IsSearchMode none = unfold is_search_mode in refl
known_mode-IsSearchMode (some mode) = elim (Bool-cases (is_search_mode mode)) [
  | inl e ↦ rw (e, e)
  | inr e ↦ rw e (unfold is_search_mode in refl)
]

nonempty_truthy :
    (text : Option String) (fallback : String)
    → truthy fallback ≡ true
    → truthy (or_default (nonempty text) fallback) ≡ true
unfolding nonempty
nonempty_truthy none fallback h = h
nonempty_truthy (some text) fallback h = elim (Bool-cases (truthy text)) [
  | inl e ↦ rw (e, e)
  | inr e ↦ rw e h
]

-- Whatever the page's address holds, the search form begins with a mode that it knows and with
-- times that are not empty, if the current times are not; a mode that is known and an arrival that
-- is given are taken as they are.
default_values_lem :
    (params : SearchParams) (times : Times)
    → truthy times.start_time ≡ true
    → truthy times.end_time ≡ true
    → let values = default_values times (initial_values params) in
      (is_search_mode values.product_mode ≡ true)
      × (truthy values.start_time ≡ true)
      × (truthy values.end_time ≡ true)
      × ((mode : String)
          → params.mode ≡ some mode
          → is_search_mode mode ≡ true
          → values.product_mode ≡ mode)
      × ((arrival : String)
          → params.arrival ≡ some arrival
          → truthy arrival ≡ true
          → values.start_time ≡ arrival)
unfolding default_values initial_values known_mode nonempty
default_values_lem params times p q = (
  known_mode-IsSearchMode params.mode,
  nonempty_truthy params.arrival times.start_time p,
  nonempty_truthy params.departure times.end_time q,
  λ mode given known. rw (given, known),
  λ arrival given set. rw (given, set),
)

-- An address in which everything is given is taken as it is.
pub given_values :
    (mode destination arrival departure : String) (times : Times)
    → is_search_mode mode ≡ true
    → truthy arrival ≡ true
    → truthy departure ≡ true
    → let values = default_values times (
        initial_values (record {
          mode = some mode;
          destination = some destination;
          arrival = some arrival;
          departure = some departure;
        })) in
      (values.product_mode ≡ mode)
      × (values.destination ≡ destination)
      × (values.start_time ≡ arrival)
      × (values.end_time ≡ departure)
unfolding default_values initial_values
given_values mode destination arrival departure times p q r =
    (rw (known_mode, p), refl, rw (nonempty, q), rw (nonempty, r))
