-- ===== src/Admin/Dashboard.antt =====
-- templates/AdminHome.tsx: what `AdminHome` renders, and its state.
use autospace_parking.Prelude.{
  ℕ, String, Bool, true, false, Option, none, some, List, [], ◌∷◌, ◌<>◌, ltb, length, if◌then◌else◌,
}
use mathlib.Core.List.{map}
use autospace_parking.Html.{Element, text, node, optional}
use autospace_parking.Admin.Listings.{
  Garage, VerificationFilter, all, pending, verified, is_verified, verified_count, pending_count,
  spaces_on_page, filtered_garages,
}
use autospace_parking.Admin.Card.{garage_admin_card}

-- The text in the search field and the filter that is pressed.
pub record Review : Type 0 where
  pub query : String
  pub verification_filter : VerificationFilter

unfoldable pub new_review : Review
new_review = record { query = ""; verification_filter = all }

unfoldable pub set_query : String → Review → Review
set_query query review = record review { query = query }

unfoldable pub set_verification_filter : VerificationFilter → Review → Review
set_verification_filter filter review = record review { verification_filter = filter }

-- The answer to the query: how many garages there are, and those of the page.
pub record Answer : Type 0 where
  pub garages_count : ℕ
  pub garages : List Garage

abbrev pub garages_of : Option Answer → List Garage
garages_of none = []
garages_of (some answer) = answer.garages

abbrev total_of : Option Answer → ℕ
total_of none = 0
total_of (some answer) = answer.garages_count

pub record Query : Type 0 where
  pub answer : Option Answer
  pub loading : Bool
  pub error : Option String
  pub skip : ℕ
  pub take : ℕ

-- What a `MetricCard` is given; `attention` only styles it.
pub record Metric : Type 0 where
  pub label : String
  pub value : ℕ
  pub detail : String
  pub attention : Bool

unfoldable pub metrics : Option Answer → List Metric
metrics answer =
    let garages = garages_of answer in
    record {
      label = "Total listings";
      value = total_of answer;
      detail = "Across the marketplace";
      attention = false;
    }
    ∷ record {
      label = "Awaiting verification";
      value = pending_count garages;
      detail = "On this review page";
      attention = ltb 0 (pending_count garages);
    }
    ∷ record {
      label = "Verified";
      value = verified_count garages;
      detail = "On this review page";
      attention = false;
    }
    ∷ record {
      label = "Parking spaces";
      value = spaces_on_page garages;
      detail = "Across visible listings";
      attention = false;
    }
    ∷ []

abbrev name_of : VerificationFilter → String
name_of all = "all"
name_of pending = "pending"
name_of verified = "verified"

abbrev same_filter : VerificationFilter → VerificationFilter → Bool
same_filter all all = true
same_filter pending pending = true
same_filter verified verified = true
same_filter _ _ = false

unfoldable pub filter_button : VerificationFilter → VerificationFilter → Element
filter_button pressed filter =
    node "button"
      (("aria-pressed", if same_filter pressed filter then "true" else "false")
        ∷ ("type", "button")
        ∷ [])
      (text (name_of filter) ∷ [])

unfoldable pub filters : Review → Element
unfolding filter_button
filters review = node "section" (("aria-label", "Listing queue filters") ∷ []) (
    node "label" [] (
      node "span" [] (text "Search listings" ∷ [])
      ∷ node "input"
          (("placeholder", "Search name, address, or listing ID")
            ∷ ("type", "search")
            ∷ ("value", review.query)
            ∷ [])
          []
      ∷ [])
    ∷ node "div" (("aria-label", "Filter listings by verification status") ∷ ("role", "group") ∷ [])
        (map (filter_button review.verification_filter) (all ∷ pending ∷ verified ∷ []))
    ∷ [])

-- The button of a garage, which depends on its verification.
unfoldable pub create_button : Garage → Element
create_button garage = node "CreateVerificationButton" (("garageId", garage.id) ∷ []) []

unfoldable pub remove_button : Garage → Element
remove_button garage = node "RemoveVerificationButton" (("garageId", garage.id) ∷ []) []

unfoldable pub verification_button : Garage → Element
verification_button garage =
    if is_verified garage then remove_button garage else create_button garage

-- `String(n)`, `n.toLocaleString()` and `toLocaleLowerCase` are parameters.
module _ (to_string to_locale_string : ℕ → String) (lower_case : String → String) where
  unfoldable pub metric_card : Metric → Element
  metric_card metric = node "article" [] (
      node "p" [] (text metric.label ∷ [])
      ∷ node "p" [] (text (to_locale_string metric.value) ∷ [])
      ∷ node "p" [] (text metric.detail ∷ [])
      ∷ [])

  unfoldable pub row : Garage → Element
  unfolding verification_button
  row garage =
      garage_admin_card to_string garage (node "div" [] (verification_button garage ∷ []) ∷ [])

  abbrev pub shown : Query → Review → List Garage
  shown query review =
      filtered_garages lower_case review.verification_filter review.query (garages_of query.answer)

  -- `ShowData`, a component from elsewhere, with what it is given.
  unfoldable pub queue : Query → Review → Element
  unfolding row
  queue query review =
      let garages = shown query review in
      node "ShowData"
        (optional "error" query.error (
          ("title", "Listing review queue (" <> to_string (length garages) <> " shown)")
          ∷ ("loading", if query.loading then "true" else "false")
          ∷ ("resultCount", to_string (length garages))
          ∷ ("totalCount", to_string (total_of query.answer))
          ∷ ("skip", to_string query.skip)
          ∷ ("take", to_string query.take)
          ∷ []))
        (map row garages)

  unfoldable pub show_garages : Query → Review → Element
  unfolding metrics metric_card filters queue
  show_garages query review = node "Fragment" [] (
      node "section" (("aria-label", "Listing overview") ∷ [])
        (map metric_card (metrics query.answer))
      ∷ filters review
      ∷ queue query review
      ∷ [])

  unfoldable pub admin_home : Query → Review → Element
  unfolding show_garages
  admin_home query review = node "div" [] (
      node "div" [] (
        node "p" [] (text "Marketplace operations" ∷ [])
        ∷ node "h1" [] (text "Listings command centre" ∷ [])
        ∷ node "p" [] (
            text
              "Review inventory, resolve verification work, and keep bookable spaces trustworthy."
            ∷ [])
        ∷ [])
      ∷ show_garages query review
      ∷ [])
