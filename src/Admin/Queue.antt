-- ===== src/Admin/Queue.antt =====
-- The buttons in the queue of listings.
use autospace_parking.Prelude.{
  ℕ, ◌≡◌, refl, ap, ◌∙◌, String, Bool, true, false, not, ◌&&◌, List, [], ◌∷◌, arith, Bool-cases,
  inl, inr, if◌then◌else◌,
}
use mathlib.Core.List.{map}
use autospace_parking.Js.Text.{trim}
use autospace_parking.Html.{Element, text, node, elements, tagged, all_tagged}
use autospace_parking.Admin.Listings.{
  Garage, pending, verified, is_verified, garages_that, filtered_garages, matches_status,
  matches_query,
}
use autospace_parking.Admin.Card.{garage_admin_card}
use autospace_parking.Admin.Dashboard.{
  Query, Review, garages_of, create_button, remove_button, verification_button, row, shown, queue,
}

-- The component of a button: of the one that takes a verification back, or of the one that makes it.
abbrev pub component : Bool → String
component true = "RemoveVerificationButton"
component false = "CreateVerificationButton"

abbrev pub button : Bool → Garage → Element
button true = remove_button
button false = create_button

abbrev pub is_of : Bool → Garage → Bool
is_of true garage = is_verified garage
is_of false garage = not (is_verified garage)

module _ (to_string to_locale_string : ℕ → String) (lower_case : String → String) where
  abbrev slot : ℕ → Element
  slot count = node "div" [] (node "span" [] (text (to_string count) ∷ []) ∷ [])

  tagged-slots :
      (b : Bool) (counts : List ℕ) → all_tagged (component b) (elements (map slot counts)) ≡ []
  unfolding tagged
  tagged-slots b [] = refl
  tagged-slots true (count ∷ counts) = tagged-slots true counts
  tagged-slots false (count ∷ counts) = tagged-slots false counts

  tagged-row :
      (b : Bool) (garage : Garage)
      → tagged (component b) (row to_string to_locale_string lower_case garage)
        ≡ (if is_of b garage then button b garage ∷ [] else [])
  unfolding tagged row garage_admin_card verification_button create_button remove_button
  tagged-row true garage = ground (arith, tagged-slots true garage.slot_counts)
  tagged-row false garage = ground (arith, tagged-slots false garage.slot_counts)

  tagged-rows :
      (b : Bool) (garages : List Garage)
      → all_tagged
          (component b)
          (elements (map (row to_string to_locale_string lower_case) garages))
        ≡ map (button b) (garages_that (is_of b) garages)
  unfolding tagged garages_that
  tagged-rows b [] = refl
  tagged-rows b (garage ∷ garages) =
      rw (tagged-row b garage, tagged-rows b garages)
        (elim (Bool-cases (is_of b garage)) [ inl e ↦ rw e refl | inr e ↦ rw e refl ])

  tagged-queue :
      (b : Bool) (query : Query) (review : Review)
      → tagged (component b) (queue to_string to_locale_string lower_case query review)
        ≡ map
            (button b)
            (garages_that (is_of b) (shown to_string to_locale_string lower_case query review))
  unfolding queue tagged
  tagged-queue true query review =
      tagged-rows true (shown to_string to_locale_string lower_case query review)
  tagged-queue false query review =
      tagged-rows false (shown to_string to_locale_string lower_case query review)

  garages_that-none :
      (b : Bool) (test : Garage → Bool) (garages : List Garage)
      → ((garage : Garage) → test garage ≡ true → is_of b garage ≡ false)
      → garages_that (is_of b) (garages_that test garages) ≡ []
  unfolding garages_that
  garages_that-none b test [] h = refl
  garages_that-none b test (garage ∷ garages) h = elim (Bool-cases (test garage)) [
    | inl e ↦ rw (e, h garage e, garages_that-none b test garages h) refl
    | inr e ↦ rw e (garages_that-none b test garages h)
  ]

  -- A filter shows no garage that would have the other button.
  shown-none :
      (b : Bool) (query : Query) (review : Review)
      → ((garage : Garage)
          → matches_status review.verification_filter garage ≡ true
          → is_of b garage ≡ false)
      → garages_that (is_of b) (shown to_string to_locale_string lower_case query review) ≡ []
  unfolding filtered_garages
  shown-none b query review h =
      garages_that-none b
        (λ garage.
          matches_status review.verification_filter garage
          && matches_query lower_case (lower_case (trim review.query)) garage)
        (garages_of query.answer) (λ garage shows. h garage (ground (arith, shows)))

  -- Of the garages shown to an administrator, in their order, those that are verified have a
  -- button that takes the verification back and the others one that makes it; under the filter of
  -- pending listings there is none of the first kind, and under that of verified ones none of the
  -- second.
  pub queue_lem :
      (query : Query) (review : Review) (b : Bool)
      → (tagged (component b) (queue to_string to_locale_string lower_case query review)
          ≡ map
              (button b)
              (garages_that (is_of b) (shown to_string to_locale_string lower_case query review)))
        × (review.verification_filter ≡ pending
            → tagged (component true) (queue to_string to_locale_string lower_case query review)
              ≡ [])
        × (review.verification_filter ≡ verified
            → tagged (component false) (queue to_string to_locale_string lower_case query review)
              ≡ [])
  queue_lem query review b = (
    tagged-queue b query review,
    λ only.
        tagged-queue true query review
        ∙ ap (map (button true)) (
            shown-none true query review
              (λ garage shows. unfold matches_status in ground (arith, only, shows))),
    λ only.
        tagged-queue false query review
        ∙ ap (map (button false)) (
            shown-none false query review
              (λ garage shows. unfold matches_status in ground (arith, only, shows))),
  )
