-- ===== src/Search/Cards.antt =====
-- What a card of a garage says and allows.
use autospace_parking.Prelude.{
  ℕ, ◌+◌, ◌≡◌, refl, ◌∙◌, ◌⊎◌, ◌↔◌, inl, inr, String, ◌<>◌, Bool, true, false, Option, none, some,
  List, [], ◌∷◌, All, arith,
}
use autospace_parking.Html.{text, node, flag, elements, tagged, all_tagged}
use autospace_parking.Search.Results.{
  SlotGroup, count_from, available_count, is_disabled, lowest_price, IsLowest, lowest_price_lem,
}
use autospace_parking.Search.Card.{
  Garage, picture, verified_badge, price_label, book_button, booking_dialog, search_garage_card,
}

abbrev pub HasNone : List SlotGroup → Type 0
HasNone groups = All (λ group. group.count ≡ 0) groups

count_from-HasNone :
    (groups : List SlotGroup) (total : ℕ) → HasNone groups → count_from total groups ≡ total
unfolding count_from
count_from-HasNone [] total h = refl
count_from-HasNone (group ∷ groups) total (none_here, none_below) =
    count_from-HasNone groups (total + group.count) none_below ∙ omega (arith, none_here)

count_from_zero :
    (groups : List SlotGroup) (total : ℕ)
    → count_from total groups ≡ 0
    → (total ≡ 0) × HasNone groups
unfolding count_from
count_from_zero [] total h = (h, tt)
count_from_zero (group ∷ groups) total h =
    let (zero_here, none_below) = count_from_zero groups (total + group.count) h in
    (omega (arith, zero_here), (omega (arith, zero_here), none_below))

is_disabled_lem : (groups : List SlotGroup) → (is_disabled groups ≡ true) ↔ HasNone groups
unfolding is_disabled available_count
is_disabled_lem groups = (
  λ disabled. (count_from_zero groups 0 (ground (arith, disabled))).1,
  λ has_none. rw (count_from-HasNone groups 0 has_none) refl,
)

badge_buttons :
    (verification : Option Bool) → all_tagged "button" (elements (verified_badge verification)) ≡ []
unfolding tagged
badge_buttons none = refl
badge_buttons (some true) = refl
badge_buttons (some false) = refl

module _ (to_string to_fixed : ℕ → String) where
  picture_buttons :
      (images : List String) → tagged "button" (picture to_string to_fixed images) ≡ []
  unfolding tagged
  picture_buttons [] = refl
  picture_buttons (image ∷ images) = refl

  buttons :
      (booking_open : Bool) (start_time end_time : String) (garage : Garage)
      → tagged "button"
          (search_garage_card to_string to_fixed booking_open start_time end_time garage)
        ≡ book_button to_string to_fixed garage ∷ []
  unfolding tagged search_garage_card booking_dialog book_button
  buttons booking_open start_time end_time garage =
      rw (picture_buttons garage.images, badge_buttons garage.verification) refl

  -- The only button of a garage's card books it, and is disabled exactly if no group of its slots
  -- has one free; the card says that it has no price exactly if there are no groups, and otherwise
  -- names the lowest price among them.
  card_lem :
      (booking_open : Bool) (start_time end_time : String) (garage : Garage)
      → let groups = garage.available_slots in
        (tagged "button"
            (search_garage_card to_string to_fixed booking_open start_time end_time garage)
          ≡ node "button"
              (("type", "button") ∷ flag (is_disabled groups) "disabled" [])
              (text "View and book" ∷ [])
            ∷ [])
        × ((is_disabled groups ≡ true) ↔ HasNone groups)
        × (((groups ≡ []) × (price_label to_string to_fixed (lowest_price groups) ≡ "—"))
            ⊎ ((price : ℕ) × (price_label to_string to_fixed (lowest_price groups)
                  ≡ "$" <> to_fixed price)
                × IsLowest price groups))
  unfolding book_button price_label
  card_lem booking_open start_time end_time garage = (
    buttons booking_open start_time end_time garage,
    is_disabled_lem garage.available_slots,
    elim (lowest_price_lem garage.available_slots) [
      | inl (empty, none_lowest) ↦ inl (empty, rw none_lowest refl)
      | inr (price, lowest, least) ↦ inr (price, rw lowest refl, least)
    ],
  )
