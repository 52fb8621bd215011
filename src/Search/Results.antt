-- ===== src/Search/Results.antt =====
-- The results of a search: organisms/search/ShowGarages.tsx decides what is shown, and
-- SearchGarageCard.tsx works out a garage's card. Prices and counts are natural numbers.
use autospace_parking.Prelude.{
  ℕ, ◌+◌, ◌≤◌, ◌≡◌, refl, ◌⊎◌, inl, inr, Bool, true, false, not, ◌&&◌, ◌||◌, Option, none, some,
  List, [], ◌∷◌, ltb, eqb, if◌then◌else◌, arith, All, Bool-cases, String,
}
use mathlib.Core.List.{Memᴰ}
use autospace_parking.Js.Text.{or_default}

-- A group of free slots of one type and price.
pub record SlotGroup : Type 0 where
  pub count : ℕ
  pub price_per_hour : ℕ

unfoldable pub count_from : ℕ → List SlotGroup → ℕ
count_from total [] = total
count_from total (group ∷ groups) = count_from (total + group.count) groups

unfoldable pub available_count : List SlotGroup → ℕ
available_count groups = count_from 0 groups

lower : Option ℕ → ℕ → ℕ
lower none price = price
lower (some lowest) price = if ltb price lowest then price else lowest

unfoldable pub lowest_from : Option ℕ → List SlotGroup → Option ℕ
unfolding lower
lowest_from lowest [] = lowest
lowest_from lowest (group ∷ groups) = lowest_from (some (lower lowest group.price_per_hour)) groups

unfoldable pub lowest_price : List SlotGroup → Option ℕ
lowest_price groups = lowest_from none groups

-- The button that opens the booking is disabled.
unfoldable pub is_disabled : List SlotGroup → Bool
unfolding available_count
is_disabled groups = eqb (available_count groups) 0

-- What a search shows: its error; that nothing is found; or the garages, and whether it goes on.
pub data View {ℓ} (Garage : Type ℓ) : Type ℓ where
  failed : String → View Garage
  none_found : View Garage
  found : Bool → List Garage → View Garage

is_empty {ℓ} : {A : Type ℓ} → List A → Bool
is_empty [] = true
is_empty (x ∷ xs) = false

-- From the state of the query: its data and those before, its error, whether it or the debounce of
-- the form goes on.
unfoldable pub show_garages {ℓ} :
    {Garage : Type ℓ}
    → (debouncing garages_loading : Bool) (current previous : Option (List Garage))
      (error : Option String)
    → View Garage
unfolding is_empty
show_garages debouncing garages_loading current previous (some message) = failed message
show_garages debouncing garages_loading current previous none =
    let garages = or_default current (or_default previous []) in
    let loading = debouncing || garages_loading in
    if not loading && is_empty garages then none_found else found loading garages

-- `price` is that of one of the groups, and no group has a lower one.
pub record IsLowest (price : ℕ) (groups : List SlotGroup) : Type 0 where
  pub offered : (group : SlotGroup) × Memᴰ group groups × (price ≡ group.price_per_hour)
  pub least : All (λ group. price ≤ group.price_per_hour) groups

-- What the reduction has come to is the lowest price so far.
lowest_from_lem :
    (groups : List SlotGroup) (lowest : ℕ)
    → (price : ℕ) × (lowest_from (some lowest) groups ≡ some price)
      × (price ≤ lowest)
      × All (λ group. price ≤ group.price_per_hour) groups
      × ((price ≡ lowest)
          ⊎ ((group : SlotGroup) × Memᴰ group groups × (price ≡ group.price_per_hour)))
unfolding lowest_from
lowest_from_lem [] lowest = (lowest, refl, omega arith, tt, inl refl)
lowest_from_lem (group ∷ groups) lowest = elim (Bool-cases (ltb group.price_per_hour lowest)) [
  | inl less ↦
      let (price, same, below, all, where_from) = lowest_from_lem groups group.price_per_hour in
      (
        price,
        rw less same,
        ground arith,
        (below, all),
        inr (elim where_from [
          | inl e ↦ (group, Memᴰ.head refl, e)
          | inr (g, m, e) ↦ (g, Memᴰ.tail m, e)
        ]),
      )
  | inr more ↦
      let (price, same, below, all, where_from) = lowest_from_lem groups lowest in
      (
        price,
        rw more same,
        below,
        (ground arith, all),
        elim where_from [ inl e ↦ inl e | inr (g, m, e) ↦ inr (g, Memᴰ.tail m, e) ],
      )
]

-- A garage's card has no price exactly when the garage has no groups of free slots, and otherwise
-- the lowest one among them.
pub lowest_price_lem :
    (groups : List SlotGroup)
    → ((groups ≡ []) × (lowest_price groups ≡ none))
      ⊎ ((price : ℕ) × (lowest_price groups ≡ some price) × IsLowest price groups)
unfolding lowest_price lowest_from
lowest_price_lem [] = inl (refl, refl)
lowest_price_lem (group ∷ groups) =
    let (price, same, below, all, where_from) = lowest_from_lem groups group.price_per_hour in
    inr (
      price,
      same,
      record {
        offered = elim where_from [
          | inl e ↦ (group, Memᴰ.head refl, e)
          | inr (g, m, e) ↦ (g, Memᴰ.tail m, e)
        ];
        least = (below, all);
      },
    )
