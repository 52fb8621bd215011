-- ===== src/Search/Adapter.antt =====
-- searchFormAdapter.ts: `createSlotsFilter`, `createGaragesFilter`, and the variables that
-- `useConvertSearchFormToVariables` keeps. `intFilter` is a parameter.
use autospace_parking.Prelude.{
  ℕ, String, Bool, true, false, not, ◌||◌, Option, none, some, List, [], ◌∷◌, if◌then◌else◌, eqb,
}
use autospace_parking.Js.Text.{truthy, or_default}
use autospace_parking.Search.Form.{SlotType}

-- Which fields are dirty, as far as the code asks.
pub record DirtyFields : Type 0 where
  pub length : Bool
  pub width : Bool
  pub height : Bool
  pub price_per_hour : Bool
  pub types : Bool
  pub skip : Bool
  pub take : Bool

-- `intFilter`: `none` is a result that is falsy. `Range` is a form's pair of bounds, `Coordinate` a
-- number of the map, with its 0.
pub record Ports : Type 1 where
  pub Range : Type 0
  pub IntFilter : Type 0
  pub int_filter : Option Range → Option IntFilter
  pub Coordinate : Type 0
  pub origin : Coordinate

abbrev when {ℓ} : {A : Type ℓ} → Bool → Option A → Option A
when test o = if test then o else none

-- `(dirty && value) || fallback`
abbrev pub dirty_or : Bool → Option ℕ → ℕ → ℕ
dirty_or false value fallback = fallback
dirty_or true none fallback = fallback
dirty_or true (some n) fallback = if eqb n 0 then fallback else n

-- `...(n && { n })`
abbrev pub unless_zero : ℕ → Option ℕ
unless_zero n = if eqb n 0 then none else some n

-- A key that is left out is `none`.
pub record GaragesFilter : Type 0 where
  pub skip : Option ℕ
  pub take : Option ℕ

abbrev pub has_key {ℓ} : {A : Type ℓ} → Option A → Bool
has_key none = false
has_key (some a) = true

abbrev pub garages_filter_has_keys : GaragesFilter → Bool
garages_filter_has_keys f = has_key f.skip || has_key f.take

abbrev pub nonempty_object {ℓ} : {A : Type ℓ} → Bool → A → Option A
nonempty_object has_keys a = if has_keys then some a else none

unfoldable pub create_garages_filter : DirtyFields → Option ℕ → Option ℕ → GaragesFilter
create_garages_filter dirty skip take = record {
  skip = unless_zero (dirty_or dirty.skip skip 0);
  take = unless_zero (dirty_or dirty.take take 10);
}

module _ (P : Ports) where
  open P use {Range, IntFilter, Coordinate}

  pub record LocationFilter (A : Type 0) : Type 0 where
    pub ne_lat : A
    pub ne_lng : A
    pub sw_lat : A
    pub sw_lng : A

  pub record FormData : Type 0 where
    pub end_time : Option String
    pub start_time : Option String
    pub location_filter : Option (LocationFilter (Option Coordinate))
    pub length : Option Range
    pub width : Option Range
    pub height : Option Range
    pub price_per_hour : Option Range
    pub types : Option (List SlotType)
    pub skip : Option ℕ
    pub take : Option ℕ

  -- `type` is `{ in: types }`, in which the types may be undefined.
  pub record SlotsFilter : Type 0 where
    pub length : Option IntFilter
    pub width : Option IntFilter
    pub height : Option IntFilter
    pub price_per_hour : Option IntFilter
    pub type : Option (Option (List SlotType))

  abbrev pub slots_filter_has_keys : SlotsFilter → Bool
  slots_filter_has_keys f =
      has_key f.length
      || has_key f.width
      || has_key f.height
      || has_key f.price_per_hour
      || has_key f.type

  unfoldable pub create_slots_filter : DirtyFields → FormData → SlotsFilter
  create_slots_filter dirty form = record {
    length = when dirty.length (P.int_filter form.length);
    width = when dirty.width (P.int_filter form.width);
    height = when dirty.height (P.int_filter form.height);
    price_per_hour = when dirty.price_per_hour (P.int_filter form.price_per_hour);
    type = when dirty.types (some form.types);
  }

  pub record Variables : Type 0 where
    pub start : String
    pub end : String
    pub location_filter : LocationFilter Coordinate
    pub slots_filter : Option SlotsFilter
    pub garage_filter : Option GaragesFilter

  unfoldable pub located : LocationFilter (Option Coordinate) → LocationFilter Coordinate
  located l = record {
    ne_lat = or_default l.ne_lat P.origin;
    ne_lng = or_default l.ne_lng P.origin;
    sw_lat = or_default l.sw_lat P.origin;
    sw_lng = or_default l.sw_lng P.origin;
  }

  -- The argument of `setVariables`.
  unfoldable pub variables_of :
      DirtyFields → FormData → String → String → LocationFilter (Option Coordinate) → Variables
  unfolding located
  variables_of dirty form start end area =
      let slots_filter = create_slots_filter dirty form in
      let garage_filter = create_garages_filter dirty form.skip form.take in
      record {
        start = start;
        end = end;
        location_filter = located area;
        slots_filter = nonempty_object (slots_filter_has_keys slots_filter) slots_filter;
        garage_filter = nonempty_object (garages_filter_has_keys garage_filter) garage_filter;
      }

  -- The effect, on the variables that are kept.
  unfoldable pub convert : DirtyFields → FormData → Option Variables → Option Variables
  convert dirty form kept =
      let start = or_default form.start_time "" in
      let end = or_default form.end_time "" in
      if not (truthy start) || not (truthy end) then kept else elim form.location_filter [
        | none ↦ kept
        | some area ↦ some (variables_of dirty form start end area)
      ]

  -- The variables that the hook returns.
  unfoldable pub returned : Bool → Option Variables → Option Variables
  returned has_errors kept = if has_errors then none else kept

  -- The effect runs for one form after another.
  unfoldable pub convert_all : List (DirtyFields × FormData) → Option Variables → Option Variables
  convert_all [] kept = kept
  convert_all ((dirty, form) ∷ forms) kept = convert_all forms (convert dirty form kept)
