-- ===== src/Search/Form.antt =====
-- searchGarages.tsx: the form's values, and its defaults. The schema's checks are zod's.
use autospace_parking.Prelude.{ℕ, zero, suc, String, Option, List, [], ◌∷◌}
use autospace_parking.Js.Text.{or_default}

-- `searchProductModes`
abbrev pub search_product_modes : List String
search_product_modes = "hourly-daily" ∷ "monthly" ∷ "airport" ∷ []

pub data SlotType : Type 0 where
  bicycle bike car heavy : SlotType

abbrev pub all_slot_types : List SlotType
all_slot_types = bicycle ∷ bike ∷ car ∷ heavy ∷ []

-- The values that the form begins with.
pub record FormValues : Type 0 where
  pub product_mode : String
  pub destination : String
  pub start_time : String
  pub end_time : String
  pub price_per_hour : ℕ × ℕ
  pub width : ℕ × ℕ
  pub height : ℕ × ℕ
  pub length : ℕ × ℕ
  pub types : List SlotType

-- What a page sets of them.
pub record InitialValues : Type 0 where
  pub product_mode : Option String
  pub destination : Option String
  pub start_time : Option String
  pub end_time : Option String

-- The dates of JavaScript, and `toLocalISOString`.
pub record Dates : Type 1 where
  pub Date : Type 0
  pub add_minutes : ℕ → Date → Date
  pub add_hours : ℕ → Date → Date
  pub to_local_iso_string : Date → String

-- `text.slice(0, n)`
unfoldable pub slice : ℕ → String → String
slice zero s = ""
slice (suc n) String.[] = ""
slice (suc n) (String.◌∷◌ c s) = String.◌∷◌ c (slice n s)

pub record Times : Type 0 where
  pub start_time : String
  pub end_time : String

unfoldable pub get_current_time_and_one_hour_later : (D : Dates) → D.Date → Times
get_current_time_and_one_hour_later D now =
    let start_time = D.add_minutes 5 now in
    let end_time = D.add_hours 1 start_time in
    record {
      start_time = slice 16 (D.to_local_iso_string start_time);
      end_time = slice 16 (D.to_local_iso_string end_time);
    }

-- `defaultValues` of the provider: the page's values are spread over the form's.
unfoldable pub default_values : Times → InitialValues → FormValues
default_values times initial = record {
  product_mode = or_default initial.product_mode "hourly-daily";
  destination = or_default initial.destination "";
  start_time = or_default initial.start_time times.start_time;
  end_time = or_default initial.end_time times.end_time;
  price_per_hour = (0, 200);
  width = (0, 20);
  height = (0, 100);
  length = (0, 100);
  types = all_slot_types;
}
