-- ===== src/Location/Tests.antt =====
-- Requests of the hook, answered and aborted.
use autospace_parking.Prelude.{ℕ, ◌≡◌, refl, String, false, Option, some, [], ◌∷◌, arith}
use mathlib.Core.List.{Memᴰ}
use autospace_parking.Js.Exec.{error}
use autospace_parking.Js.Text.{is_space, trim}
use autospace_parking.Location.Places.{LocationInfo, MapboxFeature, places, place_of}
use autospace_parking.Location.{
  Answer, features, failed, Search, new_search, effect, settle, settle_all,
}
use autospace_parking.Location.Latest.{latest_answer}

abbrev london : MapboxFeature ℕ
london = record { place_name = some "London"; center = some (0, 51) }

abbrev nowhere : MapboxFeature ℕ
nowhere = record { place_name = some ""; center = some (0, 0) }

abbrev shown : LocationInfo ℕ
shown = record { place_name = "London"; lat_lng = (51, 0) }

places_run : places (nowhere ∷ london ∷ []) ≡ shown ∷ []
unfolding places place_of
places_run = refl

shown_place : Memᴰ shown (places (nowhere ∷ london ∷ []))
unfolding places place_of
shown_place = Memᴰ.head refl

abbrev token : Option String
token = some "pk"

abbrev typed : Search ℕ
typed = effect ℕ token "Lon" (new_search ℕ)

abbrev abort : Answer ℕ
abort = failed (error "AbortError" "The user aborted a request.")

-- The first text's request is aborted by the second text.
latest_answer_example :
    let u = settle_all ℕ [] (
      settle ℕ typed.next
        (features (some (london ∷ [])))
        (settle_all ℕ ((0, abort) ∷ []) (effect ℕ token "London" typed))) in
    (u.location_info ≡ places (london ∷ [])) × (u.loading ≡ false)
unfolding effect is_space trim
latest_answer_example =
    latest_answer ℕ token "London" typed (london ∷ []) ((0, abort) ∷ []) [] refl refl
      ((ground arith, ("The user aborted a request.", refl)), tt) tt
