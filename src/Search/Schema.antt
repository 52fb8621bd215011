-- ===== src/Search/Schema.antt =====
-- libs/forms/src/searchGarages.tsx: the two checks of the schema on a form whose fields have their
-- types. Both are made, and each that fails is an error under the name of its field.
use autospace_parking.Prelude.{
  String, ◌≡◌, Bool, false, ◌||◌, List, [], ◌∷◌, ◌++◌, ◌==◌, arith, if◌then◌else◌,
}
use autospace_parking.Search.Screen.{TimeChecks, Screen, parses, change_start}
use autospace_parking.Search.Adapter.{Ports}

-- `refine`
abbrev refine : Bool → String → String → List (String × String)
refine valid path message = if valid then [] else (path, message) ∷ []

module _ (T : TimeChecks) where
  unfoldable pub time_errors : T.Time → String → String → List (String × String)
  time_errors now start_time end_time =
      refine (T.is_start_time_valid now start_time) "startTime"
        "Start time should be greater than current time"
      ++ refine (T.is_end_time_valid end_time start_time) "endTime"
          "End time should be greater than start time"

abbrev pub is_reported : String → List (String × String) → Bool
is_reported name [] = false
is_reported name ((path, message) ∷ errors) = path == name || is_reported name errors

-- The errors that the search page shows after a change of the start are those of the schema, whose
-- checks of the times are left out where a field is missing.
change_start_reports :
    (P : Ports) (T : TimeChecks) (or_zero : P.Coordinate → P.Coordinate) (now : T.Time)
    (time : String) (s : Screen P T or_zero)
    → let u = change_start P T or_zero now time s in
      let errors = if parses P T or_zero u then time_errors T now u.start_time u.end_time else [] in
      (u.start_error ≡ is_reported "startTime" errors)
      × (u.end_error ≡ is_reported "endTime" errors)
unfolding change_start time_errors parses
change_start_reports P T or_zero now time s = (ground arith, ground arith)
