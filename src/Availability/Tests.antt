-- ===== src/Availability/Tests.antt =====
-- Calls of the availability client.
use autospace_parking.Prelude.{arith, ◌<◌, ◌≡◌, refl, String, none, some, List, [], ◌∷◌, ◌<>◌}
use autospace_parking.Js.Exec.{Thrown, error}
use autospace_parking.Availability.{call, Reply, waiting, callbacks}
use autospace_parking.Availability.Service.{Item, get_availability}
use autospace_parking.Availability.Answering.{reply_of, answered, Served, get_availability_lem}

call_run :
    call 500 ("s1" ∷ []) (some "")
    ≡ record { parking_space_ids = "s1" ∷ []; metadata = []; deadline = 2500 }
unfolding call
call_run = refl

abbrev invalid : String → Thrown
invalid message = error "Error" ("3 INVALID_ARGUMENT: " <> message)

abbrev spaces : List String
spaces = "s1" ∷ "s2" ∷ []

abbrev late : Thrown
late = error "Error" "4 DEADLINE_EXCEEDED"

-- The answer takes a second and a half.
abbrev in_time : Reply (List Item)
in_time = reply_of invalid (get_availability (some spaces))

get_availability_lem_example :
    (1500 < 2000) × Served invalid spaces (callbacks (List Item) (in_time ∷ []) waiting)
unfolding call
get_availability_lem_example =
    get_availability_lem invalid late 500 1500 spaces none in_time [] (answered (omega arith))
