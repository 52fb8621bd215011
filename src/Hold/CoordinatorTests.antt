-- ===== src/Hold/CoordinatorTests.antt =====
-- Two services that coordinate one hold.
use autospace_parking.Prelude.{
  ◌≤◌, ◌<◌, ◌≡◌, refl, String, none, some, List, [], ◌∷◌, eq_iff, arith,
}
use autospace_parking.Hold.Coordinator.{
  Store, already_coordinated, new_hold_coordinator, acquire, release, Call, acquires, releases,
  perform, perform_all, set_nx,
}
use autospace_parking.Hold.Exclusion.{acquire_exclusive}

abbrev empty : Store
empty k = none

abbrev prefix : String
prefix = "test:availability:hold:"

prefix_run : new_hold_coordinator "test" ≡ prefix
unfolding new_hold_coordinator
prefix_run = refl

granted : (acquire prefix 10 "h1" 100 empty).1 ≡ none
unfolding acquire set_nx
granted = refl

abbrev calls : List (Call prefix)
calls = acquires 20 "h2" 500 ∷ releases "h2" ∷ acquires 30 "h1" 800 ∷ []

-- The first holder's time is over, a second one acquires the hold, and the late release of the first
-- lets a third one in.
stale_release_run :
    let late : List (Call prefix) =
      acquires 10 "h1" 100 ∷ acquires 120 "h1" 300 ∷ releases "h1" ∷ [] in
    (acquire prefix 130 "h1" 300 (perform_all prefix late empty)).1 ≡ none
unfolding acquire set_nx release perform perform_all
stale_release_run = refl

acquire_exclusive_example :
    let after = perform_all prefix calls (acquire prefix 10 "h1" 100 empty).0 in
    (50 < 100 → (acquire prefix 50 "h1" 200 after).1 ≡ some already_coordinated)
    × (100 ≤ 50 → (acquire prefix 50 "h1" 200 after).1 ≡ none)
    × ((acquire prefix 50 "h1" 200 (release prefix "h1" after)).1 ≡ none)
acquire_exclusive_example =
    acquire_exclusive prefix 10 100 "h1" empty granted calls
      (omega arith, (ground (arith, eq_iff "h2" "h1"), (omega arith, tt))) 50 200 (omega arith)
