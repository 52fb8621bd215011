-- ===== src/Hold/Tests.antt =====
-- One hold, on its own and in a table.
use autospace_parking.Prelude.{◌≡◌, refl, false, none, some, List, [], ◌∷◌}
use autospace_parking.Hold.{Hold, active, confirmed, confirm, release, hold_not_active, is_active}
use autospace_parking.Hold.Lifecycle.{Reach, here, next, confirms, releases, IsValid, lifecycle_lem}
use autospace_parking.Hold.Table.{
  row_of, find_by_id, select, create, update, update_rows, affected, expire,
}
use autospace_parking.Hold.Book.{done, found, Command, creates, updates, finds, expires, specify}
use autospace_parking.Hold.Rows.{book_of}
use autospace_parking.Hold.Refinement.{perform, run, run-perform}

abbrev hold : Hold
hold = record {
  id = "h1";
  quote_id = "q1";
  customer_id = "c1";
  parking_space_id = "s1";
  expires_at = 600;
  status = active;
  booking_id = "";
  release_reason = "";
}

abbrev booked : Hold
booked = record hold { status = confirmed; booking_id = "b1" }

booked_Reach : Reach hold booked
unfolding confirm
booked_Reach = next here (confirms 10 "b1" hold)

release-Reach : Reach booked (release 20 "cancelled" booked).0
release-Reach = next here (releases 20 "cancelled" booked)

release_run : (release 20 "cancelled" booked).1 ≡ some hold_not_active
unfolding release
release_run = refl

lifecycle_lem_example :
    IsValid booked × (is_active booked.status ≡ false → (release 20 "cancelled" booked).0 ≡ booked)
lifecycle_lem_example = lifecycle_lem hold refl refl refl booked_Reach release-Reach

abbrev commands : List Command
commands = creates hold ∷ creates hold ∷ updates booked ∷ expires 700 ∷ finds "h1" ∷ finds "h2" ∷ []

commands-run : (run perform commands []).0 ≡ row_of booked ∷ []
unfolding run perform create select update update_rows affected expire find_by_id
commands-run = refl

run-perform_example :
    (book_of (run perform commands []).0 ≡ (run specify commands (book_of [])).0)
    × ((run perform commands []).1 ≡ (run specify commands (book_of [])).1)
run-perform_example = run-perform commands []

-- An expiry between the reading of a hold and its update is overwritten.
lost_expiry_run :
    (run perform
      (creates hold ∷ expires 700 ∷ updates (confirm 10 "b1" hold).0 ∷ finds "h1" ∷ [])
      []).1
    ≡ done none ∷ done none ∷ done none ∷ found (some booked) ∷ []
unfolding run perform create select update update_rows affected expire find_by_id confirm
lost_expiry_run = refl
