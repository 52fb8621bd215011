-- ===== src/Hold/Table.antt =====
-- apps/services/go/availability/internal/persistence/holds.go: the repository, on a table that its
-- statements are run on one after another. Its primary key is the id; its check admits the four
-- texts of a status, which stand for them here. What else may fail in a database is left out.
use autospace_parking.Prelude.{
  ℕ, zero, suc, ◌+◌, String, Bool, ◌&&◌, Option, none, some, List, [], ◌∷◌, ◌==◌, leb,
  if◌then◌else◌,
}
use autospace_parking.Js.Text.{truthy, or_default}
use autospace_parking.Hold.{Hold, HoldStatus, expired, is_active}

pub data StoreError : Type 0 where
  hold_not_found duplicate_key : StoreError

-- A row: the two last columns may be NULL.
pub record Row : Type 0 where
  pub id : String
  pub quote_id : String
  pub customer_id : String
  pub parking_space_id : String
  pub expires_at : ℕ
  pub status : HoldStatus
  pub booking_id : Option String
  pub release_reason : Option String

-- `NULLIF(text, '')`
abbrev pub null_if_empty : String → Option String
null_if_empty text = if truthy text then some text else none

abbrev pub row_of : Hold → Row
row_of hold = record {
  id = hold.id;
  quote_id = hold.quote_id;
  customer_id = hold.customer_id;
  parking_space_id = hold.parking_space_id;
  expires_at = hold.expires_at;
  status = hold.status;
  booking_id = null_if_empty hold.booking_id;
  release_reason = null_if_empty hold.release_reason;
}

-- What `Scan` fills in: the text of a NULL is empty.
abbrev pub hold_of : Row → Hold
hold_of row = record {
  id = row.id;
  quote_id = row.quote_id;
  customer_id = row.customer_id;
  parking_space_id = row.parking_space_id;
  expires_at = row.expires_at;
  status = row.status;
  booking_id = or_default row.booking_id "";
  release_reason = or_default row.release_reason "";
}

unfoldable pub select : String → List Row → Option Row
select id [] = none
select id (row ∷ rows) = if row.id == id then some row else select id rows

found : Option Row → Option Hold
found none = none
found (some row) = some (hold_of row)

-- `FindByID`; `none` is `ErrHoldNotFound`.
unfoldable pub find_by_id : String → List Row → Option Hold
unfolding found
find_by_id id rows = found (select id rows)

inserted : Option Row → Hold → List Row → List Row × Option StoreError
inserted none hold rows = (row_of hold ∷ rows, none)
inserted (some taken) hold rows = (rows, some duplicate_key)

unfoldable pub create : Hold → List Row → List Row × Option StoreError
unfolding inserted
create hold rows = inserted (select hold.id rows) hold rows

abbrev pub set_columns : Hold → Row → Row
set_columns hold row = record row {
  status = hold.status;
  booking_id = null_if_empty hold.booking_id;
  release_reason = null_if_empty hold.release_reason;
}

-- `UPDATE … WHERE id = $1`
unfoldable pub update_rows : Hold → List Row → List Row
update_rows hold [] = []
update_rows hold (row ∷ rows) =
    (if row.id == hold.id then set_columns hold row else row) ∷ update_rows hold rows

-- How many rows it affects.
unfoldable pub affected : Hold → List Row → ℕ
affected hold [] = 0
affected hold (row ∷ rows) = (if row.id == hold.id then 1 else 0) + affected hold rows

reported : ℕ → List Row → List Row × Option StoreError
reported count rows = elim count [ zero ↦ (rows, some hold_not_found) | suc n ↦ (rows, none) ]

unfoldable pub update : Hold → List Row → List Row × Option StoreError
unfolding reported
update hold rows = reported (affected hold rows) (update_rows hold rows)

abbrev pub is_due : ℕ → Row → Bool
is_due now row = is_active row.status && leb row.expires_at now

-- `Expire`, and the number of rows that it reports.
unfoldable pub expire : ℕ → List Row → List Row
expire now [] = []
expire now (row ∷ rows) =
    (if is_due now row then record row { status = expired } else row) ∷ expire now rows

unfoldable pub expired_count : ℕ → List Row → ℕ
expired_count now [] = 0
expired_count now (row ∷ rows) = (if is_due now row then 1 else 0) + expired_count now rows
