-- ===== src/Hold/Book.antt =====
-- A book of holds that are looked up by their ids: the specification of the repository.
use autospace_parking.Prelude.{ℕ, String, ◌&&◌, Option, none, some, ◌==◌, leb, if◌then◌else◌}
use autospace_parking.Hold.{Hold, expired, is_active}
use autospace_parking.Hold.Table.{StoreError, hold_not_found, duplicate_key}

abbrev pub Book : Type 0
Book = String → Option Hold

pub data Command : Type 0 where
  creates updates : Hold → Command
  finds : String → Command
  expires : ℕ → Command

-- What a command answers: the error of a change, or what is found.
pub data Answer : Type 0 where
  done : Option StoreError → Answer
  found : Option Hold → Answer

-- The specification.
abbrev pub put : Hold → Book → Book
put hold book id = if hold.id == id then some hold else book id

-- An update keeps what the hold was created with.
abbrev pub merged : Hold → Hold → Hold
merged hold old = record old {
  status = hold.status;
  booking_id = hold.booking_id;
  release_reason = hold.release_reason;
}

abbrev pub expired_at : ℕ → Option Hold → Option Hold
expired_at now none = none
expired_at now (some hold) =
    if is_active hold.status && leb hold.expires_at now
    then some (record hold { status = expired })
    else some hold

abbrev create_book : Option Hold → Hold → Book → Book × Option StoreError
create_book none hold book = (put hold book, none)
create_book (some taken) hold book = (book, some duplicate_key)

abbrev update_book : Option Hold → Hold → Book → Book × Option StoreError
update_book none hold book = (book, some hold_not_found)
update_book (some old) hold book = (put (merged hold old) book, none)

abbrev pub specify : Command → Book → Book × Answer
specify (creates hold) book =
    let (book', error) = create_book (book hold.id) hold book in (book', done error)
specify (updates hold) book =
    let (book', error) = update_book (book hold.id) hold book in (book', done error)
specify (finds id) book = (book, found (book id))
specify (expires now) book = (λ id. expired_at now (book id), done none)
