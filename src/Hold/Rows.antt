-- ===== src/Hold/Rows.antt =====
-- What is found in the table after each statement.
use autospace_parking.Prelude.{
  ℕ, ◌<◌, ◌≡◌, refl, sym, ◌∙◌, String, false, none, some, List, [], ◌∷◌, ◌==◌, eq_iff,
  if◌then◌else◌, arith, Bool-cases, inl, inr,
}
use autospace_parking.Js.Text.{or_default}
use autospace_parking.Hold.{Hold, expired}
use autospace_parking.Hold.Table.{
  hold_not_found, duplicate_key, Row, null_if_empty, row_of, hold_of, set_columns, is_due, select,
  find_by_id, create, update, update_rows, affected, expire,
}
use autospace_parking.Hold.Book.{Book, put, merged, expired_at}

-- What a table stands for.
abbrev pub book_of : List Row → Book
book_of rows id = find_by_id id rows

or_empty : (text : String) → or_default (null_if_empty text) "" ≡ text
or_empty String.[] = refl
or_empty (String.◌∷◌ c s) = refl

pub hold_of-row_of : (hold : Hold) → hold_of (row_of hold) ≡ hold
hold_of-row_of hold = ground (arith, or_empty hold.booking_id, or_empty hold.release_reason)

hold_of-set_columns :
    (hold : Hold) (row : Row) → hold_of (set_columns hold row) ≡ merged hold (hold_of row)
hold_of-set_columns hold row =
    ground (arith, or_empty hold.booking_id, or_empty hold.release_reason)

pub find_by_id-cons :
    (row : Row) (rows : List Row) (j : String)
    → find_by_id j (row ∷ rows) ≡ (if row.id == j then some (hold_of row) else find_by_id j rows)
unfolding find_by_id select
find_by_id-cons row rows j = ground arith

pub create_lem :
    (hold : Hold) (rows : List Row)
    → find_by_id hold.id rows ≡ none
    → create hold rows ≡ (row_of hold ∷ rows, none)
unfolding create find_by_id
create_lem hold rows free = ground arith

pub create_taken :
    (hold old : Hold) (rows : List Row)
    → find_by_id hold.id rows ≡ some old
    → create hold rows ≡ (rows, some duplicate_key)
unfolding create find_by_id
create_taken hold old rows taken = ground arith

affected-none :
    (hold : Hold) (rows : List Row) → find_by_id hold.id rows ≡ none → affected hold rows ≡ 0
unfolding affected
affected-none hold [] h = refl
affected-none hold (row ∷ rows) h =
    ground (arith, find_by_id-cons row rows hold.id, affected-none hold rows)

affected-some :
    (hold old : Hold) (rows : List Row)
    → find_by_id hold.id rows ≡ some old
    → 0 < affected hold rows
unfolding affected
affected-some hold old [] h = unfold find_by_id select in cc h
affected-some hold old (row ∷ rows) h =
    ground (arith, find_by_id-cons row rows hold.id, affected-some hold old rows)

update_rows_other :
    (hold : Hold) (rows : List Row) → find_by_id hold.id rows ≡ none → update_rows hold rows ≡ rows
unfolding update_rows
update_rows_other hold [] h = refl
update_rows_other hold (row ∷ rows) h =
    ground (arith, find_by_id-cons row rows hold.id, update_rows_other hold rows)

find_by_id-update_rows_other :
    (hold : Hold) (rows : List Row) (j : String)
    → (hold.id == j) ≡ false
    → find_by_id j (update_rows hold rows) ≡ find_by_id j rows
unfolding update_rows
find_by_id-update_rows_other hold [] j h = refl
find_by_id-update_rows_other hold (row ∷ rows) j h = ground (
  arith,
  find_by_id-cons row rows j,
  find_by_id-cons (if row.id == hold.id then set_columns hold row else row) (update_rows hold rows)
      j,
  find_by_id-update_rows_other hold rows j h,
  eq_iff row.id hold.id,
  eq_iff row.id j,
  eq_iff hold.id j,
)

-- What is found under an id has that id.
find_by_id_key :
    (id : String) (rows : List Row) (old : Hold) → find_by_id id rows ≡ some old → old.id ≡ id
find_by_id_key id [] old h = unfold find_by_id select in cc h
find_by_id_key id (row ∷ rows) old h =
    ground (arith, find_by_id-cons row rows id, find_by_id_key id rows old, eq_iff row.id id)

updated_head :
    (hold : Hold) (row : Row) (rows : List Row) (j : String)
    → row.id ≡ hold.id
    → (if row.id == j
        then some (hold_of (set_columns hold row))
        else find_by_id j (update_rows hold rows))
      ≡ put (merged hold (hold_of row)) (book_of (row ∷ rows)) j
updated_head hold row rows j same = elim (Bool-cases (row.id == j)) [
  | inl here ↦ rw (here, hold_of-set_columns hold row) refl
  | inr there ↦ rw there (
      find_by_id-update_rows_other hold rows j (rw (← same) there)
      ∙ sym (find_by_id-cons row rows j ∙ rw there refl))
]

pub find_by_id-update_rows :
    (hold : Hold) (rows : List Row) (j : String) (old : Hold)
    → find_by_id hold.id rows ≡ some old
    → find_by_id j (update_rows hold rows) ≡ put (merged hold old) (book_of rows) j
unfolding update_rows
find_by_id-update_rows hold [] j old h = unfold find_by_id select in cc h
find_by_id-update_rows hold (row ∷ rows) j old h =
    let tail = update_rows hold rows in
    elim (Bool-cases (row.id == hold.id)) [
      | inl here ↦
          let same : row.id ≡ hold.id = (eq_iff row.id hold.id).0 here in
          let at_row : hold_of row ≡ old =
            ground (arith, find_by_id-cons row rows hold.id, here, h) in
          rw (here, ← at_row)
            (find_by_id-cons (set_columns hold row) tail j ∙ updated_head hold row rows j same)
      | inr there ↦
          let below : find_by_id hold.id rows ≡ some old =
            ground (arith, find_by_id-cons row rows hold.id, there, h) in
          let key = find_by_id_key hold.id rows old below in
          ground (
            arith,
            find_by_id-cons row rows j,
            find_by_id-cons row tail j,
            find_by_id-update_rows hold rows j old below,
            eq_iff row.id hold.id,
            eq_iff row.id j,
            eq_iff old.id j,
          )
    ]

pub find_by_id-expire :
    (now : ℕ) (rows : List Row) (j : String)
    → find_by_id j (expire now rows) ≡ expired_at now (find_by_id j rows)
unfolding expire
find_by_id-expire now [] j = unfold find_by_id select in refl
find_by_id-expire now (row ∷ rows) j = ground (
  arith,
  find_by_id-cons row rows j,
  find_by_id-cons (if is_due now row then record row { status = expired } else row)
      (expire now rows) j,
  find_by_id-expire now rows j,
)

pub update_missing :
    (hold : Hold) (rows : List Row)
    → find_by_id hold.id rows ≡ none
    → update hold rows ≡ (rows, some hold_not_found)
unfolding update
update_missing hold rows h = rw (affected-none hold rows h, update_rows_other hold rows h) refl

pub update_there :
    (hold old : Hold) (rows : List Row)
    → find_by_id hold.id rows ≡ some old
    → update hold rows ≡ (update_rows hold rows, none)
unfolding update
update_there hold old rows h = ground (arith, affected-some hold old rows h)
