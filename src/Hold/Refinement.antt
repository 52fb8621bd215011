-- ===== src/Hold/Refinement.antt =====
-- The table implements a book that holds are looked up in by their ids.
use autospace_parking.Prelude.{◌≡◌, refl, ap, ◌∙◌, none, List, [], ◌∷◌, Option-cases, inl, inr}
use mathlib.Core.Path.{fun_ext}
use autospace_parking.Hold.Table.{Row, row_of, find_by_id, create, update, expire}
use autospace_parking.Hold.Book.{
  Command, creates, updates, finds, expires, Answer, done, found, specify,
}
use autospace_parking.Hold.Rows.{
  book_of, find_by_id-cons, create_lem, create_taken, find_by_id-update_rows, find_by_id-expire,
  update_missing, update_there, hold_of-row_of,
}

unfoldable pub perform : Command → List Row → List Row × Answer
perform (creates hold) rows = let (rows', error) = create hold rows in (rows', done error)
perform (updates hold) rows = let (rows', error) = update hold rows in (rows', done error)
perform (finds id) rows = (rows, found (find_by_id id rows))
perform (expires now) rows = (expire now rows, done none)

-- A command answers as the specification does, and leaves the book that it leaves.
abbrev Implements : Command → List Row → Type 0
Implements c rows =
    (book_of (perform c rows).0 ≡ (specify c (book_of rows)).0)
    × ((perform c rows).1 ≡ (specify c (book_of rows)).1)

perform-Implements : (c : Command) (rows : List Row) → Implements c rows
unfolding perform
perform-Implements (finds id) rows = (refl, refl)
perform-Implements (expires now) rows = (fun_ext (λ j. find_by_id-expire now rows j), refl)
perform-Implements (creates hold) rows = elim (Option-cases (find_by_id hold.id rows)) [
  | inl free ↦
      rw (create_lem hold rows free, free)
        (fun_ext (λ j. find_by_id-cons (row_of hold) rows j ∙ rw (hold_of-row_of hold) refl), refl)
  | inr (old, taken) ↦ rw (create_taken hold old rows taken, taken) (refl, refl)
]
perform-Implements (updates hold) rows = elim (Option-cases (find_by_id hold.id rows)) [
  | inl missing ↦ rw (update_missing hold rows missing, missing) (refl, refl)
  | inr (old, there) ↦
      rw (update_there hold old rows there, there)
        (fun_ext (λ j. find_by_id-update_rows hold rows j old there), refl)
]

-- Commands one after another, and their answers in order.
unfoldable pub run {ℓ} :
    {S : Type ℓ} → (Command → S → S × Answer) → List Command → S → S × List Answer
run step [] s = (s, [])
run step (c ∷ cs) s =
    let (s', answer) = step c s in let (last, answers) = run step cs s' in (last, answer ∷ answers)

-- Whatever commands are performed one after another on a table of holds, the table answers each as
-- a book of holds by their ids does, in which a creation of a known id and an update of an unknown
-- one are refused, an update keeps what the hold was created with, and an expiry marks what is
-- active and due; and it stands for the same book in the end.
pub run-perform :
    (cs : List Command) (rows : List Row)
    → (book_of (run perform cs rows).0 ≡ (run specify cs (book_of rows)).0)
      × ((run perform cs rows).1 ≡ (run specify cs (book_of rows)).1)
unfolding run
run-perform [] rows = (refl, refl)
run-perform (c ∷ cs) rows =
    let (book, answer) = perform-Implements c rows in
    let (books, answers) = run-perform cs (perform c rows).0 in
    rw (← book, ← answer) (books, ap (λ (more : List Answer). (perform c rows).1 ∷ more) answers)
