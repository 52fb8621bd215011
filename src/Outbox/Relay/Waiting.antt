-- ===== src/Outbox/Relay/Waiting.antt =====
-- The rows that wait for a batch, counted among given ids.
use autospace_parking.Prelude.{
  ℕ, ◌≤◌, ◌<◌, String, ◌≡◌, refl, Bool, true, false, Option, none, some, List, [], ◌∷◌, arith,
  length, count_if,
}
use mathlib.Core.List.{Memᴰ}
use autospace_parking.Outbox.Entity.{OutboxEvent}
use autospace_parking.Outbox.Services.{is_unpublished}

abbrev pub is_pending : Option OutboxEvent → Bool
is_pending none = false
is_pending (some e) = is_unpublished e

-- How many of the ids have a row that waits.
abbrev pub waiting : (String → Option OutboxEvent) → List String → ℕ
waiting rows ids = count_if (λ j. is_pending (rows j)) ids

pub waiting-pos :
    (rows : String → Option OutboxEvent) (ids : List String) (j : String)
    → Memᴰ j ids
    → is_pending (rows j) ≡ true
    → 0 < waiting rows ids
waiting-pos rows [] j m waits = elim m [ ]
waiting-pos rows (i ∷ ids) j (Memᴰ.head e) waits = ground (arith, e, waits)
waiting-pos rows (i ∷ ids) j (Memᴰ.tail m) waits = ground (arith, waiting-pos rows ids j m waits)

pub waiting-none :
    (rows : String → Option OutboxEvent) (ids : List String)
    → ((j : String) → is_pending (rows j) ≡ false)
    → waiting rows ids ≡ 0
waiting-none rows [] h = refl
waiting-none rows (j ∷ ids) h = ground (arith, h j, waiting-none rows ids h)

pub waiting-length :
    (rows : String → Option OutboxEvent) (ids : List String) → waiting rows ids ≤ length ids
waiting-length rows [] = omega arith
waiting-length rows (j ∷ ids) = ground (arith, waiting-length rows ids)

module _ (before after : String → Option OutboxEvent)
    (shrinks : (j : String) → is_pending (after j) ≡ true → is_pending (before j) ≡ true) where
  pub waiting-le : (ids : List String) → waiting after ids ≤ waiting before ids
  waiting-le [] = omega arith
  waiting-le (j ∷ ids) = ground (arith, shrinks j, waiting-le ids)

  pub waiting-lt :
      (ids : List String) (j : String)
      → Memᴰ j ids
      → is_pending (before j) ≡ true
      → is_pending (after j) ≡ false
      → waiting after ids < waiting before ids
  waiting-lt [] j m was now = elim m [ ]
  waiting-lt (i ∷ ids) j (Memᴰ.head e) was now = ground (arith, e, was, now, waiting-le ids)
  waiting-lt (i ∷ ids) j (Memᴰ.tail m) was now =
      ground (arith, shrinks i, waiting-lt ids j m was now)
