-- ===== src/Availability/Answering.antt =====
-- A call of the client that the service answers.
use autospace_parking.Prelude.{
  ℕ, ◌≡◌, ◌≢◌, refl, ◌∙◌, String, Option, none, some, List, [], ◌∷◌, ◌++◌, sym, ap, ◌==◌, eq_iff,
  Bool-cases, inl, inr, ◌+◌, ◌<◌, ◌≤◌, ◌⊎◌, false, arith,
}
use mathlib.Core.List.{Memᴰ, map, cons≢nil, append-nil, append_assoc}
use autospace_parking.Js.Exec.{Thrown, resolved, rejected}
use autospace_parking.Availability.{Reply, Promise, Call, call, waiting, settled, callbacks}
use autospace_parking.Availability.Settling.{callbacks_lem}
use autospace_parking.Availability.Service.{
  Item, Answer, invalid_argument, answer, free, collect, get_availability,
}

collect-free :
    (ids : List String) (items : List Item)
    → ¬ Memᴰ "" ids
    → collect ids items ≡ answer (items ++ map free ids)
unfolding collect
collect-free [] items h = ap answer (sym (append-nil items))
collect-free (id ∷ ids) items h = elim (Bool-cases (id == "")) [
  | inl e ↦ absurd (h (Memᴰ.head (sym ((eq_iff id "").0 e))))
  | inr e ↦ rw e (
      collect-free ids (items ++ free id ∷ []) (λ m. h (Memᴰ.tail m))
      ∙ ap answer (append_assoc items (free id ∷ []) (map free ids)))
]

collect-empty :
    (ids : List String) (items : List Item)
    → Memᴰ "" ids
    → collect ids items ≡ invalid_argument "parking_space_ids cannot contain empty values"
unfolding collect
collect-empty [] items m = elim m [ ]
collect-empty (id ∷ ids) items (Memᴰ.head e) = rw ((eq_iff id "").1 (sym e)) refl
collect-empty (id ∷ ids) items (Memᴰ.tail m) = elim (Bool-cases (id == "")) [
  | inl e ↦ rw e refl
  | inr e ↦ rw e (collect-empty ids (items ++ free id ∷ []) m)
]

module _ (error_of : String → Thrown) where
  -- What the callback gets: the error that the library makes of the status, or the response.
  abbrev pub reply_of : Answer → Reply (List Item)
  reply_of (invalid_argument message) = record { error = some (error_of message); response = none }
  reply_of (answer items) = record { error = none; response = some items }

  -- What grpc-js documents of the first reply to a call that is made at `now` and whose answer takes
  -- `delay` ms: that of the service, if it arrives before the deadline of the call, an error of its
  -- own for a deadline that has passed, or an error of the connection.
  module _ (deadline_exceeded : Thrown) (now delay : ℕ) (c : Call) where
    pub data Replies : Reply (List Item) → Type 0 where
      answered :
          now + delay < c.deadline
          → Replies (reply_of (get_availability (some c.parking_space_ids)))
      expired :
          c.deadline ≤ now + delay
          → Replies (record { error = some deadline_exceeded; response = none })
      broken : (thrown : Thrown) → Replies (record { error = some thrown; response = none })

  -- What the service makes of the spaces that it is asked for.
  abbrev pub Served : List String → Promise (List Item) → Type 0
  Served ids p =
      ((ids ≡ []) × (p ≡ settled (rejected (error_of "parking_space_ids is required"))))
      ⊎ (Memᴰ "" ids
          × (p ≡ settled (rejected (error_of "parking_space_ids cannot contain empty values"))))
      ⊎ ((ids ≢ []) × (¬ Memᴰ "" ids) × (p ≡ settled (resolved (some (map free ids)))))

  -- How a call ends: served within two seconds, out of time after two seconds, or by the error of
  -- the connection.
  abbrev pub Ends :
      (deadline_exceeded : Thrown) (now delay : ℕ) (ids : List String)
      (correlation_id : Option String) {first : Reply (List Item)}
      → Replies deadline_exceeded now delay (call now ids correlation_id) first
      → Promise (List Item)
      → Type 0
  Ends late now delay ids correlation_id (answered early) p = (delay < 2000) × Served ids p
  Ends late now delay ids correlation_id (expired passed) p =
      (2000 ≤ delay) × (p ≡ settled (rejected late))
  Ends late now delay ids correlation_id (broken thrown) p = p ≡ settled (rejected thrown)

  empty_id : (ids : List String) → Memᴰ "" ids ⊎ (¬ Memᴰ "" ids)
  empty_id [] = inr (λ m. elim m [ ])
  empty_id (id ∷ ids) = elim (Bool-cases (id == "")) [
    | inl e ↦ inl (Memᴰ.head (sym ((eq_iff id "").0 e)))
    | inr e ↦ elim (empty_id ids) [
      | inl m ↦ inl (Memᴰ.tail m)
      | inr none_there ↦ inr (no_head id ids e none_there)
    ]
  ]
    where
      no_head :
          (id : String) (ids : List String)
          → (id == "") ≡ false
          → ¬ Memᴰ "" ids
          → ¬ Memᴰ "" (id ∷ ids)
      no_head id ids e rest (Memᴰ.head same) = ground (arith, eq_iff id "", e, sym same)
      no_head id ids e rest (Memᴰ.tail m) = rest m

  served :
      (ids : List String) (replies : List (Reply (List Item)))
      → Served ids
          (callbacks (List Item) (reply_of (get_availability (some ids)) ∷ replies) waiting)
  unfolding get_availability
  served [] replies =
      inl
        (refl, (callbacks_lem (List Item) (reply_of (get_availability (some []))) replies).0 _ refl)
  served (id ∷ ids) replies = elim (empty_id (id ∷ ids)) [
    | inl m ↦
        let refused = invalid_argument "parking_space_ids cannot contain empty values" in
        inr (
          inl (
            m,
            rw (collect-empty (id ∷ ids) [] m)
                ((callbacks_lem (List Item) (reply_of refused) replies).0 _ refl),
          ))
    | inr filled ↦ inr (
        inr (
          cons≢nil,
          filled,
          rw (collect-free (id ∷ ids) [] filled) (
              (callbacks_lem (List Item) (reply_of (answer (map free (id ∷ ids)))) replies).1 refl),
        ))
  ]

  -- If the first reply to a call is what grpc-js documents - the answer of the service where it
  -- arrives before the deadline, an error for a deadline that has passed, or an error of the
  -- connection - then the promise is settled by it, whatever replies come later: by an answer
  -- within two seconds, which rejects a call for no space at all and one with an empty id among
  -- them, and resolves any other to one free item for each space, in the order asked for; by the
  -- error of the deadline only when two seconds are over; or by the error of the connection.
  pub get_availability_lem :
      (deadline_exceeded : Thrown) (now delay : ℕ) (ids : List String)
      (correlation_id : Option String) (first : Reply (List Item))
      (replies : List (Reply (List Item)))
      (how : Replies deadline_exceeded now delay (call now ids correlation_id) first)
      → Ends deadline_exceeded now delay ids correlation_id how
          (callbacks (List Item) (first ∷ replies) waiting)
  unfolding call
  get_availability_lem late now delay ids correlation_id first replies (answered early) =
      (omega arith, served ids replies)
  get_availability_lem late now delay ids correlation_id first replies (expired passed) =
      (omega arith, (callbacks_lem (List Item) first replies).0 late refl)
  get_availability_lem late now delay ids correlation_id first replies (broken thrown) =
      (callbacks_lem (List Item) first replies).0 thrown refl
