-- ===== src/Outbox/Consumer/Interleaving/Safe.antt =====
-- What holds of the ledger and of the calls of the handler, however consumers take turns.
use autospace_parking.Prelude.{
  ℕ, String, ◌≡◌, refl, sym, ap, ◌∙◌, inl, inr, false, Option, none, some, List, [], ◌∷◌, ◌==◌,
  eq_iff, arith, All, count_if, count_if-append, Bool-cases,
}
use autospace_parking.Js.Exec.Keeps.{Outcome-cases}
use autospace_parking.Js.Text.{truthy}
use autospace_parking.Js.Json.{Json, null, obj, str, get, as_string}
use autospace_parking.Outbox.Consumer.Ports.{ConsumedEvent, Services, IsLawful}
use autospace_parking.Outbox.Consumer.{Environment, group_id, property}
use autospace_parking.Outbox.Consumer.Once.{is_event}
use autospace_parking.Outbox.Consumer.Interleaving.{
  Point, looking, handling, inserting, finished, threw, checked, begin, advance, Turn, takes, stops,
  other, turns, delivers, Reach, here, next,
}

-- A consumer that has not called the handler for the event, and will not while its row stands; the
-- id that it has read is the event's.
abbrev pub IsIdle : String → Point → Type 0
IsIdle k (looking group event id type) = is_event k event ≡ (id == k)
IsIdle k (handling group event id type) = (is_event k event ≡ (id == k)) × ((id == k) ≡ false)
IsIdle k (inserting row event) = Unit
IsIdle k finished = Unit
IsIdle k (threw thrown) = Unit

-- Where a consumer stands before its first `await`.
abbrev pub IsFresh : String → Point → Type 0
IsFresh k (looking group event id type) = is_event k event ≡ (id == k)
IsFresh k (handling group event id type) = ⊥
IsFresh k (inserting row event) = ⊥
IsFresh k finished = Unit
IsFresh k (threw thrown) = Unit

IsFresh-IsIdle : (k : String) (p : Point) → IsFresh k p → IsIdle k p
IsFresh-IsIdle k (looking group event id type) h = h
IsFresh-IsIdle k (handling group event id type) h = absurd h
IsFresh-IsIdle k (inserting row event) h = tt
IsFresh-IsIdle k finished h = tt
IsFresh-IsIdle k (threw thrown) h = tt

checked-IsFresh :
    (k group : String) (event id type : Json)
    → ((i : String) → id ≡ str i → is_event k event ≡ (i == k))
    → IsFresh k (checked group event (as_string id) (as_string type))
unfolding checked
checked-IsFresh k group event (str i) (str t) fits = elim (Bool-cases (truthy i)) [
  | inr empty ↦ rw empty tt
  | inl p ↦ elim (Bool-cases (truthy t)) [
    | inr empty ↦ rw (p, empty) tt
    | inl q ↦ rw (p, q) (fits i refl)
  ]
]
checked-IsFresh k group event (str i) _ fits = tt
checked-IsFresh k group event _ type fits = tt

module _ (S : Services) where
  open S use {World, Body, ledger, handled}

  -- How often the handler was called for the event.
  abbrev pub calls : String → World → ℕ
  calls k w = count_if (is_event k) (handled w)

  pub begin-IsFresh : (env : Environment) (k : String) (m : Option Body) → IsFresh k (begin S env m)
  unfolding begin property
  begin-IsFresh env k none = tt
  begin-IsFresh env k (some value) = elim (Outcome-cases (S.parse value)) [
    | inr (t, lost) ↦ rw lost tt
    | inl (obj o, parsed) ↦ rw parsed (
        checked-IsFresh k (group_id env) (obj o) (get "id" o) (get "type" o)
          (λ i held. rw held refl))
    | inl (null, parsed) ↦ rw parsed tt
    | inl (_, parsed) ↦ rw parsed tt
  ]

module _ (S : Services) (L : IsLawful S) where
  open S use {World, Body, ledger, handled}

  -- The row of the event stands, and the handler was called for it so many times.
  pub record IsSettled (k : String) (row : ConsumedEvent) (n : ℕ) (w : World) : Type 0 where
    pub entered : ledger w k ≡ some row
    pub counted : calls S k w ≡ n

  module _ (k : String) (row : ConsumedEvent) (n : ℕ) where
    abbrev Goes : Point × World → Type 0
    Goes o = IsSettled k row n o.1 × IsIdle k o.0

    not_it :
        (id : String) (w : World) → IsSettled k row n w → ledger w id ≡ none → (id == k) ≡ false
    not_it id w s absent = elim (Bool-cases (id == k)) [
      | inr apart ↦ apart
      | inl same ↦ absurd (ground (arith, ap (ledger w) ((eq_iff id k).0 same), s.entered, absent))
    ]

    look-Goes :
        (group : String) (event : Json) (id type : String) (w : World)
        → IsSettled k row n w
        → is_event k event ≡ (id == k)
        → Goes (advance S (looking group event id type) w)
    unfolding advance
    look-Goes group event id type w s fits =
        let same = L.find_one_by-world id w in
        let kept : IsSettled k row n (S.find_one_by id w).1 = rw same s in
        elim (Outcome-cases (S.find_one_by id w).0) [
          | inr (t, lost) ↦ (kept, rw lost tt)
          | inl (some existing, found) ↦ (kept, rw found tt)
          | inl (none, found) ↦
              let absent = L.find_one_by-ledger id w none found in
              (kept, rw found (fits, not_it id w s (sym absent)))
        ]

    handle-IsSettled :
        (event : Json) (w : World)
        → IsSettled k row n w
        → is_event k event ≡ false
        → IsSettled k row n (S.handler event w).1
    handle-IsSettled event w s not_k = record {
      entered = L.handler-ledger event w k ∙ s.entered;
      counted =
          ap (count_if (is_event k)) (L.handler-handled event w)
          ∙ ground (arith, count_if-append (is_event k) (handled w) (event ∷ []), not_k, s.counted);
    }

    insert-IsSettled :
        (new : ConsumedEvent) (w : World)
        → IsSettled k row n w
        → IsSettled k row n (S.insert new w).1
    insert-IsSettled new w s = record {
      entered = elim (Outcome-cases (S.insert new w).0) [
        | inr (t, lost) ↦ L.insert-rejected new w t lost k ∙ s.entered
        | inl (_, inserted) ↦
            let (absent, rows) = L.insert-resolved new w inserted in
            let not_k = not_it new.event_id w s absent in
            rows k ∙ ground (arith, eq_iff k new.event_id, eq_iff new.event_id k, not_k, s.entered)
      ];
      counted = ap (count_if (is_event k)) (L.insert-handled new w) ∙ s.counted;
    }

    advance-Goes : (p : Point) (w : World) → IsSettled k row n w → IsIdle k p → Goes (advance S p w)
    unfolding advance
    advance-Goes (looking group event id type) w s idle = look-Goes group event id type w s idle
    advance-Goes (handling group event id type) w s (fits, not_k) =
        let kept = handle-IsSettled event w s (fits ∙ not_k) in
        elim (Outcome-cases (S.handler event w).0) [
          | inr (t, lost) ↦ (kept, rw lost tt)
          | inl (_, done) ↦ (kept, rw done tt)
        ]
    advance-Goes (inserting new event) w s idle =
        let kept = insert-IsSettled new w s in
        elim (Outcome-cases (S.insert new w).0) [
          | inr (t, lost) ↦ (kept, rw lost tt)
          | inl (_, done) ↦ (kept, rw done tt)
        ]
    advance-Goes finished w s idle = (s, tt)
    advance-Goes (threw thrown) w s idle = (s, tt)

    Turn-IsSettled :
        {ps qs : List Point} {w v : World}
        → Turn S ps w qs v
        → IsSettled k row n w
        → All (IsIdle k) ps
        → IsSettled k row n v × All (IsIdle k) qs
    Turn-IsSettled (takes p ps w) s a =
        let (kept, idle) = advance-Goes p w s a.0 in (kept, (idle, a.1))
    Turn-IsSettled (stops p ps w) s a = (s, a.1)
    Turn-IsSettled (other p t) s a =
        let (kept, idle) = Turn-IsSettled t s a.1 in (kept, (a.0, idle))

    Reach-IsIdle :
        {env : Environment} {from : List Point} {start : World} {ps : List Point} {w : World}
        → Reach S env from start ps w
        → IsSettled k row n start
        → All (IsIdle k) from
        → IsSettled k row n w × All (IsIdle k) ps
    Reach-IsIdle here s a = (s, a)
    Reach-IsIdle (next r (turns t)) s a =
        let (kept, idle) = Reach-IsIdle r s a in Turn-IsSettled t kept idle
    Reach-IsIdle {env} (next r (delivers m ps w)) s a =
        let (kept, idle) = Reach-IsIdle r s a in
        (kept, (IsFresh-IsIdle k (begin S env m) (begin-IsFresh S env k m), idle))

  -- Once an event stands in the ledger, no consumer is between its look-up and its call of the
  -- handler for the event, and each that is to look an id up has it from its message: the row
  -- stays as it is and the handler is not called for the event again, however many consumers take
  -- turns at each `await` of `process`, whatever is delivered to them and wherever they stop for
  -- good.
  pub Reach-IsSettled :
      {env : Environment} {from : List Point} {start : World} {ps : List Point} {w : World}
      (k : String) (row : ConsumedEvent)
      → ledger start k ≡ some row
      → All (IsIdle k) from
      → Reach S env from start ps w
      → (ledger w k ≡ some row) × (calls S k w ≡ calls S k start)
  Reach-IsSettled {start = start} k row entered idle r =
      let (settled, _) =
        Reach-IsIdle k row (calls S k start) r (record { entered = entered; counted = refl })
          idle in
      (settled.entered, settled.counted)
