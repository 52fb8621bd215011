-- ===== src/Outbox/Memory/Lawful.antt =====
-- The table of two rows meets `IsLawful`.
use mathlib.Core.Option
use mathlib.Core.List.{Memᴰ}
use autospace_parking.Prelude.{
  ℕ, zero, suc, String, ◌≡◌, ◌≢◌, refl, sym, ap, ◌∙◌, subst, ◌⊎◌, inl, inr, Bool, true, false,
  Option, none, some, List, [], ◌∷◌, arith, ◌==◌, eq_iff, if◌then◌else◌, length, length-take-le,
  take, All, All-take, All-Memᴰ, Bool-cases, Option-cases,
}
use autospace_parking.Js.Exec.{Thrown, resolved, rejected}
use autospace_parking.Outbox.Entity.{OutboxEvent, NewEvent, apply, add_attempts, stored}
use autospace_parking.Outbox.Services.{
  Query, matches, skips, Precedes, IsOrdered, HasDistinctIds, IsSelection, IsLawful,
}
use autospace_parking.Outbox.Memory.{
  Memory, memory, named, find, change, at_or_before, candidate, in_order, selection, save,
}

a_not_b : ◌≢◌ {A = String} "a" "b"
a_not_b = ground (arith, eq_iff "a" "b")

module _ (q : Query) where
  IsOrdered-take : (n : ℕ) (xs : List OutboxEvent) → IsOrdered q xs → IsOrdered q (take n xs)
  IsOrdered-take zero xs h = tt
  IsOrdered-take (suc n) [] h = tt
  IsOrdered-take (suc n) (x ∷ xs) h = (All-take (Precedes q x) n xs h.0, IsOrdered-take n xs h.1)

  -- What the limit cuts off comes after all that is taken.
  take_complete :
      (n : ℕ) (xs : List OutboxEvent) (e : OutboxEvent)
      → IsOrdered q xs
      → Memᴰ e xs
      → Memᴰ e (take n xs) ⊎ ((length (take n xs) ≡ n) × All (λ d. Precedes q d e) (take n xs))
  take_complete zero xs e h m = inr (refl, tt)
  take_complete (suc n) [] e h m = elim m [ ]
  take_complete (suc n) (x ∷ xs) e h (Memᴰ.head p) = inl (Memᴰ.head p)
  take_complete (suc n) (x ∷ xs) e h (Memᴰ.tail m) = elim (take_complete n xs e h.1 m) [
    | inl taken ↦ inl (Memᴰ.tail taken)
    | inr (full, before) ↦ inr (ground arith, (All-Memᴰ (Precedes q x) e xs m h.0, before))
  ]

HasDistinctIds-take :
    (n : ℕ) (xs : List OutboxEvent) → HasDistinctIds xs → HasDistinctIds (take n xs)
HasDistinctIds-take zero xs h = tt
HasDistinctIds-take (suc n) [] h = tt
HasDistinctIds-take (suc n) (x ∷ xs) h =
    (All-take (λ d. x.id ≢ d.id) n xs h.0, HasDistinctIds-take n xs h.1)

module _ (q : Query) (w : Memory) where
  abbrev listed : List OutboxEvent
  listed = in_order q (candidate q "a" w.a) (candidate q "b" w.b)

  in_order-IsOrdered : (d e : Option OutboxEvent) → IsOrdered q (in_order q d e)
  in_order-IsOrdered none none = tt
  in_order-IsOrdered (some d) none = (tt, tt)
  in_order-IsOrdered none (some e) = (tt, tt)
  in_order-IsOrdered (some d) (some e) = ground arith

  in_order-All :
      (P : OutboxEvent → Type 0) (d e : Option OutboxEvent)
      → ((x : OutboxEvent) → d ≡ some x → P x)
      → ((x : OutboxEvent) → e ≡ some x → P x)
      → All P (in_order q d e)
  in_order-All P none none h k = tt
  in_order-All P (some d) none h k = (h d refl, tt)
  in_order-All P none (some e) h k = (k e refl, tt)
  in_order-All P (some d) (some e) h k = elim (Bool-cases (at_or_before q.by_occurred_at d e)) [
    | inl p ↦ rw p (h d refl, (k e refl, tt))
    | inr p ↦ rw p (k e refl, (h d refl, tt))
  ]

  in_order-distinct :
      (d e : Option OutboxEvent)
      → ((x y : OutboxEvent) → d ≡ some x → e ≡ some y → x.id ≢ y.id)
      → HasDistinctIds (in_order q d e)
  in_order-distinct none none h = tt
  in_order-distinct (some d) none h = (tt, tt)
  in_order-distinct none (some e) h = (tt, tt)
  in_order-distinct (some d) (some e) h = elim (Bool-cases (at_or_before q.by_occurred_at d e)) [
    | inl p ↦ rw p ((h d e refl refl, tt), (tt, tt))
    | inr p ↦ rw p ((λ same. h d e refl refl (sym same), tt), (tt, tt))
  ]

  in_order_left : (d : OutboxEvent) (e : Option OutboxEvent) → Memᴰ d (in_order q (some d) e)
  in_order_left d none = Memᴰ.head refl
  in_order_left d (some e) = elim (Bool-cases (at_or_before q.by_occurred_at d e)) [
    | inl p ↦ rw p (Memᴰ.head refl)
    | inr p ↦ rw p (Memᴰ.tail (Memᴰ.head refl))
  ]

  in_order_right : (d : Option OutboxEvent) (e : OutboxEvent) → Memᴰ e (in_order q d (some e))
  in_order_right none e = Memᴰ.head refl
  in_order_right (some d) e = elim (Bool-cases (at_or_before q.by_occurred_at d e)) [
    | inl p ↦ rw p (Memᴰ.tail (Memᴰ.head refl))
    | inr p ↦ rw p (Memᴰ.head refl)
  ]

  abbrev IsRow : OutboxEvent → Type 0
  IsRow e = (find w e.id ≡ some e) × (matches q e ≡ true) × (skips q false ≡ false)

  skips_none : skips q false ≡ false
  skips_none = ground arith

  candidate_lem :
      (id : String) (o : Option OutboxEvent) (x : OutboxEvent)
      → candidate q id o ≡ some x
      → (Option.map (named id) o ≡ some x) × (matches q x ≡ true) × (x.id ≡ id)
  candidate_lem id none x h = cc
  candidate_lem id (some e) x h = elim (Bool-cases (matches q (named id e))) [
    | inl m ↦
        let same : named id e ≡ x = ground arith in
        (ap some same, rw (← same) m, sym (ap (λ (y : OutboxEvent). y.id) same))
    | inr m ↦ absurd (ground arith)
  ]

  IsRow-of :
      (id : String) (o : Option OutboxEvent) (x : OutboxEvent)
      → find w id ≡ Option.map (named id) o
      → candidate q id o ≡ some x
      → IsRow x × (x.id ≡ id)
  IsRow-of id o x at_id h =
      let (row, m, same) = candidate_lem id o x h in
      ((ap (find w) same ∙ (at_id ∙ row), m, skips_none), same)

  candidate_found :
      (id : String) (o : Option OutboxEvent) (x : OutboxEvent)
      → Option.map (named id) o ≡ some x
      → matches q x ≡ true
      → candidate q id o ≡ some x
  candidate_found id none x h m = cc
  candidate_found id (some e) x h m = let same : named id e ≡ x = ground arith in rw same (rw m)

  listed_found :
      (j : String) (e : OutboxEvent) → find w j ≡ some e → matches q e ≡ true → Memᴰ e listed
  listed_found j e h m = elim (Bool-cases (j == "a")) [
    | inl at_a ↦ rw (candidate_found "a" w.a e (ground arith) m) (in_order_left e _)
    | inr other ↦ elim (Bool-cases (j == "b")) [
      | inl at_b ↦ rw (candidate_found "b" w.b e (ground arith) m) (in_order_right _ e)
      | inr neither ↦ absurd (ground arith)
    ]
  ]

  selection-IsSelection :
      (refuses : String → Bool) → IsSelection (memory refuses) q w (selection q w)
  selection-IsSelection refuses =
      let row_a : (x : OutboxEvent) → candidate q "a" w.a ≡ some x → IsRow x × (x.id ≡ "a") =
        λ x h. IsRow-of "a" w.a x refl h in
      let row_b : (x : OutboxEvent) → candidate q "b" w.b ≡ some x → IsRow x × (x.id ≡ "b") =
        λ x h. IsRow-of "b" w.b x refl h in
      record {
        rows = All-take IsRow q.take listed (
            in_order-All IsRow (candidate q "a" w.a) (candidate q "b" w.b) (λ x h. (row_a x h).0)
              (λ x h. (row_b x h).0));
        distinct = HasDistinctIds-take q.take listed (
            in_order-distinct _ _
              (λ x y h k same. a_not_b (sym (row_a x h).1 ∙ (same ∙ (row_b y k).1))));
        ordered = IsOrdered-take q q.take listed (in_order-IsOrdered _ _);
        bounded = length-take-le q.take listed;
        complete = λ j e h m free.
            take_complete q q.take listed e (in_order-IsOrdered _ _) (listed_found j e h m);
      }

map-named :
    (k : String) (f : OutboxEvent → OutboxEvent) (o : Option OutboxEvent)
    → ((e : OutboxEvent) (i : String) → f (named i e) ≡ named i (f e))
    → Option.map (named k) (Option.map f o) ≡ Option.map f (Option.map (named k) o)
map-named k f none keeps = refl
map-named k f (some e) keeps = ap some (sym (keeps e k))

find-change :
    (id : String) (f : OutboxEvent → OutboxEvent) (w : Memory) (j : String)
    → ((e : OutboxEvent) (k : String) → f (named k e) ≡ named k (f e))
    → find (change id f w) j ≡ (if j == id then Option.map f (find w j) else find w j)
find-change id f w j keeps =
    let in_a = map-named "a" f w.a keeps in
    let in_b = map-named "b" f w.b keeps in
    ground
      (arith, in_a, in_b, eq_iff j id, eq_iff j "a", eq_iff j "b", eq_iff id "a", eq_iff id "b")

find-id : (w : Memory) (j : String) (e : OutboxEvent) → find w j ≡ some e → e.id ≡ j
find-id w j e h = ground (arith, eq_iff j "a", eq_iff j "b")

find-save :
    (n : NewEvent) (w : Memory) (e : OutboxEvent)
    → (save n w).0 ≡ resolved e
    → (find w e.id ≡ none)
      × (e ≡ stored e.id w.clock n)
      × ((j : String) → find (save n w).1 j ≡ (if j == e.id then some e else find w j))
find-save n w e h = elim (Option-cases w.a) [
  | inl free ↦
      let same : stored "a" w.clock n ≡ e = ground arith in
      let at_a : e.id ≡ "a" = sym (ap (λ (x : OutboxEvent). x.id) same) in
      (
        ground (arith, eq_iff e.id "a"),
        rw (← same) refl,
        λ j. ground (arith, eq_iff j e.id, eq_iff j "a", eq_iff e.id "a"),
      )
  | inr (x, taken) ↦ elim (Option-cases w.b) [
    | inl free ↦
        let same : stored "b" w.clock n ≡ e = ground arith in
        let at_b : e.id ≡ "b" = sym (ap (λ (x : OutboxEvent). x.id) same) in
        (
          ground (arith, a_not_b, eq_iff e.id "a", eq_iff e.id "b"),
          rw (← same) refl,
          λ j. ground (arith, a_not_b, eq_iff j e.id, eq_iff j "a", eq_iff j "b", eq_iff e.id "b"),
        )
    | inr (y, full) ↦ absurd (ground arith)
  ]
]

find-save_rejected :
    (n : NewEvent) (w : Memory) (t : Thrown)
    → (save n w).0 ≡ rejected t
    → (j : String) → find (save n w).1 j ≡ find w j
find-save_rejected n w t h j = elim (Option-cases w.a) [
  | inl free ↦ absurd (ground (arith, free, h))
  | inr (x, taken) ↦ elim (Option-cases w.b) [
    | inl free ↦ absurd (ground (arith, taken, free, h))
    | inr (y, full) ↦ ground (arith, taken, full)
  ]
]

sent-save : (n : NewEvent) (w : Memory) → (save n w).1.sent ≡ w.sent
sent-save n w = ground arith

-- The table of two rows with its broker meets the assumptions.
pub memory-IsLawful : (refuses : String → Bool) → IsLawful (memory refuses)
memory-IsLawful refuses = record {
  find-id = find-id;
  get_many-IsSelection = λ q w es h.
      subst (λ xs. IsSelection (memory refuses) q w xs) (ground arith)
        (selection-IsSelection q w refuses);
  find-get_many = λ q w j. refl;
  locked-get_many = λ q w j. refl;
  delivered-get_many = λ q w. refl;
  find-save = find-save;
  find-save_rejected = find-save_rejected;
  delivered-save = λ n w. sent-save n w;
  find-update = λ id p w j. find-change id (apply p) w j (λ e k. refl);
  find-increment = λ id n w j. find-change id (add_attempts n) w j (λ e k. refl);
  delivered-update = λ id p w. refl;
  delivered-increment = λ id n w. refl;
  find-publish = λ e w j. ground arith;
  delivered-publish = λ e w h. ground arith;
  delivered-publish_rejected = λ e w. ground arith;
}
