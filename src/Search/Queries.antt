-- ===== src/Search/Queries.antt =====
-- The queries that the form is converted into.
use autospace_parking.Prelude.{
  ℕ, ◌<◌, String, ◌≡◌, refl, subst, Bool, true, false, Option, none, some, List, [], ◌∷◌, arith,
  Option-cases, Bool-cases, inl, inr,
}
use autospace_parking.Js.Text.{truthy, or_default}
use autospace_parking.Search.Adapter.{
  DirtyFields, Ports, GaragesFilter, create_garages_filter, FormData, SlotsFilter, Variables,
  variables_of, convert, convert_all, returned, dirty_or, unless_zero, nonempty_object, has_key,
  slots_filter_has_keys, garages_filter_has_keys, LocationFilter,
}

-- A filter of garages asks for some of them, and does not skip 0.
pub record IsPage (f : GaragesFilter) : Type 0 where
  pub taken : (n : ℕ) × (f.take ≡ some n) × (0 < n)
  pub skipped : (n : ℕ) → f.skip ≡ some n → 0 < n

dirty_or_pos :
    (dirty : Bool) (value : Option ℕ) (fallback : ℕ)
    → 0 < fallback
    → 0 < dirty_or dirty value fallback
dirty_or_pos false value fallback h = h
dirty_or_pos true none fallback h = h
dirty_or_pos true (some n) fallback h = ground arith

unless_zero_pos : (n : ℕ) → 0 < n → unless_zero n ≡ some n
unless_zero_pos n h = ground arith

unless_zero-some : (n m : ℕ) → unless_zero n ≡ some m → 0 < m
unless_zero-some n m h = ground arith

nonempty_object-some {ℓ} :
    {A : Type ℓ} (test : Bool) (a b : A) → nonempty_object test a ≡ some b → (test ≡ true) × (a ≡ b)
nonempty_object-some true a b h = (refl, cc h)
nonempty_object-some false a b h = cc h

create_garages_filter-IsPage :
    (dirty : DirtyFields) (skip take : Option ℕ) → IsPage (create_garages_filter dirty skip take)
unfolding create_garages_filter
create_garages_filter-IsPage dirty skip take = record {
  taken =
      let pos = dirty_or_pos dirty.take take 10 (omega arith) in
      (dirty_or dirty.take take 10, unless_zero_pos _ pos, pos);
  skipped = unless_zero-some (dirty_or dirty.skip skip 0);
}

module _ (P : Ports) where
  -- Both times are given, garages are taken, and a filter of slots has a key.
  pub record IsQuery (v : Variables P) : Type 0 where
    pub started : truthy v.start ≡ true
    pub ended : truthy v.end ≡ true
    pub paged : (f : GaragesFilter) × (v.garage_filter ≡ some f) × IsPage f
    pub filtered : (f : SlotsFilter P) → v.slots_filter ≡ some f → slots_filter_has_keys P f ≡ true

  abbrev pub AllQueries : Option (Variables P) → Type 0
  AllQueries none = Unit
  AllQueries (some v) = IsQuery v

  present : (f : GaragesFilter) → IsPage f → nonempty_object (garages_filter_has_keys f) f ≡ some f
  present f page =
      let (n, taken, _) = page.taken in
      elim (Bool-cases (has_key f.skip)) [ inl e ↦ rw e refl | inr e ↦ rw (e, taken) refl ]

  pub variables_of-IsQuery :
      (dirty : DirtyFields) (form : FormData P) (start end : String)
      (area : LocationFilter P (Option P.Coordinate))
      → truthy start ≡ true
      → truthy end ≡ true
      → IsQuery (variables_of P dirty form start end area)
  unfolding variables_of
  variables_of-IsQuery dirty form start end area p q = record {
    started = p;
    ended = q;
    paged =
        let page = create_garages_filter-IsPage dirty form.skip form.take in
        let f = create_garages_filter dirty form.skip form.take in (f, present f page, page);
    filtered = λ f h.
        let (has_keys, same) = nonempty_object-some _ _ f h in
        subst (λ (g : SlotsFilter P). slots_filter_has_keys P g ≡ true) same has_keys;
  }

  pub convert_given :
      (dirty : DirtyFields) (form : FormData P) (start end : String)
      (area : LocationFilter P (Option P.Coordinate)) (kept : Option (Variables P))
      → form.start_time ≡ some start
      → form.end_time ≡ some end
      → truthy start ≡ true
      → truthy end ≡ true
      → form.location_filter ≡ some area
      → convert P dirty form kept ≡ some (variables_of P dirty form start end area)
  unfolding convert
  convert_given dirty form start end area kept from to p q there = simp (from, to, p, q, there)

  pub convert-IsQuery :
      (dirty : DirtyFields) (form : FormData P) (kept : Option (Variables P))
      → AllQueries kept
      → AllQueries (convert P dirty form kept)
  unfolding convert
  convert-IsQuery dirty form kept h = elim (Bool-cases (truthy (or_default form.start_time ""))) [
    | inr e ↦ rw e h
    | inl p ↦ elim (Bool-cases (truthy (or_default form.end_time ""))) [
      | inr e ↦ rw (p, e) h
      | inl q ↦ elim (Option-cases form.location_filter) [
        | inl nowhere ↦ rw (p, q, nowhere) h
        | inr (area, given) ↦ rw (p, q, given) (variables_of-IsQuery dirty form _ _ area p q)
      ]
    ]
  ]

  convert_all-IsQuery :
      (forms : List (DirtyFields × FormData P)) (kept : Option (Variables P))
      → AllQueries kept
      → AllQueries (convert_all P forms kept)
  unfolding convert_all
  convert_all-IsQuery [] kept h = h
  convert_all-IsQuery ((dirty, form) ∷ forms) kept h =
      convert_all-IsQuery forms (convert P dirty form kept) (convert-IsQuery dirty form kept h)

  -- Whatever the form has gone through, the variables that the hook returns ask for garages
  -- between two times that are not empty, take some of them, and have no filter of slots without a
  -- key; and none are returned while the form has errors.
  pub returned-IsQuery :
      (forms : List (DirtyFields × FormData P)) (has_errors : Bool) (v : Variables P)
      → returned P has_errors (convert_all P forms none) ≡ some v
      → (has_errors ≡ false) × IsQuery v
  unfolding returned
  returned-IsQuery forms true v h = cc h
  returned-IsQuery forms false v h = (refl, subst AllQueries h (convert_all-IsQuery forms none tt))
