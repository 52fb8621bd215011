-- ===== src/Hold/Exclusion.antt =====
-- A hold is coordinated once at a time.
use text.Mathlib.TextLemmas.{nil-append, cons-append}
use autospace_parking.Prelude.{
  ℕ, ◌<◌, ◌≤◌, ◌≡◌, ◌≢◌, sym, ap, ◌∙◌, String, none, some, List, [], ◌∷◌, ◌<>◌, ◌==◌, eq_iff, arith,
  All, Bool-cases, inl, inr,
}
use autospace_parking.Hold.Coordinator.{
  Store, already_coordinated, key, set_nx, acquire, release, Call, acquires, releases, perform,
  perform_all,
}

key-injective : (prefix a b : String) → key prefix a ≡ key prefix b → a ≡ b
key-injective String.[] a b h = sym (nil-append a) ∙ h ∙ nil-append b
key-injective (String.◌∷◌ c s) a b h =
    let tails : String.◌∷◌ c (s <> a) ≡ String.◌∷◌ c (s <> b) =
      sym (cons-append c s a) ∙ h ∙ cons-append c s b in
    key-injective s a b (cc tails)

module _ (prefix : String) where
  -- A call that leaves a hold alone that is coordinated until then: it releases another one, or is made before.
  abbrev pub Spares : String → ℕ → Call prefix → Type 0
  Spares hold_id until (acquires now id expires_at) = now < until
  Spares hold_id until (releases id) = id ≢ hold_id

  Spares-kept :
      (hold_id : String) (until : ℕ) (c : Call prefix) (store : Store)
      → Spares hold_id until c
      → store (key prefix hold_id) ≡ some until
      → perform prefix c store (key prefix hold_id) ≡ some until
  unfolding perform acquire release set_nx
  Spares-kept hold_id until (acquires now id expires_at) store before kept =
      elim (Bool-cases (key prefix id == key prefix hold_id)) [
        | inl same ↦
            let at_key = (eq_iff (key prefix id) (key prefix hold_id)).0 same in
            ground (arith, before, kept, ap store at_key)
        | inr apart ↦ ground (arith, kept, apart)
      ]
  Spares-kept hold_id until (releases id) store other kept =
      elim (Bool-cases (key prefix id == key prefix hold_id)) [
        | inl same ↦ absurd (
            other (
              key-injective prefix id hold_id
                ((eq_iff (key prefix id) (key prefix hold_id)).0 same)))
        | inr apart ↦ rw apart kept
      ]

  spared-kept :
      (hold_id : String) (until : ℕ) (calls : List (Call prefix)) (store : Store)
      → All (Spares hold_id until) calls
      → store (key prefix hold_id) ≡ some until
      → perform_all prefix calls store (key prefix hold_id) ≡ some until
  unfolding perform_all
  spared-kept hold_id until [] store spared kept = kept
  spared-kept hold_id until (c ∷ cs) store (here, below) kept =
      spared-kept hold_id until cs (perform prefix c store) below
        (Spares-kept hold_id until c store here kept)

  acquired :
      (now until : ℕ) (hold_id : String) (store : Store)
      → (acquire prefix now hold_id until store).1 ≡ none
      → (acquire prefix now hold_id until store).0 (key prefix hold_id) ≡ some until
  unfolding acquire set_nx
  acquired now until hold_id store h =
      ground (arith, h, eq_iff (key prefix hold_id) (key prefix hold_id))

  -- After a hold has been acquired until some time, whatever else is acquired before that time and
  -- whichever other holds are released: a further acquisition of it with an expiry ahead is
  -- refused as long as that time has not come, and granted from then on, or at once after the hold
  -- is released.
  pub acquire_exclusive :
      (now until : ℕ) (hold_id : String) (store : Store)
      → (acquire prefix now hold_id until store).1 ≡ none
      → (calls : List (Call prefix)) → All (Spares hold_id until) calls
      → (later until' : ℕ) → later < until'
      → let after = perform_all prefix calls (acquire prefix now hold_id until store).0 in
        (later < until → (acquire prefix later hold_id until' after).1 ≡ some already_coordinated)
        × (until ≤ later → (acquire prefix later hold_id until' after).1 ≡ none)
        × ((acquire prefix later hold_id until' (release prefix hold_id after)).1 ≡ none)
  unfolding acquire release set_nx
  acquire_exclusive now until hold_id store granted calls spared later until' ahead =
      let granted_store = (acquire prefix now hold_id until store).0 in
      let kept =
        spared-kept hold_id until calls granted_store spared
          (acquired now until hold_id store granted) in
      (
        λ before. ground (arith, before, ahead, kept),
        λ expired. ground (arith, expired, ahead, kept),
        ground (arith, ahead, eq_iff (key prefix hold_id) (key prefix hold_id)),
      )
