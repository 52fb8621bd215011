-- ===== src/Search/Panel/Asked.antt =====
-- What the panel asks for.
use autospace_parking.Prelude.{
  ℕ, ◌+◌, ◌≤◌, ◌≡◌, refl, ◌∙◌, inl, inr, Bool, true, false, Option, none, some, List, [], ◌∷◌, All,
  arith, Bool-cases,
}
use autospace_parking.Search.Adapter.{Ports, Variables, convert, returned}
use autospace_parking.Search.Queries.{IsQuery, AllQueries, convert-IsQuery}
use autospace_parking.Search.Panel.{
  Panel, settle_form, variables, identity, search_effect, set_variables, numbered, ask, is_same,
  settles, validates, renders, Reach, here, next,
}

module _ (P : Ports) where
  abbrev pub Leads : Option (Variables P) → List (Variables P) → Type 0
  Leads none asked = Unit
  Leads (some v) [] = ⊥
  Leads (some v) (last ∷ earlier) = last ≡ v

  -- What has been asked for, and the variables that are kept, are queries; where the effect has seen
  -- the variables that are kept, they are the last asked for.
  pub record IsCurrent (p : Panel P) : Type 0 where
    pub queries : All (IsQuery P) p.asked
    pub keeps : AllQueries P p.kept
    pub earlier : (n : ℕ) → p.seen ≡ some n → n ≤ p.version
    pub last : p.seen ≡ some p.version → Leads p.kept p.asked

  set_variables-IsCurrent :
      (v : Option (Variables P)) (p : Panel P)
      → AllQueries P v
      → IsCurrent p
      → IsCurrent (set_variables P v p)
  unfolding set_variables
  set_variables-IsCurrent none p q c = c
  set_variables-IsCurrent (some v) p q c = record {
    queries = c.queries;
    keeps = q;
    earlier = λ n h. omega (arith, c.earlier n h);
    last = λ h. absurd (omega (arith, c.earlier (p.version + 1) h));
  }

  -- The effect after a change.
  renewed :
      (has_errors : Bool) (kept : Option (Variables P)) (n : ℕ) (asked : List (Variables P))
      → All (IsQuery P) asked
      → AllQueries P kept
      → IsCurrent (record {
        has_errors = has_errors;
        kept = kept;
        version = n;
        seen = numbered P (returned P has_errors kept) n;
        asked = ask P (returned P has_errors kept) asked;
      })
  unfolding numbered ask returned
  renewed true kept n asked queries keeps = record {
    queries = queries;
    keeps = keeps;
    earlier = λ m h. cc h;
    last = λ h. cc h;
  }
  renewed false none n asked queries keeps = record {
    queries = queries;
    keeps = tt;
    earlier = λ m h. cc h;
    last = λ h. cc;
  }
  renewed false (some v) n asked queries keeps = record {
    queries = (keeps, queries);
    keeps = keeps;
    earlier = λ m h. ground arith;
    last = λ h. refl;
  }

  effect-IsCurrent : (p : Panel P) → IsCurrent p → IsCurrent (search_effect P p)
  unfolding search_effect identity variables
  effect-IsCurrent p c = elim (Bool-cases (is_same p.seen (identity P p))) [
    | inl same ↦ rw same c
    | inr changed ↦ rw changed (renewed p.has_errors p.kept p.version p.asked c.queries c.keeps)
  ]

  Reach-IsCurrent : {p : Panel P} → Reach P p → IsCurrent p
  unfolding settle_form
  Reach-IsCurrent here = record { queries = tt; keeps = tt; earlier = λ n h. cc h; last = λ h. cc }
  Reach-IsCurrent (next r (settles dirty form p)) =
      set_variables-IsCurrent (convert P dirty form none) p (convert-IsQuery P dirty form none tt)
        (Reach-IsCurrent r)
  Reach-IsCurrent (next r (validates has_errors p)) =
      let c = Reach-IsCurrent r in
      record { queries = c.queries; keeps = c.keeps; earlier = c.earlier; last = c.last }
  Reach-IsCurrent (next r (renders p)) = effect-IsCurrent p (Reach-IsCurrent r)

  is_same_refl : (n : Option ℕ) → is_same n n ≡ true
  is_same_refl none = refl
  is_same_refl (some n) = ground arith

  is_same_eq : (n m : Option ℕ) → is_same n m ≡ true → n ≡ m
  is_same_eq none none h = refl
  is_same_eq none (some m) h = cc h
  is_same_eq (some n) none h = cc h
  is_same_eq (some n) (some m) h = ground arith

  -- From the calls before the effect to those after it, where `variables` is `v`.
  abbrev pub Shows : Option (Variables P) → List (Variables P) → List (Variables P) → Type 0
  Shows none before after = after ≡ before
  Shows (some v) before after = Leads (some v) after

  asked_before :
      (has_errors : Bool) (kept : Option (Variables P)) (n : ℕ) (asked : List (Variables P))
      → (numbered P (returned P has_errors kept) n ≡ some n → Leads kept asked)
      → Shows (returned P has_errors kept) asked asked
  unfolding numbered returned
  asked_before true kept n asked last = refl
  asked_before false none n asked last = refl
  asked_before false (some v) n asked last = last refl

  Shows-ask :
      (v : Option (Variables P)) (asked : List (Variables P)) → Shows v asked (ask P v asked)
  unfolding ask
  Shows-ask none asked = refl
  Shows-ask (some v) asked = refl

  -- However forms settle and are validated and the panel of the results is rendered: each request
  -- that the panel has made after its effect asks for garages between two times that are not
  -- empty, takes some of them and has no filter of slots without a key; the last one is for the
  -- variables of the hook, or none is added while there are none; and the effect makes no request
  -- when it runs again with nothing changed.
  pub search_effect_lem :
      {p : Panel P}
      → Reach P p
      → All (IsQuery P) (search_effect P p).asked
        × Shows (variables P p) p.asked (search_effect P p).asked
        × (search_effect P (search_effect P p) ≡ search_effect P p)
  unfolding search_effect identity variables
  search_effect_lem {p} r =
      let c = Reach-IsCurrent (next r (renders p)) in
      let v = returned P p.has_errors p.kept in
      elim (Bool-cases (is_same p.seen (identity P p))) [
        | inl same ↦
            let seen = is_same_eq p.seen (identity P p) same in
            (
              c.queries,
              rw same (
                  asked_before p.has_errors p.kept p.version p.asked
                    (λ h. (Reach-IsCurrent r).last (seen ∙ h))),
              rw (same, same) refl,
            )
        | inr changed ↦ (
          c.queries,
          rw changed (Shows-ask v p.asked),
          rw (changed, is_same_refl (identity P p)) refl,
        )
      ]
