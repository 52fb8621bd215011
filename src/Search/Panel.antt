-- ===== src/Search/Panel.antt =====
-- ShowGarages.tsx over time: the hook of searchFormAdapter.ts keeps the variables of the query, and
-- the effect of ShowGarages asks for them when they have changed.
pub mod Asked
use autospace_parking.Prelude.{
  ℕ, ◌+◌, Bool, true, false, Option, none, some, List, [], ◌∷◌, eqb, if◌then◌else◌,
}
use autospace_parking.Search.Adapter.{Ports, DirtyFields, FormData, Variables, convert, returned}

-- Two values of `variables` are the same object, which is told by the number of its `setVariables`.
abbrev pub is_same : Option ℕ → Option ℕ → Bool
is_same none none = true
is_same (some n) (some m) = eqb n m
is_same _ _ = false

module _ (P : Ports) where
  -- Whether the form has errors; the variables that the hook keeps, and how often they have been
  -- set; what `variables` was when the effect last ran, which is null on the first render; and what
  -- `searchGarages` was called with, the last call first.
  pub record Panel : Type 0 where
    pub has_errors : Bool
    pub kept : Option (Variables P)
    pub version : ℕ
    pub seen : Option ℕ
    pub asked : List (Variables P)

  abbrev pub new_panel : Panel
  new_panel = record { has_errors = false; kept = none; version = 0; seen = none; asked = [] }

  set_variables : Option (Variables P) → Panel → Panel
  set_variables none p = p
  set_variables (some v) p = record p { kept = some v; version = p.version + 1 }

  -- The effect of the hook, which runs for each form that the debounce lets through: it returns, or
  -- calls `setVariables`.
  unfoldable pub settle_form : DirtyFields → FormData P → Panel → Panel
  unfolding set_variables
  settle_form dirty form p = set_variables (convert P dirty form none) p

  -- The form is validated.
  abbrev pub validate : Bool → Panel → Panel
  validate has_errors p = record p { has_errors = has_errors }

  -- `variables`, and which object it is.
  unfoldable pub variables : Panel → Option (Variables P)
  variables p = returned P p.has_errors p.kept

  numbered : Option (Variables P) → ℕ → Option ℕ
  numbered none n = none
  numbered (some v) n = some n

  unfoldable pub identity : Panel → Option ℕ
  unfolding variables numbered
  identity p = numbered (variables p) p.version

  ask : Option (Variables P) → List (Variables P) → List (Variables P)
  ask none asked = asked
  ask (some v) asked = v ∷ asked

  -- The effect of ShowGarages, after a render.
  unfoldable pub search_effect : Panel → Panel
  unfolding ask
  search_effect p =
      if is_same p.seen (identity p)
      then p
      else record p { seen = identity p; asked = ask (variables p) p.asked }

  pub data Change : Panel → Panel → Type 0 where
    settles :
        (dirty : DirtyFields) (form : FormData P) (p : Panel) → Change p (settle_form dirty form p)
    validates : (has_errors : Bool) (p : Panel) → Change p (validate has_errors p)
    renders : (p : Panel) → Change p (search_effect p)

  pub data Reach : Panel → Type 0 where
    here : Reach new_panel
    next : {p q : Panel} → Reach p → Change p q → Reach q
