-- ===== src/Js/Text/Laws.antt =====
-- What a comma-separated setting yields: clean items, and every list of clean items.
use Prim.Native.Char.{Char, code}
use text.Mathlib.TextLemmas.{nil-append, cons-append}
use autospace_parking.Prelude.{
  ℕ, String, ◌<>◌, Bool, true, false, ◌||◌, ◌≡◌, refl, ◌∙◌, ap, inl, inr, List, [], ◌∷◌, arith, eqb,
  All, Bool-cases,
}
use autospace_parking.Js.Text.{
  truthy, is_space, trim_start, keep_before, trim_end, trim, onto_first, split, trim_all, items,
}

abbrev pub has : ℕ → String → Bool
has k String.[] = false
has k (String.◌∷◌ c s) = eqb (code c) k || has k s

||-eq-false : (a b : Bool) → (a || b) ≡ false → (a ≡ false) × (b ≡ false)
||-eq-false a b h = ground arith

-- The text is empty or begins with a character that is no space.
abbrev StartsClean : String → Type 0
StartsClean String.[] = Unit
StartsClean (String.◌∷◌ c s) = is_space c ≡ false

trim_start-StartsClean : (s : String) → StartsClean (trim_start s)
unfolding trim_start
trim_start-StartsClean String.[] = tt
trim_start-StartsClean (String.◌∷◌ c s) = elim (Bool-cases (is_space c)) [
  | inl e ↦ rw e (trim_start-StartsClean s)
  | inr e ↦ rw e e
]

trim_start-eq_self : (s : String) → StartsClean s → trim_start s ≡ s
unfolding trim_start
trim_start-eq_self String.[] h = refl
trim_start-eq_self (String.◌∷◌ c s) h = rw h

keep_before-StartsClean :
    (c : Char) (s : String) → is_space c ≡ false → StartsClean (keep_before c s)
unfolding keep_before
keep_before-StartsClean c String.[] h = rw h h
keep_before-StartsClean c (String.◌∷◌ d s) h = h

trim_end-StartsClean : (s : String) → StartsClean s → StartsClean (trim_end s)
unfolding trim_end
trim_end-StartsClean String.[] h = tt
trim_end-StartsClean (String.◌∷◌ c s) h = keep_before-StartsClean c (trim_end s) h

trim_end-keep_before :
    (c : Char) (s : String) → trim_end s ≡ s → trim_end (keep_before c s) ≡ keep_before c s
unfolding trim_end keep_before
trim_end-keep_before c String.[] h = elim (Bool-cases (is_space c)) [
  | inl e ↦ rw e
  | inr e ↦ rw e (rw e)
]
trim_end-keep_before c (String.◌∷◌ d s) h = rw h

trim_end_idem : (s : String) → trim_end (trim_end s) ≡ trim_end s
unfolding trim_end
trim_end_idem String.[] = refl
trim_end_idem (String.◌∷◌ c s) = trim_end-keep_before c (trim_end s) (trim_end_idem s)

pub trim_idem : (s : String) → trim (trim s) ≡ trim s
unfolding trim
trim_idem s =
    let clean = trim_end-StartsClean (trim_start s) (trim_start-StartsClean s) in
    rw (trim_start-eq_self (trim_end (trim_start s)) clean) (trim_end_idem (trim_start s))

module _ (k : ℕ) where
  trim_start-has : (s : String) → has k s ≡ false → has k (trim_start s) ≡ false
  unfolding trim_start
  trim_start-has String.[] h = h
  trim_start-has (String.◌∷◌ c s) h = ground (arith, trim_start-has s)

  keep_before-has :
      (c : Char) (s : String)
      → eqb (code c) k ≡ false
      → has k s ≡ false
      → has k (keep_before c s) ≡ false
  unfolding keep_before
  keep_before-has c String.[] e h = elim (Bool-cases (is_space c)) [
    | inl space ↦ rw space
    | inr other ↦ rw (other, e)
  ]
  keep_before-has c (String.◌∷◌ d s) e h = ground arith

  trim_end-has : (s : String) → has k s ≡ false → has k (trim_end s) ≡ false
  unfolding trim_end
  trim_end-has String.[] h = h
  trim_end-has (String.◌∷◌ c s) h = ground (arith, keep_before-has c (trim_end s), trim_end-has s)

  trim-has : (s : String) → has k s ≡ false → has k (trim s) ≡ false
  unfolding trim
  trim-has s h = trim_end-has (trim_start s) (trim_start-has s h)

  abbrev Lacks : String → Type 0
  Lacks s = has k s ≡ false

  onto_first-Lacks :
      (c : Char) (parts : List String)
      → eqb (code c) k ≡ false
      → All Lacks parts
      → All Lacks (onto_first c parts)
  onto_first-Lacks c [] e h = ground arith
  onto_first-Lacks c (p ∷ ps) e h = (ground arith, h.1)

  split-Lacks : (s : String) → All Lacks (split k s)
  unfolding split
  split-Lacks String.[] = (refl, tt)
  split-Lacks (String.◌∷◌ c s) = elim (Bool-cases (eqb (code c) k)) [
    | inl e ↦ rw e (refl, split-Lacks s)
    | inr e ↦ rw e (onto_first-Lacks c (split k s) e (split-Lacks s))
  ]

-- An item of a setting: not empty, with no comma, and with no space at either end.
pub record IsItem (s : String) : Type 0 where
  pub nonempty : truthy s ≡ true
  pub trimmed : trim s ≡ s
  pub comma_free : has b',' s ≡ false

trim_all-IsItem : (parts : List String) → All (Lacks b',') parts → All IsItem (trim_all parts)
unfolding trim_all
trim_all-IsItem [] h = tt
trim_all-IsItem (p ∷ ps) h = elim (Bool-cases (truthy (trim p))) [
  | inl e ↦ rw e (
    record { nonempty = e; trimmed = trim_idem p; comma_free = trim-has b',' p h.0 },
    trim_all-IsItem ps h.1,
  )
  | inr e ↦ rw e (trim_all-IsItem ps h.1)
]

pub items-IsItem : (text : String) → All IsItem (items text)
unfolding items
items-IsItem text = trim_all-IsItem (split b',' text) (split-Lacks b',' text)

-- `parts.join(',')`
abbrev pub join : List String → String
join [] = ""
join (p ∷ []) = p
join (p ∷ q ∷ ps) = p <> ("," <> join (q ∷ ps))

trim_all-eq_self : (xs : List String) → All IsItem xs → trim_all xs ≡ xs
unfolding trim_all
trim_all-eq_self [] h = refl
trim_all-eq_self (x ∷ xs) h = rw (h.0.trimmed, h.0.nonempty, trim_all-eq_self xs h.1)

split-append : (p s : String) → has b',' p ≡ false → split b',' (p <> ("," <> s)) ≡ p ∷ split b',' s
unfolding split
split-append String.[] s h = rw (nil-append, cons-append, nil-append)
split-append (String.◌∷◌ c p) s h =
    let (here, rest) = ||-eq-false (eqb (code c) b',') (has b',' p) h in
    rw (cons-append, split, here, split-append p s rest)

split-of_Lacks : (p : String) → has b',' p ≡ false → split b',' p ≡ p ∷ []
unfolding split
split-of_Lacks String.[] h = refl
split-of_Lacks (String.◌∷◌ c p) h =
    let (here, rest) = ||-eq-false (eqb (code c) b',') (has b',' p) h in
    rw (here, split-of_Lacks p rest)

split-join :
    (x : String) (xs : List String) → All IsItem (x ∷ xs) → split b',' (join (x ∷ xs)) ≡ x ∷ xs
split-join x [] h = split-of_Lacks x h.0.comma_free
split-join x (y ∷ ys) h =
    split-append x (join (y ∷ ys)) h.0.comma_free
    ∙ ap (λ (r : List String). x ∷ r) (split-join y ys h.1)

-- A list of settings, joined by commas, is read back as it is, if none of them is empty, holds a
-- comma or has a space at either end.
items-join : (xs : List String) → All IsItem xs → items (join xs) ≡ xs
unfolding items
items-join [] h = refl
items-join (x ∷ xs) h = rw (split-join x xs h) (trim_all-eq_self (x ∷ xs) h)
