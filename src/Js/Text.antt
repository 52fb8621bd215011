-- ===== src/Js/Text.antt =====
-- Texts as the source uses them: truthiness, `??`, `trim`, `split(',')`, `filter(Boolean)`.
-- A text is a list of code points; every character that the code tests is one UTF-16 unit.
pub mod Laws
use Prim.Native.Char.{Char, code}
use autospace_parking.Prelude.{
  ℕ, String, Bool, true, false, ◌||◌, ◌&&◌, Option, none, some, List, [], ◌∷◌, leb, eqb,
  if◌then◌else◌,
}

-- `Boolean(text)`: every text but the empty one.
abbrev pub truthy : String → Bool
truthy String.[] = false
truthy (String.◌∷◌ c s) = true

-- `Boolean(text)` where the text may be `undefined` or `null`.
abbrev pub truthy? : Option String → Bool
truthy? none = false
truthy? (some s) = truthy s

-- `value ?? fallback`
abbrev pub or_default {ℓ} : {A : Type ℓ} → Option A → A → A
or_default none fallback = fallback
or_default (some a) fallback = a

-- White space and line ends, which `trim` and `parseInt` skip.
unfoldable pub is_space : Char → Bool
is_space ch =
    let c = code ch in
    leb 9 c && leb c 13
    || eqb c 0x20
    || eqb c 0xa0
    || eqb c 0x1680
    || leb 0x2000 c && leb c 0x200a
    || eqb c 0x2028
    || eqb c 0x2029
    || eqb c 0x202f
    || eqb c 0x205f
    || eqb c 0x3000
    || eqb c 0xfeff

unfoldable pub trim_start : String → String
trim_start String.[] = ""
trim_start (String.◌∷◌ c s) = let rest = trim_start s in if is_space c then rest else String.◌∷◌ c s

-- At the end a space stays only before a character that stays.
unfoldable pub keep_before : Char → String → String
keep_before c String.[] = if is_space c then "" else String.◌∷◌ c ""
keep_before c (String.◌∷◌ d r) = String.◌∷◌ c (String.◌∷◌ d r)

unfoldable pub trim_end : String → String
unfolding keep_before
trim_end String.[] = ""
trim_end (String.◌∷◌ c s) = keep_before c (trim_end s)

unfoldable pub trim : String → String
unfolding trim_start trim_end is_space
trim s = trim_end (trim_start s)

-- `c` is put in front of the first part.
abbrev pub onto_first : Char → List String → List String
onto_first c [] = String.◌∷◌ c "" ∷ []
onto_first c (part ∷ parts) = String.◌∷◌ c part ∷ parts

unfoldable pub split : ℕ → String → List String
split separator String.[] = "" ∷ []
split separator (String.◌∷◌ c s) =
    let parts = split separator s in
    if eqb (code c) separator then "" ∷ parts else onto_first c parts

-- `.map((part) => part.trim()).filter(Boolean)`
unfoldable pub trim_all : List String → List String
trim_all [] = []
trim_all (part ∷ parts) =
    let t = trim part in let rest = trim_all parts in if truthy t then t ∷ rest else rest

-- `text.split(',').map((part) => part.trim()).filter(Boolean)`
unfoldable pub items : String → List String
unfolding split trim trim_all
items text = trim_all (split b',' text)

-- `text.startsWith(prefix)`
unfoldable pub starts_with : String → String → Bool
starts_with String.[] text = true
starts_with (String.◌∷◌ c s) String.[] = false
starts_with (String.◌∷◌ c s) (String.◌∷◌ d t) = eqb (code c) (code d) && starts_with s t

-- `text.includes(part)`
unfoldable pub includes : String → String → Bool
unfolding starts_with
includes part String.[] = starts_with part ""
includes part (String.◌∷◌ c s) = starts_with part (String.◌∷◌ c s) || includes part s
