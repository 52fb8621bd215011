-- ===== src/Js/Number.antt =====
-- `Number.parseInt(text, 10)` and the tests on its result. A number is a double: NaN, an infinity,
-- or an integer with its sign. Digits past 2^53 round to the nearest double, ties to even.
use Prim.Native.Char.{Char, code}
use autospace_parking.Prelude.{
  ℕ, zero, suc, ◌+◌, ◌-◌, ◌*◌, ◌/◌, ◌%◌, ◌^◌, ◌≤◌, ◌<◌, String, Bool, true, false, ◌&&◌, ◌≡◌, refl,
  arith, ltb, leb, eqb, if◌then◌else◌,
}
use autospace_parking.Js.Text.{trim_start}

-- The first field says that the sign is minus.
pub data Number : Type 0 where
  nan : Number
  infinite : Bool → Number
  integer : Bool → ℕ → Number

-- `Number.isInteger(n)`
abbrev pub is_integer : Number → Bool
is_integer (integer minus n) = true
is_integer _ = false

-- `n <= 0`
abbrev pub is_at_most_zero : Number → Bool
is_at_most_zero nan = false
is_at_most_zero (infinite minus) = minus
is_at_most_zero (integer true n) = true
is_at_most_zero (integer false n) = eqb n 0

-- `n >= k` for a natural number `k` other than 0
abbrev pub is_at_least : Number → ℕ → Bool
is_at_least (integer false n) k = leb k n
is_at_least (infinite false) k = true
is_at_least _ k = false

-- The spacing of doubles at `n`: doubled from `u` until `n` lies below 2^53 of them.
spacing : ℕ → ℕ → ℕ → ℕ
spacing zero n u = u
spacing (suc fuel) n u =
    let wider = spacing fuel n (2 * u) in if ltb n (2 ^ 53 * u) then u else wider

nearest : ℕ → ℕ → ℕ
nearest n u =
    let down = n / u * u in
    let rest = n % u in
    if ltb (2 * rest) u
    then down
    else if ltb u (2 * rest)
    then down + u
    else if eqb (n / u % 2) 0
    then down
    else down + u

-- The double nearest to `n`. A double below 2^1024 needs at most 971 doublings.
unfoldable pub to_double : ℕ → ℕ
unfolding spacing nearest
to_double n = nearest n (spacing 971 n 1)

-- Values from half a step below 2^1024 on are infinite.
abbrev overflow : ℕ
overflow = 2 ^ 1024 - 2 ^ 970

of_digits : Bool → ℕ → Number
unfolding to_double
of_digits minus n = if leb overflow n then infinite minus else integer minus (to_double n)

is_digit : Char → Bool
is_digit c = leb b'0' (code c) && leb (code c) b'9'

-- The value of the digits at the front, after those read into `n`.
digits_from : ℕ → String → ℕ
digits_from n String.[] = n
digits_from n (String.◌∷◌ c s) =
    let rest = digits_from (n * 10 + (code c - b'0')) s in if is_digit c then rest else n

leading_digits : Bool → String → Number
leading_digits minus String.[] = nan
leading_digits minus (String.◌∷◌ c s) =
    if is_digit c then of_digits minus (digits_from 0 (String.◌∷◌ c s)) else nan

signed_digits : String → Number
signed_digits String.[] = nan
signed_digits (String.◌∷◌ c s) =
    if eqb (code c) b'-'
    then leading_digits true s
    else if eqb (code c) b'+'
    then leading_digits false s
    else leading_digits false (String.◌∷◌ c s)

unfoldable pub parse_int : String → Number
unfolding is_digit digits_from of_digits leading_digits signed_digits trim_start
parse_int s = signed_digits (trim_start s)

spacing_bounds : (fuel n u : ℕ) → 0 < u → u ≤ n → (0 < spacing fuel n u) × (spacing fuel n u ≤ n)
unfolding spacing
spacing_bounds zero n u p h = (p, h)
spacing_bounds (suc fuel) n u p h = ground (arith, spacing_bounds fuel n (2 * u))

down_pos : (n u : ℕ) → 0 < u → u ≤ n → 0 < n / u * u
down_pos n u p h = grind arith

nearest_pos : (n u : ℕ) → 0 < u → u ≤ n → 0 < nearest n u
unfolding nearest
nearest_pos n u p h = ground (arith, down_pos n u)

pub to_double_pos : (n : ℕ) → 0 < n → 0 < to_double n
unfolding to_double
to_double_pos n h =
    let (p, le) = spacing_bounds 971 n 1 (omega arith) h in nearest_pos n (spacing 971 n 1) p le

spacing_small : (fuel n : ℕ) → n < 2 ^ 53 → spacing fuel n 1 ≡ 1
unfolding spacing
spacing_small zero n h = refl
spacing_small (suc fuel) n h = ground arith

nearest_one : (n : ℕ) → nearest n 1 ≡ n
unfolding nearest
nearest_one n = ground arith

-- A number below 2^53 is read exactly.
pub to_double-eq_self : (n : ℕ) → n < 2 ^ 53 → to_double n ≡ n
unfolding to_double
to_double-eq_self n h = rw (spacing_small 971 n h) (nearest_one n)
