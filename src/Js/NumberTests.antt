-- ===== src/Js/NumberTests.antt =====
-- Texts that parseInt reads.
use autospace_parking.Prelude.{◌≡◌, refl, true, false, ◌^◌, ◌+◌}
use autospace_parking.Js.Text.{is_space}
use autospace_parking.Js.Number.{nan, integer, parse_int, to_double}

parse_int_tests :
    (parse_int "  42px" ≡ integer false 42)
    × (parse_int "-7" ≡ integer true 7)
    × (parse_int "px" ≡ nan)
    × (parse_int "" ≡ nan)
    × (to_double (2 ^ 53 + 1) ≡ 2 ^ 53)
    × (to_double (2 ^ 53 + 3) ≡ 2 ^ 53 + 4)
unfolding parse_int is_space to_double
parse_int_tests = (refl, refl, refl, refl, refl, refl)
