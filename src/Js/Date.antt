-- ===== src/Js/Date.antt =====
-- `Date.prototype.toISOString` of a date between 1970 and 9999, given in milliseconds since the
-- epoch. The calendar is the proleptic Gregorian one, by eras of 400 years that begin in March.
use autospace_parking.Prelude.{
  ℕ, zero, suc, ◌+◌, ◌-◌, ◌*◌, ◌/◌, ◌%◌, ◌≡◌, refl, String, ◌<>◌, ltb, leb, eqb, if◌then◌else◌,
}

digit : ℕ → String
digit n =
    if eqb n 0
    then "0"
    else if eqb n 1
    then "1"
    else if eqb n 2
    then "2"
    else if eqb n 3
    then "3"
    else if eqb n 4
    then "4"
    else if eqb n 5
    then "5"
    else if eqb n 6
    then "6"
    else if eqb n 7
    then "7"
    else if eqb n 8
    then "8"
    else "9"

-- The last `width` decimal digits.
padded : ℕ → ℕ → String
padded zero n = ""
padded (suc width) n = padded width (n / 10) <> digit (n % 10)

record Day : Type 0 where
  year : ℕ
  month : ℕ
  day : ℕ

civil : ℕ → Day
civil days =
    let z = days + 719468 in
    let era = z / 146097 in
    let doe = z % 146097 in
    let yoe = (doe + doe / 36524 - doe / 1460 - doe / 146096) / 365 in
    let doy = doe - (365 * yoe + yoe / 4 - yoe / 100) in
    let mp = (5 * doy + 2) / 153 in
    let m = (if ltb mp 10 then mp + 3 else mp - 9) in
    record {
      year = yoe + era * 400 + (if leb m 2 then 1 else 0);
      month = m;
      day = doy - (153 * mp + 2) / 5 + 1;
    }

unfoldable pub to_iso_string : ℕ → String
unfolding digit padded civil
to_iso_string ms =
    let d = civil (ms / 86400000) in
    let s = ms / 1000 in
    padded 4 d.year
    <> ("-"
        <> (padded 2 d.month
            <> ("-"
                <> (padded 2 d.day
                    <> ("T"
                        <> (padded 2 (s / 3600 % 24)
                            <> (":"
                                <> (padded 2 (s / 60 % 60)
                                    <> (":"
                                        <> (padded 2 (s % 60)
                                            <> ("." <> (padded 3 (ms % 1000) <> "Z"))))))))))))

iso_tests :
    (to_iso_string 0 ≡ "1970-01-01T00:00:00.000Z")
    × (to_iso_string 951827696789 ≡ "2000-02-29T12:34:56.789Z")
    × (to_iso_string 1789516800000 ≡ "2026-09-16T00:00:00.000Z")
unfolding to_iso_string
iso_tests = (refl, refl, refl)
