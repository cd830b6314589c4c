-- ===== src/Value/Duration.antt =====
-- `str(timedelta)`, for a duration that is not negative.
use runmantle.Prelude.{ℕ, zero, suc, String, ◌<>◌, ltb, eqb, if◌then◌else◌, ◌/◌, ◌%◌}

digit : ℕ → String
digit d =
    if eqb d 0
    then "0"
    else if eqb d 1
    then "1"
    else if eqb d 2
    then "2"
    else if eqb d 3
    then "3"
    else if eqb d 4
    then "4"
    else if eqb d 5
    then "5"
    else if eqb d 6
    then "6"
    else if eqb d 7
    then "7"
    else if eqb d 8
    then "8"
    else "9"

-- The last `width` decimal digits.
padded : (width : ℕ) → ℕ → String
unfolding digit
padded zero n = ""
padded (suc w) n = padded w (n / 10) <> digit (n % 10)

-- The number of decimal digits. A `timedelta` has at most 999999999 days, so that a fuel of nine is
-- enough.
width_from : (fuel : ℕ) → ℕ → ℕ
width_from zero n = 1
width_from (suc f) n = let rest = width_from f (n / 10) in if ltb n 10 then 1 else suc rest

unfoldable pub decimal : ℕ → String
unfolding padded width_from
decimal n = padded (width_from 9 n) n

abbrev days_text : ℕ → String
days_text days =
    if eqb days 0 then "" else if eqb days 1 then "1 day, " else decimal days <> " days, "

abbrev fraction_text : ℕ → String
fraction_text micros = if eqb micros 0 then "" else "." <> padded 6 micros

unfoldable pub duration_text : (microseconds : ℕ) → String
unfolding decimal padded
duration_text us =
    let s = us / 1000000 in
    days_text (s / 86400)
    <> decimal ((s % 86400) / 3600)
    <> ":"
    <> padded 2 ((s % 3600) / 60)
    <> ":"
    <> padded 2 (s % 60)
    <> fraction_text (us % 1000000)
