-- ===== src/Base/Calendar.antt =====
-- The fields of a JavaScript `Date` in UTC, for dates from 1970 on: milliseconds since the epoch,
-- the year, and the month from 0. Decimal text of a number.
use Prim.Native.Nat.{ℕ, zero, suc, ◌+◌, ◌-◌, ◌*◌, ◌/◌, ◌%◌}
use Prim.Native.String.{String, ◌++◌}
use mathlib.Core.Path.{◌≡◌, refl}
use jagalchi_api.Base.Tests.{ltb, ◌==◌, if◌then◌else◌}

abbrev day_ms : ℕ
day_ms = 86400000

-- Years are counted from the first of March of year 0, in eras of 400 years of 146097 days.
record MarchDay : Type 0 where
  era : ℕ
  year_of_era : ℕ
  day_of_year : ℕ

march_day : ℕ → MarchDay
march_day days =
    let z = days + 719468 in
    let doe = z % 146097 in
    let yoe = (doe + doe / 36524 - doe / 1460 - doe / 146096) / 365 in
    record {
      era = z / 146097;
      year_of_era = yoe;
      day_of_year = doe - (365 * yoe + yoe / 4 - yoe / 100);
    }

-- The month from March on.
month_from_march : MarchDay → ℕ
month_from_march d = (5 * d.day_of_year + 2) / 153

-- `getUTCMonth()`
unfoldable pub utc_month : ℕ → ℕ
unfolding march_day month_from_march
utc_month t =
    let mp = month_from_march (march_day (t / day_ms)) in if ltb mp 10 then mp + 2 else mp - 10

-- `getUTCFullYear()`
unfoldable pub utc_full_year : ℕ → ℕ
unfolding march_day utc_month
utc_full_year t =
    let d = march_day (t / day_ms) in
    let y = d.year_of_era + d.era * 400 in if ltb (utc_month t) 2 then y + 1 else y

-- `Date.UTC(year, month, 1)`, where a month past December runs into the next year.
unfoldable pub utc : ℕ → ℕ → ℕ
utc year month =
    let y0 = year + month / 12 in
    let m = month % 12 in
    let y = if ltb m 2 then y0 - 1 else y0 in
    let mp = if ltb m 2 then m + 10 else m - 2 in
    let yoe = y % 400 in
    let doe = yoe * 365 + yoe / 4 - yoe / 100 + (153 * mp + 2) / 5 in
    (y / 400 * 146097 + doe - 719468) * day_ms

digit : ℕ → String
digit d =
    if d == 0
    then "0"
    else if d == 1
    then "1"
    else if d == 2
    then "2"
    else if d == 3
    then "3"
    else if d == 4
    then "4"
    else if d == 5
    then "5"
    else if d == 6
    then "6"
    else if d == 7
    then "7"
    else if d == 8
    then "8"
    else "9"

decimal_fuel : ℕ → ℕ → String
decimal_fuel zero n = ""
decimal_fuel (suc f) n =
    let rest = decimal_fuel f (n / 10) in if ltb n 10 then digit n else rest ++ digit (n % 10)

-- `${n}`; a number has at most as many digits as its value and one.
unfoldable pub decimal : ℕ → String
unfolding decimal_fuel digit
decimal n = decimal_fuel (suc n) n

-- 29 February 2024, 31 December 1999 and 1 January 2000.
leap_day : utc_month 1709164800000 ≡ 1
unfolding utc_month
leap_day = refl

last_month : utc_month 946684799999 ≡ 11
unfolding utc_month
last_month = refl

last_year : utc_full_year 946684799999 ≡ 1999
unfolding utc_full_year
last_year = refl

next_year : utc_full_year 946684800000 ≡ 2000
unfolding utc_full_year
next_year = refl

thirteenth_month : utc 1999 12 ≡ 946684800000
unfolding utc
thirteenth_month = refl

digits : decimal 2026 ≡ "2026"
unfolding decimal
digits = refl
