-- ===== src/Base/Date.antt =====
-- base/Date.h and base/Date.cc: dates as Julian day numbers, in the arithmetic of `int`, where a
-- result beyond it is `none`. No difference is below zero from the year 1900 on, where the dates
-- of the struct begin.
pub mod Calendar
pub mod RoundTrip
use cloud_storge_system.Common.{
  ℕ, ◌+◌, ◌-◌, ◌*◌, ◌/◌, ◌%◌, ◌^◌, Option, none, some, ltb, if◌then◌else◌,
}

pub record YearMonthDay : Type 0 where
  pub year : ℕ
  pub month : ℕ
  pub day : ℕ

infixl 5 ◌>>=◌
abbrev pub ◌>>=◌ {ℓ κ} : {A : Type ℓ} {B : Type κ} → Option A → (A → Option B) → Option B
none >>= f = none
some a >>= f = f a

-- A result of the arithmetic on `int`, where it does not overflow.
abbrev pub int : ℕ → Option ℕ
int n = if ltb n (2 ^ 31) then some n else none

-- `detail::getJulianDayNumber`, for a month from 1 to 12.
unfoldable pub julian_day_number : ℕ → ℕ → ℕ → Option ℕ
julian_day_number year month day = do
  shifted ← int (year + 4800)
  ahead ← int (month + 12 * ((14 - month) / 12))
  months ← int (153 * (ahead - 3) + 2)
  days ← int ((shifted - (14 - month) / 12) * 365)
  sum ← int (day + months / 5 + days + (shifted - (14 - month) / 12) / 4)
  some (sum - (shifted - (14 - month) / 12) / 100 + (shifted - (14 - month) / 12) / 400 - 32045)

-- `detail::getYearMonthDay`.
unfoldable pub year_month_day : ℕ → Option YearMonthDay
year_month_day julian = do
  a ← int (julian + 32044)
  four_a ← int (4 * a + 3)
  centuries ← int (146097 * (four_a / 146097))
  four_c ← int (4 * (a - centuries / 4) + 3)
  years ← int (1461 * (four_c / 1461))
  five_e ← int (5 * (a - centuries / 4 - years / 4) + 2)
  months ← int (153 * (five_e / 153) + 2)
  year ← int (100 * (four_a / 146097) + four_c / 1461)
  some (record {
    year = year - 4800 + five_e / 153 / 10;
    month = five_e / 153 + 3 - 12 * (five_e / 153 / 10);
    day = a - centuries / 4 - years / 4 - months / 5 + 1;
  })

-- `Date::weekDay`.
unfoldable pub week_day : ℕ → ℕ
week_day julian = (julian + 4) % 7
