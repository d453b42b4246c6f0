-- ===== src/Base/Date/RoundTrip.antt =====
-- From a date to its Julian day number and back.
use cloud_storge_system.Common.{
  ℕ, ◌+◌, ◌-◌, ◌*◌, ◌/◌, ◌%◌, ◌≤◌, ◌<◌, ◌≡◌, ◌⊎◌, inl, inr, ◌∙◌, ap, refl, arith, ◌==◌,
  if◌then◌else◌, nat-cases, Option, none, some, ltb, true, ◌^◌,
}
use cloud_storge_system.Base.Date.{YearMonthDay, ◌>>=◌, int, julian_day_number, year_month_day}
use cloud_storge_system.Base.Date.Calendar.{
  shift-cases, months_fit, february, leap_year, leap_century, shift, IsDate, days_most,
}

-- The same without a bound.
abbrev exact_day_number : ℕ → ℕ → ℕ → ℕ
exact_day_number year month day =
    let a = (14 - month) / 12 in
    let y = year + 4800 - a in
    let m = month + 12 * a - 3 in
    day + (153 * m + 2) / 5 + y * 365 + y / 4 - y / 100 + y / 400 - 32045

abbrev exact_date : ℕ → YearMonthDay
exact_date julian =
    let a = julian + 32044 in
    let b = (4 * a + 3) / 146097 in
    let c = a - 146097 * b / 4 in
    let d = (4 * c + 3) / 1461 in
    let e = c - 1461 * d / 4 in
    let m = (5 * e + 2) / 153 in
    record {
      year = 100 * b + d - 4800 + m / 10;
      month = m + 3 - 12 * (m / 10);
      day = e - (153 * m + 2) / 5 + 1;
    }

bind-int : {A : Type 0} (n : ℕ) (k : ℕ → Option A) → n < 2 ^ 31 → (int n >>= k) ≡ k n
bind-int n k h =
    let e : ltb n (2 ^ 31) ≡ true = ground (arith, h) in
    ap (λ b. (if b then some n else none) >>= k) e

day_most : {y m d : ℕ} → IsDate y m d → d ≤ 31
day_most {y} {m} v = let h = v.day_most in let k = days_most y m in ground (arith, h, k)

julian_day_number-exact :
    (y m d : ℕ) → IsDate y m d → julian_day_number y m d ≡ some (exact_day_number y m d)
unfolding julian_day_number
julian_day_number-exact y m d v =
    let h1 = v.year_most in
    let h2 = v.month_most in
    let h3 = day_most v in
    bind-int (y + 4800) _ (omega (arith, h1))
    ∙ bind-int (m + 12 * ((14 - m) / 12)) _ (omega (arith, h2))
    ∙ bind-int (153 * (m + 12 * ((14 - m) / 12) - 3) + 2) _ (omega (arith, h2))
    ∙ bind-int ((y + 4800 - (14 - m) / 12) * 365) _ (omega (arith, h1))
    ∙ bind-int
        (d
          + (153 * (m + 12 * ((14 - m) / 12) - 3) + 2) / 5
          + (y + 4800 - (14 - m) / 12) * 365
          + (y + 4800 - (14 - m) / 12) / 4)
        _ (omega (arith, h1, h2, h3))

year_month_day-exact : (j : ℕ) → j ≤ 3000000 → year_month_day j ≡ some (exact_date j)
unfolding year_month_day
year_month_day-exact j h =
    let a = j + 32044 in
    let b = (4 * a + 3) / 146097 in
    let c = a - 146097 * b / 4 in
    let d = (4 * c + 3) / 1461 in
    let e = c - 1461 * d / 4 in
    let f : e ≤ a = omega arith in
    bind-int a _ (omega (arith, h))
    ∙ bind-int (4 * a + 3) _ (omega (arith, h))
    ∙ bind-int (146097 * b) _ (omega (arith, h))
    ∙ bind-int (4 * c + 3) _ (omega (arith, h))
    ∙ bind-int (1461 * d) _ (omega (arith, h))
    ∙ bind-int (5 * e + 2) _ (omega (arith, h, f))
    ∙ bind-int (153 * ((5 * e + 2) / 153) + 2) _ (omega (arith, h, f))
    ∙ bind-int (100 * b + d) _ (omega (arith, h))

-- The century and the year of it, from the days since 1 March of the year 0.
century :
    (q r e : ℕ)
    → r ≤ 99
    → e + (365 * r + r / 4) ≤ 36523 + (if q % 4 == 3 then 1 else 0)
    → (4 * (36524 * q + q / 4 + (365 * r + r / 4) + e) + 3) / 146097 ≡ q
century q r e h k = ground arith

year_in :
    (r e : ℕ) → e ≤ 364 + (if r % 4 == 3 then 1 else 0) → (4 * (365 * r + r / 4 + e) + 3) / 1461 ≡ r
year_in r e h = ground arith

month_in :
    (m d : ℕ)
    → m ≤ 11
    → d + (153 * m + 2) / 5 < (153 * (m + 1) + 2) / 5
    → (5 * (d + (153 * m + 2) / 5) + 2) / 153 ≡ m
month_in m d h k = omega arith

-- The place of the last day of a year and of a century.
fits_year :
    (r e : ℕ) → (e ≤ 364) ⊎ ((e ≤ 365) × (r % 4 ≡ 3)) → e ≤ 364 + (if r % 4 == 3 then 1 else 0)
fits_year r e (inl h) = omega (arith, h)
fits_year r e (inr (h, k)) = ground (arith, h, k)

fits_century :
    (q r e : ℕ)
    → r ≤ 99
    → (e ≤ 364) ⊎ ((e ≤ 365) × (r ≡ 99 → q % 4 ≡ 3))
    → e + (365 * r + r / 4) ≤ 36523 + (if q % 4 == 3 then 1 else 0)
fits_century q r e h (inl k) = omega (arith, h, k)
fits_century q r e h (inr (k, f)) = elim (nat-cases r 99) [
  | inl a ↦ let c = f a in ground (arith, a, c, k)
  | inr a ↦ omega (arith, a, h, k)
]

-- The day number, from the year that begins in March.
abbrev pub day_number : ℕ → ℕ → ℕ → ℕ
day_number q r e = 36524 * q + q / 4 + (365 * r + r / 4) + e

sum-day_number :
    (y d x q r : ℕ)
    → y ≡ 100 * q + r
    → r ≤ 99
    → 1 ≤ d
    → 1 ≤ q
    → d + x + y * 365 + y / 4 - y / 100 + y / 400 - 32045 + 32044 ≡ day_number q r (d - 1 + x)
sum-day_number y d x q r e h k l = omega (arith, e, h, k, l)

-- The stages of `getYearMonthDay`.
abbrev from_month : ℕ → ℕ → ℕ → ℕ → YearMonthDay
from_month m e d b = record {
  year = 100 * b + d - 4800 + m / 10;
  month = m + 3 - 12 * (m / 10);
  day = e - (153 * m + 2) / 5 + 1;
}

abbrev from_days : ℕ → ℕ → ℕ → YearMonthDay
from_days e d b = from_month ((5 * e + 2) / 153) e d b

abbrev from_century : ℕ → ℕ → YearMonthDay
from_century c b = let d = (4 * c + 3) / 1461 in from_days (c - 1461 * d / 4) d b

-- A day of the month n of the year r of the century q.
pub record Place (q r n x : ℕ) : Type 0 where
  pub year_of : r ≤ 99
  pub days_of_month : x + (153 * n + 2) / 5 < (153 * (n + 1) + 2) / 5
  pub month_of : n ≤ 11
  pub days_of_century :
      x + (153 * n + 2) / 5 + (365 * r + r / 4) ≤ 36523 + (if q % 4 == 3 then 1 else 0)
  pub days_of_year : x + (153 * n + 2) / 5 ≤ 364 + (if r % 4 == 3 then 1 else 0)

exact_date-Place :
    (q r n x j : ℕ)
    → Place q r n x
    → j + 32044 ≡ day_number q r (x + (153 * n + 2) / 5)
    → exact_date j ≡ from_month n (x + (153 * n + 2) / 5) r q
exact_date-Place q r n x j v k =
    let e = x + (153 * n + 2) / 5 in
    let c = 365 * r + r / 4 + e in
    let a = day_number q r e in
    ap (λ a. let b = (4 * a + 3) / 146097 in from_century (a - 146097 * b / 4) b) k
    ∙ ap (λ b. from_century (a - 146097 * b / 4) b) (century q r e v.year_of v.days_of_century)
    ∙ ap (λ c. from_century c q) (without_century q r e)
    ∙ ap (λ d. from_days (c - 1461 * d / 4) d q) (year_in r e v.days_of_year)
    ∙ ap (λ e. from_days e r q) (without_years r e)
    ∙ ap (λ m. from_month m e r q) (month_in n x v.month_of v.days_of_month)
  where
    without_century : (q r e : ℕ) → day_number q r e - 146097 * q / 4 ≡ 365 * r + r / 4 + e
    without_century q r e = omega arith

    without_years : (r e : ℕ) → 365 * r + r / 4 + e - 1461 * r / 4 ≡ e
    without_years r e = omega arith

IsDate-Place :
    (y m d q r : ℕ)
    → IsDate y m d
    → y + 4800 - shift m ≡ 100 * q + r
    → r ≤ 99
    → Place q r (m + 12 * shift m - 3) (d - 1)
IsDate-Place y m d q r v e h =
    let n = m + 12 * shift m - 3 in
    let (f, g) = months_fit y m d n v refl in
    let march : (shift m ≡ 1) → y + 4799 ≡ 100 * q + r = λ s. omega (arith, s, e) in
    record {
      year_of = h;
      days_of_month = g;
      month_of = f;
      days_of_century = fits_century q r _ h (elim (february y m d n v refl) [
        | inl k ↦ inl k
        | inr (k, l, s) ↦ inr (k, λ a. leap_century y q (march s ∙ ap (λ r. 100 * q + r) a) l)
      ]);
      days_of_year = fits_year r _ (elim (february y m d n v refl) [
        | inl k ↦ inl k
        | inr (k, l, s) ↦ inr (k, leap_year y q r (march s) h l)
      ]);
    }

march_month :
    (m : ℕ)
    → 1 ≤ m
    → m ≤ 12
    → (shift m ≤ 1)
      × ((m + 12 * shift m - 3) / 10 ≡ shift m)
      × (m + 12 * shift m - 3 + 3 ≡ m + 12 * shift m)
march_month m h k =
    let s = shift-cases m h k in (ground (arith, s), ground (arith, s, h, k), ground (arith, s, h))

-- The fields that come back are those of the date.
from_month-fields :
    (y m d q r : ℕ)
    → IsDate y m d
    → y + 4800 - shift m ≡ 100 * q + r
    → let n = m + 12 * shift m - 3 in
      from_month n (d - 1 + (153 * n + 2) / 5) r q ≡ record { year = y; month = m; day = d }
from_month-fields y m d q r v e =
    let n = m + 12 * shift m - 3 in
    let (s1, s2, s3) = march_month m v.month_least v.month_most in
    let h3 = v.day_least in
    let h4 = v.year_least in
    let a : 100 * q + r - 4800 + n / 10 ≡ y = omega (arith, s1, s2, e, h4) in
    let b : n + 3 - 12 * (n / 10) ≡ m = omega (arith, s2, s3) in
    let c : d - 1 + (153 * n + 2) / 5 - (153 * n + 2) / 5 + 1 ≡ d = omega (arith, h3) in
    ap
      (λ y. record {
        year = y;
        month = n + 3 - 12 * (n / 10);
        day = d - 1 + (153 * n + 2) / 5 - (153 * n + 2) / 5 + 1;
      })
      a
    ∙ ap
        (λ m. record {
          year = y;
          month = m;
          day = d - 1 + (153 * n + 2) / 5 - (153 * n + 2) / 5 + 1;
        })
        b
    ∙ ap (λ d. record { year = y; month = m; day = d }) c

-- For a date of the Gregorian calendar from 1900 to 2500 the arithmetic on `int` does not overflow,
-- and the year, month and day of its Julian day number are those of the date.
pub year_month_day-julian_day_number :
    (y m d : ℕ)
    → IsDate y m d
    → (j : ℕ) × (julian_day_number y m d ≡ some j)
      × (year_month_day j ≡ some (record { year = y; month = m; day = d }))
year_month_day-julian_day_number y m d v =
    let z = y + 4800 - shift m in
    let q = z / 100 in
    let r = z % 100 in
    let n = m + 12 * shift m - 3 in
    let e : z ≡ 100 * q + r = omega arith in
    let h : r ≤ 99 = omega arith in
    let h4 = v.year_least in
    let (s1, s2, s3) = march_month m v.month_least v.month_most in
    let big : 1 ≤ q = omega (arith, s1, h4) in
    let j = exact_day_number y m d in
    (
      j,
      julian_day_number-exact y m d v,
      year_month_day-exact j (omega (arith, v.year_most, v.month_most, day_most v))
          ∙ ap some (
              exact_date-Place q r n (d - 1) j (IsDate-Place y m d q r v e h)
                (sum-day_number z d ((153 * n + 2) / 5) q r e h v.day_least big)
              ∙ from_month-fields y m d q r v e),
    )
