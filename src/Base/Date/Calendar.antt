-- ===== src/Base/Date/Calendar.antt =====
-- The dates of the Gregorian calendar, by the year that begins in March.
use mathlib.Core.Path.{subst}
use cloud_storge_system.Common.{
  ℕ, ◌+◌, ◌-◌, ◌*◌, ◌/◌, ◌%◌, ◌≤◌, ◌<◌, ◌≡◌, ◌≢◌, ◌⊎◌, inl, inr, ap, arith, Bool, true, ◌==◌, ◌&&◌,
  ◌||◌, not, if◌then◌else◌, Bool-cases,
}

-- The Gregorian calendar.
abbrev pub is_leap : ℕ → Bool
is_leap y = (y % 4 == 0 && not (y % 100 == 0)) || y % 400 == 0

abbrev pub days_in_month : ℕ → ℕ → ℕ
days_in_month y m =
    if m == 2
    then if is_leap y then 29 else 28
    else if m == 4 || m == 6 || m == 9 || m == 11
    then 30
    else 31

pub record IsDate (y m d : ℕ) : Type 0 where
  pub month_least : 1 ≤ m
  pub month_most : m ≤ 12
  pub day_least : 1 ≤ d
  pub day_most : d ≤ days_in_month y m
  pub year_least : 1900 ≤ y
  pub year_most : y ≤ 2500

-- The year that begins in March, and the month in it.
abbrev pub shift : ℕ → ℕ
shift m = (14 - m) / 12

pub shift-cases : (m : ℕ) → 1 ≤ m → m ≤ 12 → shift m ≡ (if m == 1 || m == 2 then 1 else 0)
shift-cases m h k = ground (arith, h, k)

pub days_most :
    (y m : ℕ)
    → days_in_month y m
      ≤ (if m == 2 then 29 else if m == 4 || m == 6 || m == 9 || m == 11 then 30 else 31)
days_most y m = ground arith

gap :
    (m : ℕ)
    → 1 ≤ m
    → m ≤ 12
    → let n = m + 12 * (if m == 1 || m == 2 then 1 else 0) - 3 in
      (if m == 2 then 29 else if m == 4 || m == 6 || m == 9 || m == 11 then 30 else 31)
        + (153 * n + 2) / 5
      ≤ (153 * (n + 1) + 2) / 5
gap m h k = ground (arith, h, k)

-- The days before this one in the month, and in the year that begins in March.
pub months_fit :
    (y m d n : ℕ)
    → IsDate y m d
    → n ≡ m + 12 * shift m - 3
    → (n ≤ 11) × (d - 1 + (153 * n + 2) / 5 < (153 * (n + 1) + 2) / 5)
months_fit y m d n v e =
    let h1 = v.month_least in
    let h2 = v.month_most in
    let h3 = v.day_least in
    let h4 = v.day_most in
    let h5 = shift-cases m h1 h2 in
    (
      ground (arith, e, h1, h2, h5),
      omega (
        arith,
        e,
        h1,
        h3,
        h4,
        ap (λ k. (153 * (m + 12 * k - 3) + 2) / 5) h5,
        ap (λ k. (153 * (m + 12 * k - 3 + 1) + 2) / 5) h5,
        days_most y m,
        gap m h1 h2,
        ap (λ n. (153 * n + 2) / 5) e,
        ap (λ n. (153 * (n + 1) + 2) / 5) e,
      ),
    )

february_only :
    (m n : ℕ)
    → 1 ≤ m
    → m ≤ 12
    → n ≡ m + 12 * shift m - 3
    → (m ≡ 2 × (n ≡ 11)) ⊎ ((m ≢ 2) × (n ≤ 10))
february_only m n h k e = let h5 = shift-cases m h k in ground (arith, e, h, k, h5)

-- Only the last day of February of a leap year is the 366th.
abbrev pub Extra : ℕ → ℕ → ℕ → Type 0
Extra y m e = (e ≤ 364) ⊎ ((e ≤ 365) × (is_leap y ≡ true) × (shift m ≡ 1))

pub february :
    (y m d n : ℕ) → IsDate y m d → n ≡ m + 12 * shift m - 3 → Extra y m (d - 1 + (153 * n + 2) / 5)
february y m d n v e =
    let (f, g) = months_fit y m d n v e in
    elim (february_only m n v.month_least v.month_most e) [
      | inl (a, b) ↦
          let h : d ≤ (if is_leap y then 29 else 28) =
            subst (λ k. d ≤ days_in_month y k) a v.day_most in
          elim (Bool-cases (is_leap y)) [
            | inl l ↦
                let k = subst (λ b. d ≤ (if b then 29 else 28)) l h in
                inr (omega (arith, b, k), l, ap shift a)
            | inr l ↦
                let k = subst (λ b. d ≤ (if b then 29 else 28)) l h in inl (omega (arith, b, k))
          ]
      | inr (a, b) ↦
          let h : (153 * (n + 1) + 2) / 5 ≤ 337 = omega (arith, b) in inl (omega (arith, g, h))
    ]

pub leap_year : (y q r : ℕ) → y + 4799 ≡ 100 * q + r → r ≤ 99 → is_leap y ≡ true → r % 4 ≡ 3
leap_year y q r e h l = ground (arith, e, h, l)

pub leap_century : (y q : ℕ) → y + 4799 ≡ 100 * q + 99 → is_leap y ≡ true → q % 4 ≡ 3
leap_century y q e l = ground (arith, e, l)
