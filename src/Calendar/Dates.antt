-- ===== src/Calendar/Dates.antt =====
-- Valid dates and their day numbers.
use juris_calculus.Prelude.{ℕ, suc, ◌+◌, ◌-◌, ◌≤◌, ◌≡◌, refl, ap, arith}
use juris_calculus.Calendar.{
  Civil, days_in_month, days_in_year, total, locate, year_size, month_size, ordinal, civil,
  max_year,
}
use juris_calculus.Calendar.Locate.{locate-total, total_le}

pub record IsDate (c : Civil) : Type 0 where
  pub year_in : (1 ≤ c.year) × (c.year ≤ max_year)
  pub month_in : (1 ≤ c.month) × (c.month ≤ 12)
  pub day_in : (1 ≤ c.day) × (c.day ≤ days_in_month c.year c.month)

-- The months of a year make up the year.
twelve_months : (y : ℕ) → total (month_size y) 12 ≡ days_in_year y
unfolding total days_in_month days_in_year
twelve_months y = ground arith

-- The day of the year.
abbrev yearday : Civil → ℕ
yearday c = total (month_size c.year) (c.month - 1) + c.day

total-zero : (size : ℕ → ℕ) → total size 0 ≡ 0
unfolding total
total-zero size = refl

yearday_in : (c : Civil) → IsDate c → (1 ≤ yearday c) × (yearday c ≤ days_in_year c.year)
unfolding total
yearday_in c v =
    let up = total_le (month_size c.year) (suc (c.month - 1)) 12 (omega (arith, v.month_in)) in
    let month_is : suc (c.month - 1) ≡ c.month = omega (arith, v.month_in) in
    let size_is : days_in_month c.year (suc (c.month - 1)) ≡ days_in_month c.year c.month =
      ap (days_in_month c.year) month_is in
    omega (arith, up, size_is, twelve_months c.year, v.day_in)

-- A day number gives back the date that it comes from.
pub civil-ordinal : (c : Civil) → IsDate c → civil (ordinal c) ≡ c
unfolding civil ordinal
civil-ordinal c v =
    let (lo, hi) = yearday_in c v in
    let year_is : suc (c.year - 1) ≡ c.year = omega (arith, v.year_in) in
    let month_is : suc (c.month - 1) ≡ c.month = omega (arith, v.month_in) in
    let year_size_is : days_in_year (suc (c.year - 1)) ≡ days_in_year c.year =
      ap days_in_year year_is in
    let month_size_is : days_in_month c.year (suc (c.month - 1)) ≡ days_in_month c.year c.month =
      ap (days_in_month c.year) month_is in
    let year_found : locate year_size max_year 0 (ordinal c) ≡ (c.year - 1, yearday c) =
      locate-total year_size max_year 0 (ordinal c) (c.year - 1) (yearday c)
        (omega (arith, total-zero year_size)) lo (omega (arith, year_size_is)) (omega arith)
        (omega (arith, v.year_in)) in
    let month_found : locate (month_size c.year) 12 0 (yearday c) ≡ (c.month - 1, c.day) =
      locate-total (month_size c.year) 12 0 (yearday c) (c.month - 1) c.day
        (omega (arith, total-zero (month_size c.year))) v.day_in.0
        (omega (arith, month_size_is, v.day_in)) (omega arith) (omega (arith, v.month_in)) in
    rw (year_found, year_is, month_found, month_is) refl
