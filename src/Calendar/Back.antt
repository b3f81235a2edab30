-- ===== src/Calendar/Back.antt =====
-- When `calendar_shift` returns, and the way back.
use juris_calculus.Prelude.{
  ℕ, ◌+◌, ◌-◌, ◌*◌, ◌≤◌, ◌≡◌, refl, ap, ◌∙◌, arith, ltb, false, ◌||◌, min, ok, ℤ, pos, negsuc, ◌+ℤ◌,
  floor_div, floor_mod, zero, suc,
}
use juris_calculus.Calendar.{
  Civil, days_in_month, ordinal, max_year, replace_clamped, shifted, calendar_shift, months,
}
use juris_calculus.Calendar.Dates.{IsDate, civil-ordinal}
use juris_calculus.Calendar.Shift.{month_index, calendar_shift-months}

-- `-count`.
unfoldable pub negate : ℤ → ℤ
negate (pos zero) = pos 0
negate (pos (suc n)) = negsuc n
negate (negsuc n) = pos (suc n)

year_found :
    (y m d e : ℕ) (count : ℤ)
    → 1 ≤ m
    → 1 ≤ e
    → e ≤ 12
    → pos (d * 12 + (e - 1)) ≡ pos (y * 12 + (m - 1)) +ℤ count
    → pos y +ℤ pos 0 +ℤ floor_div (pos m +ℤ count +ℤ negsuc 0) 12 ≡ pos d
year_found y m d e (pos n) h i j same = ground arith
year_found y m d e (negsuc n) h i j same = ground arith

month_found :
    (y m d e : ℕ) (count : ℤ)
    → 1 ≤ m
    → 1 ≤ e
    → e ≤ 12
    → pos (d * 12 + (e - 1)) ≡ pos (y * 12 + (m - 1)) +ℤ count
    → floor_mod (pos m +ℤ count +ℤ negsuc 0) 12 + 1 ≡ e
month_found y m d e (pos n) h i j same = ground arith
month_found y m d e (negsuc n) h i j same = ground arith

turned : (a b : ℕ) (count : ℤ) → pos a ≡ pos b +ℤ count → pos b ≡ pos a +ℤ negate count
unfolding negate
turned a b (pos zero) h = ground arith
turned a b (pos (suc n)) h = ground arith
turned a b (negsuc n) h = ground arith

module _ (c : Civil) (v : IsDate c) where
  -- A shift by months to a month of the years 1 to 9999 returns: the same day of that month, or its
  -- last one if the month is shorter.
  pub calendar_shift-returns :
      (count : ℤ) (d e : ℕ)
      → (1 ≤ d) × (d ≤ max_year)
      → (1 ≤ e) × (e ≤ 12)
      → pos (d * 12 + (e - 1)) ≡ pos (month_index c) +ℤ count
      → calendar_shift (ordinal c) count months
        ≡ ok (ordinal (record { year = d; month = e; day = min c.day (days_in_month d e) }))
  unfolding calendar_shift shifted replace_clamped
  calendar_shift-returns count d e (lo, hi) (i, j) same =
      let found = year_found c.year c.month d e count v.month_in.0 i j same in
      let month_is = month_found c.year c.month d e count v.month_in.0 i j same in
      let within : (ltb d 1 || ltb max_year d) ≡ false = ground arith in
      rw (civil-ordinal c v, found, month_is, within) refl

days_in_month_least : (y m : ℕ) → 28 ≤ days_in_month y m
unfolding days_in_month
days_in_month_least y m = ground arith

-- A shift by months from a day that every month has is undone by the shift back.
pub calendar_shift-back :
    (c : Civil) (count : ℤ) (r : ℕ)
    → IsDate c
    → c.day ≤ 28
    → calendar_shift (ordinal c) count months ≡ ok r
    → calendar_shift r (negate count) months ≡ ok (ordinal c)
calendar_shift-back c count r v early h =
    let to = calendar_shift-months c v count r h in
    let w = to.date in
    let same_day : min w.day (days_in_month c.year c.month) ≡ c.day =
      omega (arith, to.day_is, v.day_in, early, days_in_month_least w.year w.month) in
    let back =
      calendar_shift-returns w to.valid (negate count) c.year c.month v.year_in v.month_in
        (turned (month_index w) (month_index c) count to.index_is) in
    rw to.date_is (
      back
      ∙ ap (λ (x : ℕ). ok (ordinal (record { year = c.year; month = c.month; day = x }))) same_day)
