-- ===== src/Calendar/Shift.antt =====
-- `calendar_shift`, against the number of the month.
use juris_calculus.Prelude.{
  ℕ, ◌+◌, ◌-◌, ◌*◌, ◌≤◌, ◌<◌, ◌≡◌, refl, sym, arith, ltb, ◌||◌, min, ok, ok-injective, ℤ, pos,
  negsuc, ◌+ℤ◌, floor_div, floor_mod, twelve_times, Bool-cases, inl, inr,
}
use juris_calculus.Calendar.{
  Civil, days_in_month, ordinal, max_year, replace_clamped, shifted, calendar_shift, months, years,
}
use juris_calculus.Calendar.Dates.{IsDate, civil-ordinal}

-- Months are numbered through the years.
abbrev pub month_index : Civil → ℕ
month_index c = c.year * 12 + (c.month - 1)

days_in_month_pos : (y m : ℕ) → 1 ≤ days_in_month y m
unfolding days_in_month
days_in_month_pos y m = ground arith

-- What a shift that returns has moved to.
pub record Moved (c : Civil) (count : ℤ) (r : ℕ) : Type 0 where
  pub date : Civil
  pub date_is : r ≡ ordinal date
  pub valid : IsDate date
  pub index_is : pos (month_index date) ≡ pos (month_index c) +ℤ count
  pub day_is : date.day ≡ min c.day (days_in_month date.year date.month)

record Replaced (y : ℤ) (m day r : ℕ) : Type 0 where
  year : ℕ
  year_is : y ≡ pos year
  year_in : (1 ≤ year) × (year ≤ max_year)
  result_is : r ≡ ordinal (record { year = year; month = m; day = min day (days_in_month year m) })

replace-Replaced : (y : ℤ) (m day r : ℕ) → replace_clamped y m day ≡ ok r → Replaced y m day r
unfolding replace_clamped
replace-Replaced (negsuc y) m day r h = cc
replace-Replaced (pos y) m day r h = elim (Bool-cases (ltb y 1 || ltb max_year y)) [
  | inl out ↦ cc (rw out at h)
  | inr within ↦ record {
    year = y;
    year_is = refl;
    year_in = ground (arith, within);
    result_is = sym (ok-injective (rw within at h));
  }
]

by_months :
    (y m d : ℕ) (count : ℤ)
    → 1 ≤ m
    → pos d ≡ pos y +ℤ pos 0 +ℤ floor_div (pos m +ℤ count +ℤ negsuc 0) 12
    → pos (d * 12 + (floor_mod (pos m +ℤ count +ℤ negsuc 0) 12 + 1 - 1))
      ≡ pos (y * 12 + (m - 1)) +ℤ count
by_months y m d (pos n) h e = ground arith
by_months y m d (negsuc n) h e = ground arith

by_years :
    (y m d : ℕ) (count : ℤ)
    → 1 ≤ m
    → m ≤ 12
    → pos d ≡ pos y +ℤ count +ℤ floor_div (pos m +ℤ pos 0 +ℤ negsuc 0) 12
    → pos (d * 12 + (floor_mod (pos m +ℤ pos 0 +ℤ negsuc 0) 12 + 1 - 1))
      ≡ pos (y * 12 + (m - 1)) +ℤ twelve_times count
by_years y m d (pos n) h i e = ground arith
by_years y m d (negsuc n) h i e = ground arith

floor_mod_lt : (z : ℤ) → floor_mod z 12 < 12
floor_mod_lt (pos n) = omega arith
floor_mod_lt (negsuc n) = omega arith

module _ (c : Civil) (v : IsDate c) where
  moved :
      (y : ℤ) (m r : ℕ) (count : ℤ)
      → m < 12
      → ((d : ℕ) → y ≡ pos d → pos (d * 12 + (m + 1 - 1)) ≡ pos (month_index c) +ℤ count)
      → replace_clamped y (m + 1) c.day ≡ ok r
      → Moved c count r
  moved y m r count small index h =
      let w = replace-Replaced y (m + 1) c.day r h in
      record {
        date = record {
          year = w.year;
          month = m + 1;
          day = min c.day (days_in_month w.year (m + 1));
        };
        date_is = w.result_is;
        valid = record {
          year_in = w.year_in;
          month_in = omega arith;
          day_in = omega (arith, days_in_month_pos w.year (m + 1), v.day_in);
        };
        index_is = index w.year w.year_is;
        day_is = refl;
      }

  -- A shift by months that returns lands in the month that many months on (or back, for a negative
  -- count), on the same day of the month or on the last one if the month is shorter.
  pub calendar_shift-months :
      (count : ℤ) (r : ℕ) → calendar_shift (ordinal c) count months ≡ ok r → Moved c count r
  unfolding calendar_shift shifted
  calendar_shift-months count r h =
      let z = pos c.month +ℤ count +ℤ negsuc 0 in
      moved (pos c.year +ℤ pos 0 +ℤ floor_div z 12) (floor_mod z 12) r count (floor_mod_lt z)
        (λ d e. by_months c.year c.month d count v.month_in.0 (sym e)) (rw (civil-ordinal c v) at h)

  -- A shift by years that returns lands in the same month that many years on, on the same day or
  -- on the last one if the month is shorter.
  pub calendar_shift-years :
      (count : ℤ) (r : ℕ)
      → calendar_shift (ordinal c) count years ≡ ok r
      → Moved c (twelve_times count) r
  unfolding calendar_shift shifted
  calendar_shift-years count r h =
      let z = pos c.month +ℤ pos 0 +ℤ negsuc 0 in
      moved (pos c.year +ℤ count +ℤ floor_div z 12) (floor_mod z 12) r (twelve_times count)
        (floor_mod_lt z) (λ d e. by_years c.year c.month d count v.month_in.0 v.month_in.1 (sym e))
        (rw (civil-ordinal c v) at h)
