-- ===== src/Calendar.antt =====
-- The calendar primitives of compiler_core/deadlines.py. A `date` is its day number, 1 for 1 January
-- of year 1, as `toordinal` and `fromordinal` of Python's datetime give it: comparison, `weekday`
-- and the sum with a `timedelta` are arithmetic on day numbers, which leaves the supported range
-- with an error. `civil` and `ordinal` convert to and from year, month and day.
use juris_calculus.Prelude.{
  Key, ℕ, zero, suc, ◌+◌, ◌-◌, ◌*◌, ◌/◌, ◌%◌, Bool, true, false, not, ◌&&◌, ◌||◌, List, Option,
  none, some, String, min, ltb, leb, ◌==◌, if◌then◌else◌, nat_key, lookup, Result, ok, err,
  reject_if, ◌>>=◌, ◌>>◌, ℤ, pos, negsuc, ◌+ℤ◌, floor_div, floor_mod,
}
pub mod Locate
pub mod Dates
pub mod Shift
pub mod Business
pub mod Back

pub data DeadlineError : Type 0 where
  coverage_missing date_overflow unsupported_unit negative_business_duration : DeadlineError
  companion_unknown companion_cycle : DeadlineError
  -- No error of the source: a loop of the model that is given too little fuel.
  stuck : DeadlineError
  -- The other errors, by the code that they carry.
  coded : String → DeadlineError

unfoldable pub is_leap : ℕ → Bool
is_leap y = y % 4 == 0 && (not (y % 100 == 0) || y % 400 == 0)

-- `monthrange(year, month)[1]`.
unfoldable pub days_in_month : ℕ → ℕ → ℕ
days_in_month y m =
    if m == 2
    then (if is_leap y then 29 else 28)
    else if m == 4 || m == 6 || m == 9 || m == 11
    then 30
    else 31

unfoldable pub days_in_year : ℕ → ℕ
days_in_year y = if is_leap y then 366 else 365

pub record Civil : Type 0 where
  pub year : ℕ
  pub month : ℕ
  pub day : ℕ

abbrev pub max_year : ℕ
max_year = 9999

abbrev pub max_ordinal : ℕ
max_ordinal = 3652059

-- The sum of the first n sizes.
unfoldable pub total : (ℕ → ℕ) → ℕ → ℕ
total size zero = 0
total size (suc n) = total size n + size n

-- The part that the n-th day falls in, from part `i` on, and its number there.
unfoldable pub locate : (ℕ → ℕ) → ℕ → ℕ → ℕ → ℕ × ℕ
locate size zero i n = (i, n)
locate size (suc fuel) i n =
    let rest = locate size fuel (suc i) (n - size i) in if leb n (size i) then (i, n) else rest

abbrev pub year_size : ℕ → ℕ
year_size i = days_in_year (suc i)

abbrev pub month_size : ℕ → ℕ → ℕ
month_size y j = days_in_month y (suc j)

-- `date.toordinal`.
unfoldable pub ordinal : Civil → ℕ
ordinal c = total year_size (c.year - 1) + total (month_size c.year) (c.month - 1) + c.day

-- `date.fromordinal`.
unfoldable pub civil : ℕ → Civil
civil n =
    let y = locate year_size max_year 0 n in
    let m = locate (month_size (suc y.0)) 12 0 y.1 in
    record { year = suc y.0; month = suc m.0; day = m.1 }

-- `day + timedelta(days=n)` and `day - timedelta(days=n)`.
unfoldable pub add_days : ℕ → ℕ → Result DeadlineError ℕ
add_days day n = if ltb max_ordinal (day + n) then err date_overflow else ok (day + n)

unfoldable pub subtract_days : ℕ → ℕ → Result DeadlineError ℕ
subtract_days day n = if ltb n day then ok (day - n) else err date_overflow

-- The `overrides` are keyed by ISO texts, which stand for days one to one.
pub record CalendarSnapshot : Type 0 where
  pub version : String
  pub coverage_start : ℕ
  pub coverage_end : ℕ
  pub released : Bool
  pub overrides : List (ℕ × Bool)

-- `day.weekday() < 5`: Monday is 0.
unfoldable pub is_weekday : ℕ → Bool
is_weekday day = ltb ((day + 6) % 7) 5

unfoldable pub is_covered : CalendarSnapshot → ℕ → Bool
is_covered calendar day =
    calendar.released && leb calendar.coverage_start day && leb day calendar.coverage_end

-- The answer for a covered day.
unfoldable pub opens : CalendarSnapshot → ℕ → Bool
opens calendar day = elim (lookup day calendar.overrides) [
  | some explicit ↦ explicit
  | none ↦ is_weekday day
]

unfoldable pub is_business_day : CalendarSnapshot → ℕ → Result DeadlineError Bool
is_business_day calendar day =
    if not (is_covered calendar day) then err coverage_missing else ok (opens calendar day)

pub data CalendarUnit : Type 0 where
  months years : CalendarUnit
  other_unit : String → CalendarUnit

-- `start.replace(...)`, which raises for a year out of range.
unfoldable pub replace_clamped : ℤ → ℕ → ℕ → Result DeadlineError ℕ
replace_clamped (pos y) month day =
    if ltb y 1 || ltb max_year y
    then err date_overflow
    else ok (ordinal (record { year = y; month = month; day = min day (days_in_month y month) }))
replace_clamped (negsuc _) month day = err date_overflow

-- The year and the month after the carry, `month` counted with `count`.
unfoldable pub shifted : Civil → ℤ → ℤ → Result DeadlineError ℕ
shifted c year_count month_count =
    let before = pos c.month +ℤ month_count +ℤ negsuc 0 in
    replace_clamped (pos c.year +ℤ year_count +ℤ floor_div before 12) (floor_mod before 12 + 1)
      c.day

unfoldable pub calendar_shift : ℕ → ℤ → CalendarUnit → Result DeadlineError ℕ
calendar_shift start count (other_unit name) = err unsupported_unit
calendar_shift start count years = shifted (civil start) count (pos 0)
calendar_shift start count months = shifted (civil start) (pos 0) count

-- The `while remaining` loop of `add_business_days`.
unfoldable pub business_loop : CalendarSnapshot → ℕ → ℕ → ℕ → Result DeadlineError ℕ
business_loop calendar fuel cursor zero = ok cursor
business_loop calendar zero cursor (suc remaining) = err stuck
business_loop calendar (suc fuel) cursor (suc remaining) = add_days cursor 1 >>= λ next.
    is_business_day calendar next >>= λ open_day.
    business_loop calendar fuel next (if open_day then remaining else suc remaining)

-- Each round moves on by a day, and stops at the end of the coverage at the latest.
unfoldable pub add_business_days : ℕ → ℤ → CalendarSnapshot → Result DeadlineError ℕ
add_business_days start (negsuc _) calendar = err negative_business_duration
add_business_days start (pos count) calendar =
    business_loop calendar (suc calendar.coverage_end) start count

-- The `while` loop of `roll_forward`.
unfoldable pub roll_loop : CalendarSnapshot → ℕ → ℕ → Result DeadlineError ℕ
roll_loop calendar zero cursor = err stuck
roll_loop calendar (suc fuel) cursor = is_business_day calendar cursor >>= λ open_day.
    (if open_day then ok cursor else (add_days cursor 1 >>= λ next. roll_loop calendar fuel next))

unfoldable pub roll_forward : ℕ → CalendarSnapshot → Result DeadlineError ℕ
roll_forward day calendar = roll_loop calendar (calendar.coverage_end + 2) day
