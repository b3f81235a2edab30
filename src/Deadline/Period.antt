-- ===== src/Deadline/Period.antt =====
-- The start, the raw expiry and the roll of the generic branch of `compute_deadline`.
use juris_calculus.Prelude.{
  ℕ, ◌+◌, Bool, true, false, not, ◌&&◌, [], ◌∷◌, ◌++◌, Option, none, some, String, string_key,
  Result, ok, err, reject_if, ◌>>=◌, ◌>>◌, if◌then◌else◌, ◌==◌, ℤ, pos, negsuc, ◌+ℤ◌,
}
use juris_calculus.Calendar.{
  DeadlineError, coverage_missing, coded, CalendarSnapshot, CalendarUnit, months, years, add_days,
  subtract_days, calendar_shift, add_business_days, roll_forward,
}
use juris_calculus.Deadline.{
  rolls_by_default, unit_months, unit_years, unit_days, CountingMode, calendar_days, business_days,
  calendar_periods, DeadlineRule, Step, rolled, calendar_period, counted_days,
  counted_business_days, Calculation,
}

-- `day + timedelta(days=z)`.
unfoldable pub add_delta : ℕ → ℤ → Result DeadlineError ℕ
add_delta day (pos n) = add_days day n
add_delta day (negsuc n) = subtract_days day (n + 1)

-- `-inclusive_adjustment`.
unfoldable pub inclusive_shift : Bool → ℤ
inclusive_shift true = negsuc 0
inclusive_shift false = pos 0

unfoldable pub is_business_mode : CountingMode → Bool
is_business_mode business_days = true
is_business_mode _ = false

-- A period of months or years counts only in calendar periods.
unfoldable pub period_expiry : DeadlineRule → ℕ → CalendarUnit → Result DeadlineError (ℕ × Step)
period_expiry rule starts unit = elim rule.counting_mode [
  | calendar_periods ↦ calendar_shift starts (pos rule.duration) unit >>= λ shifted.
      add_delta shifted (inclusive_shift rule.boundary_inclusive) >>= λ expiry.
      ok (expiry, calendar_period rule.duration rule.duration_unit)
  | _ ↦ err (coded "deadline_counting_mode_invalid")
]

unfoldable pub version_mismatch : Option String → String → Bool
version_mismatch none version = false
version_mismatch (some required) version =
    not (string_key.beq required "") && not (string_key.beq required version)

unfoldable pub days_expiry : DeadlineRule → ℕ → CalendarSnapshot → Result DeadlineError (ℕ × Step)
days_expiry rule starts calendar = elim rule.counting_mode [
  | calendar_days ↦
      add_delta starts (pos rule.duration +ℤ inclusive_shift rule.boundary_inclusive) >>= λ expiry.
      ok (expiry, counted_days rule.duration)
  | business_days ↦
      let count = rule.duration + (if rule.boundary_inclusive then 0 else 1) in
      (reject_if (version_mismatch rule.calendar_version calendar.version)
          (coded "holiday_calendar_snapshot_mismatch")
        >> (add_business_days starts (pos count) calendar >>= λ expiry.
            ok (expiry, counted_business_days count)))
  | _ ↦ err (coded "deadline_counting_mode_invalid")
]

unfoldable pub raw_expiry_of : DeadlineRule → ℕ → CalendarSnapshot → Result DeadlineError (ℕ × Step)
raw_expiry_of rule starts calendar = elim rule.duration_unit [
  | unit_months ↦ period_expiry rule starts months
  | unit_years ↦ period_expiry rule starts years
  | unit_days ↦ days_expiry rule starts calendar
]

-- `bool(rule.get("rollForwardEnd", spec.get("roll_forward_end")))`, for a mode that rolls.
unfoldable pub rolls : DeadlineRule → Bool
rolls rule =
    (elim rule.roll_forward_end [ some wanted ↦ wanted | none ↦ rolls_by_default rule.branch ])
    && not (is_business_mode rule.counting_mode)

-- One `try: roll_forward(due)`: only a missing coverage is caught.
unfoldable pub catch_gap : ℕ → Result DeadlineError ℕ → Result DeadlineError (ℕ × Bool)
catch_gap due (ok day) = ok (day, false)
catch_gap due (err coverage_missing) = ok (due, true)
catch_gap due (err e) = err e

unfoldable pub record_roll : ℕ → ℕ → Bool → Calculation → Calculation
record_roll due day gap c = record c {
  due_date = some day;
  calendar_gap = if gap then true else c.calendar_gap;
  holiday_extended = if day == due then c.holiday_extended else true;
  steps = if day == due then c.steps else c.steps ++ rolled due day ∷ [];
}

unfoldable pub roll_due :
    DeadlineRule → CalendarSnapshot → ℕ → Calculation → Result DeadlineError (ℕ × Calculation)
roll_due rule calendar due c =
    if rolls rule
    then (catch_gap due (roll_forward due calendar) >>= λ (day, gap).
        ok (day, record_roll due day gap c))
    else ok (due, record c { due_date = some due })
