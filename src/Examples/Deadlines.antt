-- ===== src/Examples/Deadlines.antt =====
-- Runs of `compute_deadline` and of its suspensions.
use juris_calculus.Prelude.{
  ◌≡◌, ◌≤◌, ℕ, refl, Bool, true, false, [], ◌∷◌, none, some, Memᴰ, runs, ok, err,
}
use juris_calculus.Calendar.{
  CalendarSnapshot, coded, calendar_shift, shifted, replace_clamped, is_business_day, is_covered,
  opens, is_weekday, roll_forward, roll_loop, locate, total, ordinal, civil, days_in_month,
  days_in_year, is_leap, add_days,
}
use juris_calculus.Deadline.{
  limitation_period, preservation, unit_years, calendar_periods, other_property, chattel, civil194,
  absent, given, suspension, rolls_by_default, Adjustment, DeadlineRule, EventDates, Companion,
  Deadline, trigger, anchor_is, branch_is, start_offset, starts_on, calendar_period,
  suspended_civil194, expires_on, companion_limit,
}
use juris_calculus.Deadline.Period.{
  add_delta, inclusive_shift, period_expiry, raw_expiry_of, is_business_mode, rolls, catch_gap,
  record_roll, roll_due,
}
use juris_calculus.Deadline.Adjust.{
  Effect, adjustment_at, required_date, removal_date, suspend_civil194, suspend_under, suspend,
  effect_of, is_none_policy, goes_back, apply_effect, adjust_all,
}
use juris_calculus.Deadline.Compute.{
  adjustments_of, start_calculation, generic_period, by_branch, calculate, is_known_policy,
  review_expired, check_coverage, apply_companion, apply_companions, is_limit_step, is_gap_step,
  is_given, legal_result_of, compute_deadline, court_day, check_cap, cap_days,
}
use juris_calculus.Deadline.Limits.{Respects, Origin, compute_deadline-Limits}
use juris_calculus.Deadline.Extends.{Lengthens, suspend-Lengthens}

-- The claim was known on 1 March 2021, day 737850, and lapses after three years.
abbrev event : EventDates
event = record { trigger_day = 737850; hearing_at = none; context_adjustments = [] }

-- The obstacle of four months in the last six, from 1 December 2023 to 1 April 2024.
abbrev obstacle : Adjustment
obstacle = record {
  kind = suspension;
  from_date = given 738855;
  at_date = absent;
  to_date = given 738977;
  ground_confirmed = true;
  cannot_exercise = some true;
  ground = "force_majeure";
  has_review_ref = false;
  event_ref = "obstacle";
}

abbrev limitation : DeadlineRule
limitation = record {
  branch = limitation_period;
  anchor = "awareAt";
  no_deadline = false;
  no_deadline_reason = none;
  court_specified_date = none;
  property_type = other_property;
  window_days = 30;
  duration = 3;
  duration_unit = unit_years;
  counting_mode = calendar_periods;
  start_offset_days = 0;
  boundary_inclusive = false;
  calendar_version = none;
  roll_forward_end = none;
  adjustment_policy = civil194;
  adjustments = some (obstacle ∷ []);
  review_on_expiry = none;
  legal_review_required = false;
}

abbrev calendar : CalendarSnapshot
calendar = record {
  version = "2024";
  coverage_start = 737000;
  coverage_end = 740000;
  released = true;
  overrides = [];
}

abbrev companion : Companion
companion = record { companion_id = "longest"; companion_due = some 739100; earliest_expiry = none }

-- The result before the companion is 1 October 2024, day 739160.
abbrev answer : Deadline
answer = record {
  legal_result = record {
    raw_due = some 738946;
    due = some 739100;
    is_candidate = true;
    is_holiday_extended = false;
    is_suspended = true;
    is_capped = true;
    has_coverage_gap = false;
  };
  calculation_steps =
      trigger 737850
      ∷ anchor_is "awareAt"
      ∷ branch_is limitation_period
      ∷ start_offset 0
      ∷ starts_on 737850
      ∷ calendar_period 3 unit_years
      ∷ suspended_civil194 738855 738977
      ∷ expires_on 739160
      ∷ companion_limit "longest" 739100
      ∷ [];
  adjustment_refs = "obstacle" ∷ [];
  earliest = some 739160;
}

limitation_run : compute_deadline limitation event calendar 738000 (companion ∷ []) ≡ ok answer
unfolding compute_deadline calculate by_branch generic_period adjustments_of start_calculation
    raw_expiry_of period_expiry add_delta inclusive_shift rolls is_business_mode rolls_by_default
    roll_due catch_gap record_roll roll_forward roll_loop is_business_day is_covered opens
    is_weekday adjust_all is_none_policy adjustment_at goes_back effect_of suspend suspend_under
    suspend_civil194 required_date removal_date apply_effect is_known_policy review_expired
    check_coverage apply_companions apply_companion is_limit_step is_gap_step is_given
    legal_result_of calendar_shift shifted replace_clamped civil locate ordinal total days_in_year
    days_in_month is_leap add_days runs
limitation_run = refl

compute_deadline-Limits_example :
    (e : ℕ) × (answer.earliest ≡ some e)
    × (is_covered calendar e ≡ true)
    × (739100 ≤ e)
    × ((b : Companion) → Memᴰ b (companion ∷ []) → Respects b 739100)
    × Origin (companion ∷ []) 739100 e
compute_deadline-Limits_example =
    compute_deadline-Limits limitation event calendar 738000 (companion ∷ []) answer 739100
      limitation_run refl

abbrev effect : Effect
effect = record { new_due = 739160; suspends = true; step = suspended_civil194 738855 738977 }

suspend_run : suspend civil194 obstacle 738946 ≡ ok effect
unfolding suspend suspend_under suspend_civil194 required_date removal_date calendar_shift shifted
    replace_clamped civil locate ordinal total days_in_year days_in_month is_leap runs
suspend_run = refl

suspend-Lengthens_example :
    (obstacle.ground_confirmed ≡ true)
    × ((start : ℕ) × (end : ℕ) × (obstacle.from_date ≡ given start)
        × (obstacle.to_date ≡ given end)
        × (start ≤ end)
        × ((cannot : Bool) × (obstacle.cannot_exercise ≡ some cannot)
            × Lengthens 738946 start cannot effect))
suspend-Lengthens_example = suspend-Lengthens civil194 obstacle 738946 effect suspend_run

-- A chattel preserved for more than two years from the trigger.
abbrev preserved : DeadlineRule
preserved = record limitation {
  branch = preservation;
  court_specified_date = some 738581;
  property_type = chattel;
}

cap_run :
    compute_deadline preserved event calendar 738000 [] ≡ err (coded "preservation_cap_exceeded")
unfolding compute_deadline calculate by_branch start_calculation court_day check_cap cap_days
    add_days
cap_run = refl
