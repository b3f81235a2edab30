-- ===== src/Examples/Dates.antt =====
-- Runs of the calendar primitives and of the companion order.
use juris_calculus.Prelude.{
  ◌≡◌, ◌≤◌, ℕ, ◌+◌, min, refl, arith, true, false, List, [], ◌∷◌, ◌⊆◌, String, string_key, runs, ok,
  err, pos, twelve_times,
}
use juris_calculus.Calendar.{
  Civil, CalendarSnapshot, ordinal, civil, months, years, calendar_shift, shifted, replace_clamped,
  is_business_day, is_covered, opens, is_weekday, add_business_days, business_loop, roll_forward,
  roll_loop, locate, total, days_in_month, days_in_year, is_leap, add_days, coverage_missing,
  companion_cycle,
}
use juris_calculus.Calendar.Dates.{IsDate, civil-ordinal}
use juris_calculus.Calendar.Shift.{Moved, calendar_shift-months, calendar_shift-years}
use juris_calculus.Calendar.Back.{negate, calendar_shift-returns, calendar_shift-back}
use juris_calculus.Calendar.Business.{
  FirstOpen, ReachesCount, opened, roll_forward-FirstOpen, add_business_days-ReachesCount,
}
use juris_calculus.Companions.{visit, visit_each, visited_after, order_deadline_rules}
use juris_calculus.Companions.Order.{CompanionsFirst, order_deadline_rules-CompanionsFirst}
use juris_calculus.Companions.Outcome.{Outcome, order_deadline_rules-Outcome}

abbrev leap_day : Civil
leap_day = record { year = 2024; month = 2; day = 29 }

abbrev january_end : Civil
january_end = record { year = 2024; month = 1; day = 31 }

leap_run : ordinal leap_day ≡ 738945
unfolding ordinal total days_in_year days_in_month is_leap
leap_run = refl

leap_back : civil 738945 ≡ leap_day
unfolding civil locate days_in_year days_in_month is_leap
leap_back = refl

leap_day-IsDate : IsDate leap_day
unfolding days_in_month is_leap
leap_day-IsDate = record {
  year_in = (omega arith, omega arith);
  month_in = (omega arith, omega arith);
  day_in = (omega arith, omega arith);
}

january_end-IsDate : IsDate january_end
unfolding days_in_month is_leap
january_end-IsDate = record {
  year_in = (omega arith, omega arith);
  month_in = (omega arith, omega arith);
  day_in = (omega arith, omega arith);
}

civil-ordinal_example : civil (ordinal leap_day) ≡ leap_day
civil-ordinal_example = civil-ordinal leap_day leap_day-IsDate

-- A month after 31 January is 29 February in a leap year.
clamp_run : calendar_shift (ordinal january_end) (pos 1) months ≡ ok 738945
unfolding calendar_shift shifted replace_clamped civil locate ordinal total days_in_year
    days_in_month is_leap
clamp_run = refl

calendar_shift-months_example : Moved january_end (pos 1) 738945
calendar_shift-months_example =
    calendar_shift-months january_end january_end-IsDate (pos 1) 738945 clamp_run

-- A year after 29 February is 28 February.
year_run : calendar_shift (ordinal leap_day) (pos 1) years ≡ ok 739310
unfolding calendar_shift shifted replace_clamped civil locate ordinal total days_in_year
    days_in_month is_leap
year_run = refl

calendar_shift-years_example : Moved leap_day (twelve_times (pos 1)) 739310
calendar_shift-years_example = calendar_shift-years leap_day leap_day-IsDate (pos 1) 739310 year_run

abbrev mid_january : Civil
mid_january = record { year = 2024; month = 1; day = 15 }

mid_january-IsDate : IsDate mid_january
unfolding days_in_month is_leap
mid_january-IsDate = record {
  year_in = (omega arith, omega arith);
  month_in = (omega arith, omega arith);
  day_in = (omega arith, omega arith);
}

thirteen_run : calendar_shift (ordinal mid_january) (pos 13) months ≡ ok 739297
unfolding calendar_shift shifted replace_clamped civil locate ordinal total days_in_year
    days_in_month is_leap
thirteen_run = refl

calendar_shift-returns_example :
    calendar_shift (ordinal january_end) (pos 13) months
    ≡ ok (ordinal (record { year = 2025; month = 2; day = min 31 (days_in_month 2025 2) }))
calendar_shift-returns_example =
    calendar_shift-returns january_end january_end-IsDate (pos 13) 2025 2 (omega arith, omega arith)
      (omega arith, omega arith) refl

calendar_shift-back_example :
    calendar_shift 739297 (negate (pos 13)) months ≡ ok (ordinal mid_january)
calendar_shift-back_example =
    calendar_shift-back mid_january (pos 13) 739297 mid_january-IsDate (omega arith) thirteen_run

-- Day 738945 is a Thursday, and 738946 is declared a holiday.
abbrev calendar : CalendarSnapshot
calendar = record {
  version = "2024";
  coverage_start = 738900;
  coverage_end = 739000;
  released = true;
  overrides = (738946, false) ∷ [];
}

roll_run : roll_forward 738946 calendar ≡ ok 738949
unfolding roll_forward roll_loop is_business_day is_covered opens is_weekday add_days runs
roll_run = refl

uncovered_run : roll_forward 739001 calendar ≡ err coverage_missing
unfolding roll_forward roll_loop is_business_day is_covered
uncovered_run = refl

business_run : add_business_days 738944 (pos 2) calendar ≡ ok 738949
unfolding add_business_days business_loop is_business_day is_covered opens is_weekday add_days runs
business_run = refl

monday_opens : opens calendar 738949 ≡ true
unfolding opens is_weekday runs
monday_opens = refl

roll_forward-FirstOpen_example :
    (s : ℕ) × (roll_forward 738946 calendar ≡ ok s) × (s ≤ 738949) × FirstOpen calendar 738946 s
roll_forward-FirstOpen_example =
    roll_forward-FirstOpen calendar 738946 738949
      (record {
        released_is = refl;
        covers_lo = omega arith;
        covers_hi = omega arith;
        ends = omega arith;
      })
      (omega arith) monday_opens

two_open : 2 ≤ opened calendar 738944 5
unfolding opened opens is_weekday runs
two_open = omega arith

add_business_days-ReachesCount_example :
    (m : ℕ) × (add_business_days 738944 (pos 2) calendar ≡ ok (738944 + m))
    × (m ≤ 5)
    × ReachesCount calendar 738944 2 m
add_business_days-ReachesCount_example =
    add_business_days-ReachesCount calendar 738944 2 5
      (record {
        released_is = refl;
        covers_lo = omega arith;
        covers_hi = omega arith;
        ends = omega arith;
      })
      two_open

abbrev registry : List (String × List String)
registry = ("appeal", "service" ∷ []) ∷ ("service", []) ∷ ("loop", "loop" ∷ []) ∷ []

order_run : order_deadline_rules registry ("appeal" ∷ []) ≡ ok ("service" ∷ "appeal" ∷ [])
unfolding order_deadline_rules visit visit_each visited_after runs
order_run = refl

cycle_run : order_deadline_rules registry ("loop" ∷ []) ≡ err companion_cycle
unfolding order_deadline_rules visit visit_each visited_after runs
cycle_run = refl

order_deadline_rules-CompanionsFirst_example :
    CompanionsFirst registry ("service" ∷ "appeal" ∷ [])
    × ◌⊆◌ {A = String} ("appeal" ∷ []) ("service" ∷ "appeal" ∷ [])
order_deadline_rules-CompanionsFirst_example =
    order_deadline_rules-CompanionsFirst registry ("appeal" ∷ []) ("service" ∷ "appeal" ∷ [])
      order_run

order_deadline_rules-Outcome_example :
    Outcome registry ("loop" ∷ []) (order_deadline_rules registry ("loop" ∷ []))
order_deadline_rules-Outcome_example = order_deadline_rules-Outcome registry ("loop" ∷ [])
