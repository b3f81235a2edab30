-- ===== src/Deadline/Adjust.antt =====
-- The adjustment loop of `compute_deadline`: suspensions under two policies, and interruptions.
use juris_calculus.Prelude.{
  ℕ, ◌-◌, Bool, true, false, not, ◌&&◌, ◌||◌, List, [], ◌∷◌, ◌++◌, Option, none, some, String,
  string_key, has, Result, ok, err, reject_if, ◌>>=◌, ◌>>◌, if◌then◌else◌, ltb, max, pos, negsuc,
  ◌+ℤ◌,
}
use juris_calculus.Calendar.{DeadlineError, coded, months, years, add_days, calendar_shift}
use juris_calculus.Deadline.{
  unit_months, unit_years, unit_days, Policy, civil194, no_policy, DateField, absent, invalid,
  given, suspension, interruption, other_kind, Adjustment, DeadlineRule, Step,
  obstacle_not_preventing, not_in_effective_window, after_expiry_no_revival, suspended_civil194,
  suspended_labor27, restarted_from, Calculation,
}
use juris_calculus.Deadline.Period.{add_delta, inclusive_shift}

-- What an adjustment makes of the due date: the new one, whether a suspension was established, and
-- the step.
pub record Effect : Type 0 where
  pub new_due : ℕ
  pub suspends : Bool
  pub step : Step

abbrev pub premise_unverified : DeadlineError
premise_unverified = coded "deadline_legal_premise_unverified"

-- `fromisoformat(adjustment.get("from") or adjustment.get("at") or "")`.
unfoldable pub adjustment_at : Adjustment → Result DeadlineError ℕ
adjustment_at a = elim a.from_date [
  | given day ↦ ok day
  | invalid ↦ err premise_unverified
  | absent ↦ elim a.at_date [ given day ↦ ok day | _ ↦ err premise_unverified ]
]

-- `fromisoformat(adjustment[key])`, where nothing is caught.
unfoldable pub required_date : DateField → Result DeadlineError ℕ
required_date (given day) = ok day
required_date absent = err (coded "KeyError")
required_date invalid = err (coded "ValueError")

-- The date of the obstacle's removal.
unfoldable pub removal_date : DateField → Result DeadlineError ℕ
removal_date (given day) = ok day
removal_date _ = err premise_unverified

abbrev pub civil194_grounds : List String
civil194_grounds =
    "force_majeure" ∷ "no_legal_representative" ∷ "successor_or_estate_admin_undetermined"
    ∷ "controlled_by_obligor" ∷ "other_obstacle" ∷ []

abbrev pub labor27_grounds : List String
labor27_grounds = "force_majeure" ∷ "other_justifiable_reason" ∷ []

abbrev pub unchanged : ℕ → Step → Effect
unchanged due step = record { new_due = due; suspends = false; step = step }

-- Civil Code art. 194: the obstacle must fall into the last six months, and six months run again
-- from its removal.
unfoldable pub suspend_civil194 : Adjustment → Bool → ℕ → ℕ → ℕ → Result DeadlineError Effect
suspend_civil194 a cannot due start end = do
  reject_if
      (not (has a.ground civil194_grounds)
        || (string_key.beq a.ground "other_obstacle" && not a.has_review_ref))
      premise_unverified
  if not cannot then ok (unchanged due obstacle_not_preventing) else do
    window ← calendar_shift due (negsuc 5) months
    if ltb due start || ltb end window then ok (unchanged due not_in_effective_window) else do
      resumed ← calendar_shift end (pos 6) months
      ok (record {
        new_due = max due resumed;
        suspends = true;
        step = suspended_civil194 (max start window) end;
      })

-- Labor arbitration art. 27: the days of the obstacle are not counted.
unfoldable pub suspend_labor27 : Adjustment → Bool → ℕ → ℕ → ℕ → Result DeadlineError Effect
suspend_labor27 a cannot due start end = do
  reject_if (not (has a.ground labor27_grounds)) premise_unverified
  if not cannot then ok (unchanged due obstacle_not_preventing) else do
    if ltb due start then ok (unchanged due after_expiry_no_revival) else do
      later ← add_days due (end - start)
      ok (record { new_due = later; suspends = true; step = suspended_labor27 end (end - start) })

-- The policy has been checked to be one of the three, and is not `none` here.
unfoldable pub suspend_under :
    Policy → Adjustment → Option Bool → ℕ → ℕ → ℕ → Result DeadlineError Effect
suspend_under rules a none due start end = err premise_unverified
suspend_under civil194 a (some cannot) due start end = suspend_civil194 a cannot due start end
suspend_under _ a (some cannot) due start end = suspend_labor27 a cannot due start end

unfoldable pub suspend : Policy → Adjustment → ℕ → Result DeadlineError Effect
suspend policy a due = do
  start ← required_date a.from_date
  end ← removal_date a.to_date
  reject_if (ltb end start) (coded "deadline_adjustment_time_invalid")
  reject_if (not a.ground_confirmed) premise_unverified
  suspend_under policy a a.cannot_exercise due start end

unfoldable pub restart_due : DeadlineRule → ℕ → Result DeadlineError ℕ
restart_due rule restart = elim rule.duration_unit [
  | unit_months ↦ calendar_shift restart (pos rule.duration) months
  | unit_years ↦ calendar_shift restart (pos rule.duration) years
  | unit_days ↦ add_delta restart (pos rule.duration +ℤ inclusive_shift rule.boundary_inclusive)
]

unfoldable pub interrupt : DeadlineRule → Adjustment → ℕ → Result DeadlineError Effect
interrupt rule a due = do
  restart ← required_date a.at_date
  reject_if (not a.ground_confirmed) premise_unverified
  reject_if (ltb due restart) (coded "deadline_legal_review_required")
  new_due ← restart_due rule restart
  ok (record { new_due = new_due; suspends = false; step = restarted_from restart })

unfoldable pub effect_of : DeadlineRule → Adjustment → ℕ → Result DeadlineError Effect
effect_of rule a due = elim a.kind [
  | suspension ↦ suspend rule.adjustment_policy a due
  | interruption ↦ interrupt rule a due
  | other_kind name ↦ err (coded "deadline_adjustment_kind_invalid")
]

unfoldable pub is_none_policy : Policy → Bool
is_none_policy no_policy = true
is_none_policy _ = false

-- `previous is not None and adjustment_at < previous`.
unfoldable pub goes_back : Option ℕ → ℕ → Bool
goes_back none day = false
goes_back (some previous) day = ltb day previous

unfoldable pub apply_effect : Adjustment → Effect → Calculation → Calculation
apply_effect a e c = record c {
  due_date = some e.new_due;
  suspension_established = c.suspension_established || e.suspends;
  steps = c.steps ++ e.step ∷ [];
  adjustments_used = c.adjustments_used ++ a.event_ref ∷ [];
}

-- The loop over the adjustments, with the due date and the date of the previous adjustment.
unfoldable pub adjust_all :
    DeadlineRule
    → List Adjustment
    → Option ℕ
    → ℕ
    → Calculation
    → Result DeadlineError (ℕ × Calculation)
adjust_all rule [] previous due c = ok (due, c)
adjust_all rule (a ∷ rest) previous due c = do
  reject_if (is_none_policy rule.adjustment_policy) (coded "deadline_adjustment_not_supported")
  day ← adjustment_at a
  reject_if (goes_back previous day) (coded "deadline_adjustment_order_unverified")
  e ← effect_of rule a due
  adjust_all rule rest (some day) e.new_due (apply_effect a e c)
