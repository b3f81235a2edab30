-- ===== src/Deadline/Compute.antt =====
-- `compute_deadline`: the branches, the coverage of the result and the companion limits. The time of
-- day, the time zone, the receipts with their hash and the wire shape of the result are left out.
use juris_calculus.Prelude.{
  ℕ, Bool, true, false, not, ◌&&◌, ◌||◌, List, [], ◌∷◌, ◌++◌, Option, none, some, String,
  string_key, is_empty, any, Result, ok, err, reject_if, ◌>>=◌, ◌>>◌, if◌then◌else◌, ltb, leb,
}
use juris_calculus.Calendar.{
  DeadlineError, coded, CalendarSnapshot, add_days, subtract_days, is_covered,
}
use juris_calculus.Deadline.{
  court_specified, preservation, preservation_renewal, archive_organization, PropertyType,
  bank_deposit, chattel, real_estate, other_property, Policy, other_policy, DeadlineRule,
  EventDates, Step, trigger, anchor_is, branch_is, start_offset, starts_on,
  candidate_requires_lawyer_review, no_auto_extension, retention_policy_separate,
  no_ordinary_deadline, Adjustment, court_date, court_expiry, cap_check, renewal_window,
  organization_due, expires_on, calendar_coverage_gap, companion_coverage_gap,
  companion_lower_bound_not_binding, companion_limit, Calculation, Companion, LegalResult, Deadline,
}
use juris_calculus.Deadline.Period.{raw_expiry_of, roll_due}
use juris_calculus.Deadline.Adjust.{adjust_all}

abbrev pub opening_steps : DeadlineRule → EventDates → List Step
opening_steps rule event =
    trigger event.trigger_day
    ∷ anchor_is rule.anchor
    ∷ branch_is rule.branch
    ∷ (if rule.legal_review_required then candidate_requires_lawyer_review ∷ [] else [])

unfoldable pub start_calculation : DeadlineRule → EventDates → Calculation
start_calculation rule event = record {
  due_date = none;
  raw_expiry = none;
  starts = none;
  calendar_gap = false;
  holiday_extended = false;
  suspension_established = false;
  adjustments_used = [];
  steps = opening_steps rule event;
}

-- The due date of a branch that does not roll or adjust, with its steps.
unfoldable pub settle : ℕ → List Step → Calculation → Calculation
settle due steps c = record c { due_date = some due; steps = c.steps ++ steps }

-- `rule.get("courtSpecifiedDate") or event["hearingAt"]["value"]`.
unfoldable pub court_day : Option ℕ → Option ℕ → Result DeadlineError ℕ
court_day (some day) hearing = ok day
court_day none (some day) = ok day
court_day none none = err (coded "deadline_court_date_missing")

unfoldable pub cap_days : PropertyType → Option ℕ
cap_days bank_deposit = some 365
cap_days chattel = some 730
cap_days real_estate = some 1095
cap_days other_property = none

-- The cap counts from the trigger day; the court's date is the due date.
unfoldable pub check_cap : Option ℕ → ℕ → ℕ → Calculation → Result DeadlineError Calculation
check_cap none trigger_day expiry c = ok (settle expiry (court_expiry expiry ∷ []) c)
check_cap (some days) trigger_day expiry c = do
  cap ← add_days trigger_day days
  reject_if (ltb cap expiry) (coded "preservation_cap_exceeded")
  ok (settle expiry (court_expiry expiry ∷ cap_check cap expiry ∷ []) c)

unfoldable pub is_known_policy : Policy → Bool
is_known_policy (other_policy name) = false
is_known_policy _ = true

-- `due < now`, for a rule with a code for an expired deadline.
unfoldable pub review_expired :
    Option String → Bool → ℕ → ℕ → Calculation → Result DeadlineError Calculation
review_expired none gap due now c = ok c
review_expired (some code) gap due now c =
    if not (string_key.beq code "") && not gap && ltb due now then err (coded code) else ok c

-- `rule.get("adjustments", ...)`: the adjustments of the event's legal context where the rule has no
-- such key.
unfoldable pub adjustments_of : DeadlineRule → EventDates → List Adjustment
adjustments_of rule event = elim rule.adjustments [
  | none ↦ event.context_adjustments
  | some own ↦ own
]

-- `rule.get("adjustments") or event["legalContext"]["adjustments"]`.
unfoldable pub is_adjusted : DeadlineRule → EventDates → Bool
is_adjusted rule event = elim rule.adjustments [
  | none ↦ not (is_empty event.context_adjustments)
  | some own ↦ not (is_empty own) || not (is_empty event.context_adjustments)
]

-- The branch of the generic periods.
unfoldable pub generic_period :
    DeadlineRule
    → EventDates
    → CalendarSnapshot
    → ℕ
    → Calculation
    → Result DeadlineError Calculation
generic_period rule event calendar now c = do
  start ← add_days event.trigger_day rule.start_offset_days
  (expiry, step) ← raw_expiry_of rule start calendar
  (rolled_due, after_roll) ← roll_due rule calendar expiry (record c {
    raw_expiry = some expiry;
    starts = some start;
    steps = c.steps ++ start_offset rule.start_offset_days ∷ starts_on start ∷ step ∷ [];
  })
  reject_if (not (is_known_policy rule.adjustment_policy)) (coded "deadline_rule_syntax_invalid")
  (adjusted_due, adjusted) ← adjust_all rule (adjustments_of rule event) none rolled_due after_roll
  (due, final) ← roll_due rule calendar adjusted_due adjusted
  review_expired rule.review_on_expiry final.calendar_gap due now final

-- The conclusion that no ordinary deadline exists.
unfoldable pub without_deadline :
    Option String → List Step → Bool → Calculation → Result DeadlineError Calculation
without_deadline none steps adjusted c = err (coded "deadline_rule_syntax_invalid")
without_deadline (some reason) steps adjusted c = do
  reject_if (string_key.beq reason "") (coded "deadline_rule_syntax_invalid")
  reject_if adjusted (coded "deadline_adjustment_not_supported")
  ok (record c { steps = c.steps ++ no_ordinary_deadline reason ∷ [] })

unfoldable pub by_branch :
    DeadlineRule
    → EventDates
    → CalendarSnapshot
    → ℕ
    → Calculation
    → Result DeadlineError Calculation
by_branch rule event calendar now c = elim rule.branch [
  | court_specified ↦ court_day rule.court_specified_date event.hearing_at >>= λ day.
      ok (settle day (court_date day ∷ []) c)
  | preservation ↦ court_day rule.court_specified_date event.hearing_at >>= λ expiry.
      check_cap (cap_days rule.property_type) event.trigger_day expiry c
  | preservation_renewal ↦ court_day rule.court_specified_date none >>= λ expiry.
      subtract_days expiry rule.window_days >>= λ opens_on.
      ok (settle opens_on (renewal_window expiry rule.window_days ∷ no_auto_extension ∷ []) c)
  | archive_organization ↦ add_days event.trigger_day rule.duration >>= λ due.
      ok (settle due (organization_due due ∷ retention_policy_separate ∷ []) c)
  | _ ↦ generic_period rule event calendar now c
]

unfoldable pub calculate :
    DeadlineRule → EventDates → CalendarSnapshot → ℕ → Result DeadlineError Calculation
calculate rule event calendar now =
    let c = start_calculation rule event in
    if rule.no_deadline
    then without_deadline rule.no_deadline_reason c.steps (is_adjusted rule event) c
    else by_branch rule event calendar now c

-- The due date is given up where the calendar does not cover it, or a roll met a gap.
unfoldable pub check_coverage : CalendarSnapshot → Bool → Option ℕ → Option ℕ × List Step
check_coverage calendar gap none = (none, [])
check_coverage calendar gap (some due) =
    if gap || not (is_covered calendar due)
    then (none, expires_on due ∷ calendar_coverage_gap ∷ [])
    else (some due, expires_on due ∷ [])

unfoldable pub below_bound : Option ℕ → Option ℕ → Bool
below_bound (some due) (some lower) = leb due lower
below_bound _ _ = false

-- One companion deadline.
unfoldable pub apply_companion : Companion → Option ℕ → Option ℕ × List Step
apply_companion b due = elim b.companion_due [
  | none ↦
      if below_bound due b.earliest_expiry
      then (
        due,
        companion_lower_bound_not_binding b.companion_id
              (elim b.earliest_expiry [ some day ↦ day | none ↦ 0 ])
            ∷ [],
      )
      else (none, companion_coverage_gap ∷ [])
  | some limit ↦ elim due [
    | none ↦ (none, [])
    | some day ↦
        if ltb limit day
        then (some limit, companion_limit b.companion_id limit ∷ [])
        else (some day, [])
  ]
]

unfoldable pub apply_companions : List Companion → Option ℕ → Option ℕ × List Step
apply_companions [] due = (due, [])
apply_companions (b ∷ rest) due =
    let now = apply_companion b due in
    let later = apply_companions rest now.0 in (later.0, now.1 ++ later.1)

unfoldable pub is_limit_step : Step → Bool
is_limit_step (companion_limit _ _) = true
is_limit_step _ = false

unfoldable pub is_gap_step : Step → Bool
is_gap_step calendar_coverage_gap = true
is_gap_step companion_coverage_gap = true
is_gap_step _ = false

unfoldable pub is_given : Option ℕ → Bool
is_given none = false
is_given (some _) = true

unfoldable pub legal_result_of : DeadlineRule → Calculation → Option ℕ → List Step → LegalResult
legal_result_of rule c due steps =
    let gap = any is_gap_step steps in
    record {
      raw_due = c.raw_expiry;
      due = due;
      is_candidate = (is_given due || rule.no_deadline) && not gap;
      is_holiday_extended = c.holiday_extended;
      is_suspended = c.suspension_established;
      is_capped = any is_limit_step steps;
      has_coverage_gap = gap;
    }

unfoldable pub compute_deadline :
    DeadlineRule
    → EventDates
    → CalendarSnapshot
    → ℕ
    → List Companion
    → Result DeadlineError Deadline
compute_deadline rule event calendar now companions = do
  c ← calculate rule event calendar now
  let covered = check_coverage calendar c.calendar_gap c.due_date
  let limited = apply_companions companions covered.0
  let steps = c.steps ++ covered.1 ++ limited.1
  ok (record {
    legal_result = legal_result_of rule c limited.0 steps;
    calculation_steps = steps;
    adjustment_refs = c.adjustments_used;
    earliest = c.due_date;
  })
