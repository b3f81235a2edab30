-- ===== src/Deadline.antt =====
-- The data of `compute_deadline` of compiler_core/deadlines.py: a rule after its resolution, the
-- event's dates, the adjustments and the steps of the calculation. A text that `fromisoformat`
-- reads is the day that it stands for. A step keeps the values that its text shows.
use juris_calculus.Prelude.{ℕ, Bool, true, false, List, Option, String}
pub mod Period
pub mod Adjust
pub mod Compute
pub mod Limits
pub mod Extends

pub data Branch : Type 0 where
  court_specified limitation_period evidence_period appeal_period arbitration_period : Branch
  criminal_custody preservation preservation_renewal : Branch
  pre_litigation_preservation archive_organization : Branch

-- `BRANCH_TABLE[branch]["roll_forward_end"]`.
unfoldable pub rolls_by_default : Branch → Bool
rolls_by_default limitation_period = true
rolls_by_default evidence_period = true
rolls_by_default appeal_period = true
rolls_by_default arbitration_period = true
rolls_by_default pre_litigation_preservation = true
rolls_by_default _ = false

pub data DurationUnit : Type 0 where
  unit_months unit_years unit_days : DurationUnit

pub data CountingMode : Type 0 where
  calendar_days business_days calendar_periods : CountingMode
  other_mode : String → CountingMode

pub data PropertyType : Type 0 where
  bank_deposit chattel real_estate other_property : PropertyType

pub data Policy : Type 0 where
  civil194 labor27 no_policy : Policy
  other_policy : String → Policy

-- A date of an adjustment: its key may be missing, and its text may be no date.
pub data DateField : Type 0 where
  absent invalid : DateField
  given : ℕ → DateField

pub data AdjustmentKind : Type 0 where
  suspension interruption : AdjustmentKind
  other_kind : String → AdjustmentKind

pub record Adjustment : Type 0 where
  pub kind : AdjustmentKind
  pub from_date : DateField
  pub at_date : DateField
  pub to_date : DateField
  pub ground_confirmed : Bool
  pub cannot_exercise : Option Bool
  pub ground : String
  pub has_review_ref : Bool
  pub event_ref : String

pub record DeadlineRule : Type 0 where
  pub branch : Branch
  pub anchor : String
  pub no_deadline : Bool
  pub no_deadline_reason : Option String
  pub court_specified_date : Option ℕ
  pub property_type : PropertyType
  pub window_days : ℕ
  pub duration : ℕ
  pub duration_unit : DurationUnit
  pub counting_mode : CountingMode
  pub start_offset_days : ℕ
  pub boundary_inclusive : Bool
  pub calendar_version : Option String
  pub roll_forward_end : Option Bool
  pub adjustment_policy : Policy
  -- None where the rule has no such key.
  pub adjustments : Option (List Adjustment)
  pub review_on_expiry : Option String
  pub legal_review_required : Bool

-- The day of the anchor event, the value of `hearingAt` and the adjustments of the legal context.
pub record EventDates : Type 0 where
  pub trigger_day : ℕ
  pub hearing_at : Option ℕ
  pub context_adjustments : List Adjustment

pub data Step : Type 0 where
  trigger start_offset starts_on : ℕ → Step
  anchor_is : String → Step
  branch_is : Branch → Step
  candidate_requires_lawyer_review no_auto_extension retention_policy_separate : Step
  no_ordinary_deadline : String → Step
  court_date court_expiry : ℕ → Step
  cap_check renewal_window rolled : ℕ → ℕ → Step
  organization_due : ℕ → Step
  calendar_period : ℕ → DurationUnit → Step
  counted_days counted_business_days : ℕ → Step
  obstacle_not_preventing not_in_effective_window after_expiry_no_revival : Step
  suspended_civil194 suspended_labor27 : ℕ → ℕ → Step
  restarted_from expires_on : ℕ → Step
  calendar_coverage_gap companion_coverage_gap : Step
  companion_lower_bound_not_binding companion_limit : String → ℕ → Step

-- The variables of the calculation.
pub record Calculation : Type 0 where
  pub due_date : Option ℕ
  pub raw_expiry : Option ℕ
  pub starts : Option ℕ
  pub calendar_gap : Bool
  pub holiday_extended : Bool
  pub suspension_established : Bool
  pub adjustments_used : List String
  pub steps : List Step

-- A companion deadline, as `upper_bounds` holds it.
pub record Companion : Type 0 where
  pub companion_id : String
  pub companion_due : Option ℕ
  pub earliest_expiry : Option ℕ

pub record LegalResult : Type 0 where
  pub raw_due : Option ℕ
  pub due : Option ℕ
  pub is_candidate : Bool
  pub is_holiday_extended : Bool
  pub is_suspended : Bool
  pub is_capped : Bool
  pub has_coverage_gap : Bool

pub record Deadline : Type 0 where
  pub legal_result : LegalResult
  pub calculation_steps : List Step
  pub adjustment_refs : List String
  pub earliest : Option ℕ
