-- ===== src/Completion.antt =====
-- compiler_core/completion_status.py: the stage results and the trust label of a computation. The
-- package version in a stage's default fields is an argument of whoever builds the record.
use juris_calculus.Prelude.{
  Bool, true, false, not, List, [], ◌∷◌, Option, none, some, String, all, if◌then◌else◌,
}
pub mod Labels

pub data CompletionStatus : Type 0 where
  complete truncated unknown error incompatible verification_failed : CompletionStatus

pub record StageResult {ℓ κ} (T : Type ℓ) (C : Type κ) : Type (ℓ ⊔ κ) where
  pub status : CompletionStatus
  pub value : Option T
  pub certificate : Option C
  pub assumptions : List String
  pub limitations : List String
  pub input_digest : String
  pub producer_version : String

unfoldable pub is_complete : CompletionStatus → Bool
is_complete complete = true
is_complete _ = false

abbrev pub definitive_label : String
definitive_label = "ALLOWED / FORBIDDEN / UNDECIDED"

-- `TRUST_LABEL_MAP`, with `none` for a missing key.
unfoldable pub trust_label_map : CompletionStatus → Bool → Option String
trust_label_map complete true = some definitive_label
trust_label_map truncated false = some "INCOMPLETE_REASONING"
trust_label_map incompatible false = some "INCOMPLETE_ATTACK_GRAPH"
trust_label_map unknown false = some "COMPUTATION_UNKNOWN"
trust_label_map verification_failed false = some "VERIFICATION_FAILED"
trust_label_map error false = some "UNGROUNDED_SOURCE"
trust_label_map _ _ = none

-- `TRUST_LABEL_MAP.get((status, False), "UNKNOWN")`.
unfoldable pub failure_label : CompletionStatus → String
failure_label status = elim (trust_label_map status false) [ none ↦ "UNKNOWN" | some label ↦ label ]

-- What follows the loop; a missing key of the map would raise.
unfoldable pub certified_label : Bool → Option String
certified_label cert_valid =
    if not cert_valid
    then trust_label_map verification_failed false
    else trust_label_map complete true

module _ {ℓ κ} {T : Type ℓ} {C : Type κ} where
  unfoldable pub no_uncertainty_upgrade : List (StageResult T C) → Bool
  no_uncertainty_upgrade upstream = all (λ s. is_complete s.status) upstream

  -- The `for` loop over the stages: the label of the first one that is not complete.
  unfoldable pub first_failure : List (StageResult T C) → Option String
  first_failure [] = none
  first_failure (stage ∷ rest) =
      let later = first_failure rest in
      if not (is_complete stage.status) then some (failure_label stage.status) else later

  unfoldable pub compute_trust_label :
      StageResult T C → StageResult T C → StageResult T C → Bool → Option String
  compute_trust_label horn aaf grounded cert_valid =
      let stages = horn ∷ aaf ∷ grounded ∷ [] in
      if not (no_uncertainty_upgrade stages)
      then elim (first_failure stages) [
        | some label ↦ some label
        | none ↦ certified_label cert_valid
      ]
      else certified_label cert_valid
