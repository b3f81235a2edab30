-- ===== src/Horn/Changes.antt =====
-- compiler_core/incremental.py: the changes that forbid the incremental path
-- (`requires_full_recompute`) and the empirical estimate of a subject (`attach_empirical_v5`).
use juris_calculus.Prelude.{
  ◌≡◌, Bool, true, false, not, ◌&&◌, List, [], ◌∷◌, ◌++◌, Option, none, some, String, string_key,
  is_empty, arith, Result, ok, reject_if, ◌>>◌,
}
use juris_calculus.Horn.{HornError, empirical_absence_unrecorded, empirical_state}

-- The keyword arguments of `requires_full_recompute`.
pub record Changes : Type 0 where
  pub deleted_facts : List String
  pub revoked_attestations : List String
  pub rule_rewrites : List String
  pub profile_changed : Bool
  pub mapping_changed : Bool
  pub assumptions_changed : Bool
  pub universe_growth : List String

-- `if test: reasons.append(name)`.
unfoldable pub reason : Bool → String → List String
reason true name = name ∷ []
reason false name = []

unfoldable pub requires_full_recompute : Changes → List String
requires_full_recompute c =
    reason (not (is_empty c.deleted_facts)) "fact_deletion"
    ++ reason (not (is_empty c.revoked_attestations)) "attestation_revocation"
    ++ reason (not (is_empty c.rule_rewrites)) "rule_rewrite"
    ++ reason c.profile_changed "profile_change"
    ++ reason c.mapping_changed "mapping_change"
    ++ reason c.assumptions_changed "assumption_set_change"
    ++ reason (not (is_empty c.universe_growth)) "universe_growth"

-- The result is a wire contract, of which nothing is read.
pub record EmpiricalEstimate {ℓ} (R : Type ℓ) : Type ℓ where
  pub normative_subject_digest : String
  pub result : Option R
  pub absent_reason : Option String

-- `bool` of an optional string.
unfoldable pub is_recorded : Option String → Bool
is_recorded none = false
is_recorded (some text) = not (string_key.beq text "")

unfoldable pub is_absent {ℓ} : {R : Type ℓ} → Option R → Bool
is_absent none = true
is_absent (some _) = false

module _ {ℓ} {R : Type ℓ} where
  -- `EmpiricalEstimateV5.__post_init__`.
  unfoldable pub admit_estimate : EmpiricalEstimate R → Result HornError (EmpiricalEstimate R)
  admit_estimate e = do
    reject_if (is_absent e.result && not (is_recorded e.absent_reason)) empirical_absence_unrecorded
    reject_if (not (is_absent e.result) && is_recorded e.absent_reason) empirical_state
    ok e

  unfoldable pub attach_empirical :
      String → Option R → Option String → Result HornError (EmpiricalEstimate R)
  attach_empirical digest none none = admit_estimate (record {
    normative_subject_digest = digest;
    result = none;
    absent_reason = some "no-verified-empirical-model";
  })
  attach_empirical digest result absent_reason =
      admit_estimate (record {
        normative_subject_digest = digest;
        result = result;
        absent_reason = absent_reason;
      })

  admitted_exclusive :
      (x e : EmpiricalEstimate R)
      → admit_estimate x ≡ ok e
      → is_absent e.result ≡ is_recorded e.absent_reason
  unfolding admit_estimate
  admitted_exclusive x e h = ground arith

  -- Whatever is attached carries either a result or a recorded reason for its absence, never both.
  pub attach_empirical_exclusive :
      (digest : String) (result : Option R) (absent_reason : Option String)
      (e : EmpiricalEstimate R)
      → attach_empirical digest result absent_reason ≡ ok e
      → is_absent e.result ≡ is_recorded e.absent_reason
  unfolding attach_empirical
  attach_empirical_exclusive digest none none e h = admitted_exclusive _ e h
  attach_empirical_exclusive digest none (some text) e h = admitted_exclusive _ e h
  attach_empirical_exclusive digest (some r) absent_reason e h = admitted_exclusive _ e h
