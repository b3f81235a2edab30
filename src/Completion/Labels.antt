-- ===== src/Completion/Labels.antt =====
-- When the trust label is the definitive one.
use juris_calculus.Prelude.{
  ◌≡◌, refl, ◌↔◌, Bool, true, false, Option, some, String, string_key, all, Bool-cases,
  not_of_false, inl, inr,
}
use juris_calculus.Completion.{
  CompletionStatus, StageResult, complete, truncated, unknown, error, incompatible,
  verification_failed, is_complete, definitive_label, trust_label_map, failure_label,
  no_uncertainty_upgrade, first_failure, certified_label, compute_trust_label,
}

apart :
    (label : String) → string_key.beq label definitive_label ≡ false → ¬ (label ≡ definitive_label)
apart label e same = let t = (string_key.beq_iff label definitive_label).1 same in cc

failure_apart : (status : CompletionStatus) → ¬ (failure_label status ≡ definitive_label)
unfolding failure_label trust_label_map
failure_apart complete = apart "UNKNOWN" refl
failure_apart truncated = apart "INCOMPLETE_REASONING" refl
failure_apart incompatible = apart "INCOMPLETE_ATTACK_GRAPH" refl
failure_apart unknown = apart "COMPUTATION_UNKNOWN" refl
failure_apart verification_failed = apart "VERIFICATION_FAILED" refl
failure_apart error = apart "UNGROUNDED_SOURCE" refl

-- A label that is the definitive one exactly when `P` holds.
abbrev Labelled : Option String → Type 0 → Type 0
Labelled result P = (label : String) × (result ≡ some label) × ((label ≡ definitive_label) ↔ P)

failed : (status : CompletionStatus) (P : Type 0) → ¬ P → Labelled (some (failure_label status)) P
failed status P no_way = (
  failure_label status,
  refl,
  (λ same. absurd (failure_apart status same), λ p. absurd (no_way p)),
)

certified :
    (cert_valid : Bool) (P : Type 0)
    → P
    → Labelled (certified_label cert_valid) (P × (cert_valid ≡ true))
unfolding certified_label trust_label_map
certified true P p = (definitive_label, refl, (λ _. (p, refl), λ _. refl))
certified false P p = (
  "VERIFICATION_FAILED",
  refl,
  (λ same. absurd (apart "VERIFICATION_FAILED" refl same), λ (_, t). cc),
)

-- The test of a stage against its status.
is_complete_lem : (status : CompletionStatus) → (is_complete status ≡ true) ↔ (status ≡ complete)
unfolding is_complete
is_complete_lem complete = (λ h. refl, λ h. refl)
is_complete_lem truncated = (λ h. cc, λ h. cc)
is_complete_lem unknown = (λ h. cc, λ h. cc)
is_complete_lem error = (λ h. cc, λ h. cc)
is_complete_lem incompatible = (λ h. cc, λ h. cc)
is_complete_lem verification_failed = (λ h. cc, λ h. cc)

incomplete_of : {status : CompletionStatus} → is_complete status ≡ false → ¬ (status ≡ complete)
incomplete_of {status} e same = not_of_false e ((is_complete_lem status).1 same)

module _ {ℓ κ} {T : Type ℓ} {C : Type κ} where
  abbrev pub AllComplete : StageResult T C → StageResult T C → StageResult T C → Type 0
  AllComplete horn aaf grounded =
      (horn.status ≡ complete) × (aaf.status ≡ complete) × (grounded.status ≡ complete)

  -- The label is always found, and it is the definitive one exactly when the status of each of the
  -- three stages is `complete` and the certificate is valid.
  pub compute_trust_label-definitive :
      (horn aaf grounded : StageResult T C) (cert_valid : Bool)
      → (label : String) × (compute_trust_label horn aaf grounded cert_valid ≡ some label)
        × ((label ≡ definitive_label) ↔ (AllComplete horn aaf grounded × (cert_valid ≡ true)))
  unfolding compute_trust_label no_uncertainty_upgrade first_failure all
  compute_trust_label-definitive horn aaf grounded cert_valid =
      elim (Bool-cases (is_complete horn.status)) [
        | inr bad ↦ rw bad (failed horn.status _ (λ (v, _). incomplete_of bad v.0))
        | inl h ↦ elim (Bool-cases (is_complete aaf.status)) [
          | inr bad ↦ rw (h, bad) (failed aaf.status _ (λ (v, _). incomplete_of bad v.1))
          | inl a ↦ elim (Bool-cases (is_complete grounded.status)) [
            | inr bad ↦ rw (h, a, bad) (failed grounded.status _ (λ (v, _). incomplete_of bad v.2))
            | inl g ↦
                rw (h, a, g)
                  (certified cert_valid (AllComplete horn aaf grounded) (
                    (is_complete_lem horn.status).0 h,
                    (is_complete_lem aaf.status).0 a,
                    (is_complete_lem grounded.status).0 g,
                  ))
          ]
        ]
      ]
