-- ===== src/Assurance.antt =====
-- The aggregation of assurance envelopes: compiler_core/assurance.py, with the envelope's own
-- validation from compiler_core/contracts.py. The digest of an envelope's fields is a parameter. A
-- status is its wire string.
use juris_calculus.Prelude.{
  Key, Bool, true, false, not, ◌&&◌, ◌||◌, List, [], ◌∷◌, ◌++◌, String, string_key, pair_key,
  is_empty, has, dedup, sort, Result, ok, err, reject_if, ◌>>=◌, ◌>>◌, if◌then◌else◌,
}
pub mod Merge
pub mod Combine
pub mod Total

pub data AssuranceError : Type 0 where
  no_candidate scope_differs upgrade enum_value type_authority self_digest : AssuranceError

pub record Obligation : Type 0 where
  pub code : String
  pub detail : String

pub record Exemption : Type 0 where
  pub obligation : String
  pub reason : String
  pub applicability_evidence_ref : String

-- The fields of an envelope but its own digest.
pub record EnvelopeBody : Type 0 where
  pub scope_request_ref : String
  pub scope_profile : String
  pub spec : String
  pub implementation : String
  pub run_check : String
  pub coverage_open_obligations : List Obligation
  pub coverage_not_applicable : List Exemption
  pub pending_refs : List String
  pub assumed_refs : List String
  pub open_spec_refs : List String
  pub formal_assumption_refs : List String
  pub tcb_refs : List String
  pub notices : List Obligation

pub record Envelope : Type 0 where
  pub body : EnvelopeBody
  pub assurance_digest : String

abbrev pub spec_order : List String
spec_order = "openObligations" ∷ "assumed" ∷ "proved" ∷ []

abbrev pub implementation_order : List String
implementation_order = "crossCheckOnly" ∷ "tcbSpecified" ∷ "kernelVerified" ∷ []

abbrev pub run_check_order : List String
run_check_order = "checkFailed" ∷ "unchecked" ∷ "checked" ∷ []

abbrev pub semantic_profiles : List String
semantic_profiles = "grounded" ∷ "preferred" ∷ "stable" ∷ "complete" ∷ []

abbrev pub obligation_key : Obligation → String × String
obligation_key o = (o.code, o.detail)

abbrev pub exemption_key : Exemption → String × String
exemption_key e = (e.obligation, e.reason)

-- The first candidate of the order among the values.
unfoldable pub dominate : List String → List String → Result AssuranceError String
dominate values [] = err no_candidate
dominate values (candidate ∷ order) =
    if has candidate values then ok candidate else dominate values order

module _ {ℓ κ} {E : Type ℓ} {K : Type κ} ⦃k : Key K⦄ (key : E → K) where
  -- `merged.setdefault(key, entry)` over the entries, with the keys that are already there.
  unfoldable pub keep_first : List K → List E → List E
  keep_first seen [] = []
  keep_first seen (x ∷ xs) =
      if has (key x) seen then keep_first seen xs else x ∷ keep_first (key x ∷ seen) xs

  unfoldable pub place_by : E → List E → List E
  place_by x [] = x ∷ []
  place_by x (y ∷ ys) = if k.le (key x) (key y) then x ∷ y ∷ ys else y ∷ place_by x ys

  -- `sorted(entries, key=key)`.
  unfoldable pub sort_by : List E → List E
  sort_by [] = []
  sort_by (x ∷ xs) = place_by x (sort_by xs)

  unfoldable pub merge_by : List E → List E → List E
  merge_by left right = sort_by (keep_first [] (left ++ right))

unfoldable pub merge_obligations : List Obligation → List Obligation → List Obligation
merge_obligations left right = merge_by obligation_key left right

unfoldable pub merge_exemptions : List Exemption → List Exemption → List Exemption
merge_exemptions left right = merge_by exemption_key left right

unfoldable pub merge_refs : List String → List String → List String
merge_refs left right = sort (dedup (left ++ right))

-- `AssuranceEnvelopeV5._validate`.
unfoldable pub validate : EnvelopeBody → Result AssuranceError EnvelopeBody
validate b = do
  reject_if (not (has b.scope_profile semantic_profiles)) enum_value
  reject_if (not (has b.spec spec_order)) enum_value
  reject_if (not (has b.implementation implementation_order)) enum_value
  reject_if (not (has b.run_check run_check_order)) enum_value
  reject_if (string_key.beq b.implementation "kernelVerified" && is_empty b.tcb_refs) type_authority
  ok b

unfoldable pub merge_bodies : EnvelopeBody → EnvelopeBody → String → String → String → EnvelopeBody
merge_bodies l r spec implementation run_check = record {
  scope_request_ref = l.scope_request_ref;
  scope_profile = l.scope_profile;
  spec = spec;
  implementation = implementation;
  run_check = run_check;
  coverage_open_obligations =
      merge_obligations l.coverage_open_obligations r.coverage_open_obligations;
  coverage_not_applicable = merge_exemptions l.coverage_not_applicable r.coverage_not_applicable;
  pending_refs = merge_refs l.pending_refs r.pending_refs;
  assumed_refs = merge_refs l.assumed_refs r.assumed_refs;
  open_spec_refs = merge_refs l.open_spec_refs r.open_spec_refs;
  formal_assumption_refs = merge_refs l.formal_assumption_refs r.formal_assumption_refs;
  tcb_refs = merge_refs l.tcb_refs r.tcb_refs;
  notices = merge_obligations l.notices r.notices;
}

-- Whether the two envelopes are of different scopes.
unfoldable pub other_scope : EnvelopeBody → EnvelopeBody → Bool
other_scope l r =
    not (string_key.beq l.scope_request_ref r.scope_request_ref)
    || not (string_key.beq l.scope_profile r.scope_profile)

-- The fields of the combined envelope.
unfoldable pub combine_bodies : EnvelopeBody → EnvelopeBody → Result AssuranceError EnvelopeBody
combine_bodies l r = do
  reject_if (other_scope l r) scope_differs
  implementation ← dominate (l.implementation ∷ r.implementation ∷ []) implementation_order
  reject_if
      (string_key.beq implementation "kernelVerified"
        && is_empty (merge_refs l.tcb_refs r.tcb_refs))
      upgrade
  spec ← dominate (l.spec ∷ r.spec ∷ []) spec_order
  run_check ← dominate (l.run_check ∷ r.run_check ∷ []) run_check_order
  ok (merge_bodies l r spec implementation run_check)

module _ (digest_value : EnvelopeBody → String) where
  -- `from_dict` of the fields with their digest.
  unfoldable pub issue : EnvelopeBody → Result AssuranceError Envelope
  issue b = do
    valid ← validate b
    ok (record { body = valid; assurance_digest = digest_value valid })

  unfoldable pub combine_assurance : Envelope → Envelope → Result AssuranceError Envelope
  combine_assurance left right = do b ← combine_bodies left.body right.body; issue b

  unfoldable pub rebuild_digest : Envelope → Result AssuranceError Envelope
  rebuild_digest envelope = issue envelope.body
