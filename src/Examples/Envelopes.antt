-- ===== src/Examples/Envelopes.antt =====
-- Runs of the assurance envelopes and of the taints.
use juris_calculus.Prelude.{
  ◌≡◌, ◌↔◌, refl, List, [], ◌∷◌, ◌++◌, Memᴰ, String, string_key, pair_key, has, runs, ◌∈◌, ok, err,
}
use juris_calculus.Assurance.{
  EnvelopeBody, Envelope, scope_differs, dominate, keep_first, place_by, sort_by, merge_by,
  merge_obligations, merge_exemptions, merge_refs, validate, merge_bodies, other_scope,
  combine_bodies, issue, combine_assurance,
}
use juris_calculus.Assurance.Combine.{Combines, combine_assurance-Combines}
use juris_calculus.Assurance.Total.{IsAdmitted, combine_assurance_total}
use juris_calculus.Taint.{
  TaintSet, assumption, disputed, to_list, value, propagate_taint, union, merge_labels, labels_of,
  status_labels, label_when, taint_from_statuses,
}
use juris_calculus.Taint.Propagation.{propagate_taint_iff, Gives, taint_from_statuses_iff}

-- A digest that names the specification status.
abbrev digest : EnvelopeBody → String
digest b = b.spec

abbrev left_body : EnvelopeBody
left_body = record {
  scope_request_ref = "request";
  scope_profile = "grounded";
  spec = "proved";
  implementation = "tcbSpecified";
  run_check = "checked";
  coverage_open_obligations = [];
  coverage_not_applicable =
      (record { obligation = "o"; reason = "r"; applicability_evidence_ref = "left" }) ∷ [];
  pending_refs = "b" ∷ "a" ∷ [];
  assumed_refs = [];
  open_spec_refs = [];
  formal_assumption_refs = [];
  tcb_refs = "tcb" ∷ [];
  notices = [];
}

abbrev right_body : EnvelopeBody
right_body = record left_body {
  spec = "assumed";
  implementation = "kernelVerified";
  run_check = "unchecked";
  coverage_open_obligations = (record { code = "c"; detail = "d" }) ∷ [];
  coverage_not_applicable =
      (record { obligation = "o"; reason = "r"; applicability_evidence_ref = "right" }) ∷ [];
  pending_refs = "c" ∷ "a" ∷ [];
}

abbrev left_envelope : Envelope
left_envelope = record { body = left_body; assurance_digest = "proved" }

abbrev right_envelope : Envelope
right_envelope = record { body = right_body; assurance_digest = "assumed" }

-- The evidence of the right envelope's exemption is lost.
abbrev combined : Envelope
combined = record {
  body = record left_body {
    spec = "assumed";
    run_check = "unchecked";
    coverage_open_obligations = (record { code = "c"; detail = "d" }) ∷ [];
    pending_refs = "a" ∷ "b" ∷ "c" ∷ [];
  };
  assurance_digest = "assumed";
}

combine_run : combine_assurance digest left_envelope right_envelope ≡ ok combined
unfolding combine_assurance combine_bodies other_scope dominate merge_bodies merge_obligations
    merge_exemptions merge_refs merge_by keep_first place_by sort_by issue validate runs
combine_run = refl

abbrev elsewhere : Envelope
elsewhere = record {
  body = record left_body { scope_profile = "stable" };
  assurance_digest = "proved";
}

scope_run : combine_assurance digest left_envelope elsewhere ≡ err scope_differs
unfolding combine_assurance combine_bodies other_scope
scope_run = refl

combine_assurance-Combines_example :
    Combines left_body right_body combined.body × (combined.assurance_digest ≡ digest combined.body)
combine_assurance-Combines_example =
    combine_assurance-Combines digest left_envelope right_envelope combined combine_run

left-IsAdmitted : IsAdmitted left_body
unfolding has
left-IsAdmitted = record {
  profile_in = refl;
  spec_in = refl;
  implementation_in = refl;
  run_check_in = refl;
  trusted = λ h. refl;
}

right-IsAdmitted : IsAdmitted right_body
unfolding has
right-IsAdmitted = record {
  profile_in = refl;
  spec_in = refl;
  implementation_in = refl;
  run_check_in = refl;
  trusted = λ h. refl;
}

combine_assurance_total_example :
    (e : Envelope) × (combine_assurance digest left_envelope right_envelope ≡ ok e)
    × IsAdmitted e.body
combine_assurance_total_example =
    combine_assurance_total digest left_envelope right_envelope left-IsAdmitted right-IsAdmitted
      refl refl

abbrev taints : List TaintSet
taints = (record { labels = disputed ∷ assumption ∷ [] }) ∷ (record { labels = disputed ∷ [] }) ∷ []

taint_run : to_list (propagate_taint taints) ≡ "assumption" ∷ "disputed" ∷ []
unfolding to_list propagate_taint union merge_labels value runs
taint_run = refl

propagate_taint_iff_example :
    ("disputed" ∈ to_list (propagate_taint taints))
    ↔ ((t : TaintSet) × Memᴰ t taints × ("disputed" ∈ to_list t))
propagate_taint_iff_example = propagate_taint_iff taints "disputed"

-- A `lower` that leaves the statuses as they are.
abbrev same_case : String → String
same_case status = status

abbrev first_statuses : List String
first_statuses = "hypothetical" ∷ []

abbrev more_statuses : List String
more_statuses = "missing_required_fact" ∷ []

status_run :
    to_list (taint_from_statuses same_case (first_statuses ++ more_statuses))
    ≡ "assumption" ∷ "unknown" ∷ []
unfolding to_list taint_from_statuses labels_of status_labels label_when value runs
status_run = refl

taint_from_statuses_iff_example :
    ("unknown" ∈ to_list (taint_from_statuses same_case more_statuses))
    ↔ ((status : String) × (status ∈ more_statuses) × Gives (same_case status) "unknown")
taint_from_statuses_iff_example = taint_from_statuses_iff same_case more_statuses "unknown"
