-- ===== src/Examples/Completions.antt =====
-- Runs of the trust label.
use juris_calculus.Prelude.{◌≡◌, refl, ◌↔◌, true, [], none, some, String, runs}
use juris_calculus.Completion.{
  StageResult, complete, truncated, is_complete, definitive_label, trust_label_map, failure_label,
  certified_label, no_uncertainty_upgrade, first_failure, compute_trust_label,
}
use juris_calculus.Completion.Labels.{AllComplete, compute_trust_label-definitive}

abbrev finished : StageResult String String
finished = record {
  status = complete;
  value = some "v";
  certificate = none;
  assumptions = [];
  limitations = [];
  input_digest = "";
  producer_version = "v1";
}

abbrev cut_short : StageResult String String
cut_short = record finished { status = truncated; value = none }

label_run : compute_trust_label finished cut_short finished true ≡ some "INCOMPLETE_REASONING"
unfolding compute_trust_label certified_label first_failure failure_label trust_label_map
    is_complete no_uncertainty_upgrade runs
label_run = refl

compute_trust_label-definitive_example :
    (label : String) × (compute_trust_label finished finished cut_short true ≡ some label)
    × ((label ≡ definitive_label) ↔ (AllComplete finished finished cut_short × (true ≡ true)))
compute_trust_label-definitive_example =
    compute_trust_label-definitive finished finished cut_short true
