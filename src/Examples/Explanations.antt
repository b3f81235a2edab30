-- ===== src/Examples/Explanations.antt =====
-- Runs of the reasons for the labels.
use juris_calculus.Prelude.{
  ◌≡◌, ◌↔◌, refl, true, false, List, [], ◌∷◌, none, some, String, string_key, pair_key, has, lookup,
  dedup, runs, ◌∈◌,
}
use juris_calculus.Grounded.{
  GroundedResult, grounded_extension, iteration_limit, iterate, defended_by, is_defended,
  rejected_of, attackers_of,
}
use juris_calculus.Grounded.Step.{Attacks}
use juris_calculus.Reasons.{
  LabelReason, in_label, undec_label, attackers_defeated, part_of_cycle, depends_on_undecided,
  scc_nodes, scc_id_of, is_cyclic, find_cycles, scc_of, defenders_of, in_reason, undec_reason,
  label_reason, label_reasons,
}
use juris_calculus.Reasons.Explained.{Explained, label_reasons-Explained, label_reasons-defends}
use juris_calculus.Reasons.Trace.{
  Round, last, replay, given_or_grounded, proof_trace, proof_trace-last,
}

-- Argument a defends c against b, d and e attack one another, and e attacks f.
abbrev claims : List String
claims = "a" ∷ "b" ∷ "c" ∷ "d" ∷ "e" ∷ "f" ∷ []

abbrev attacks : List (String × String)
attacks = ("a", "b") ∷ ("b", "c") ∷ ("d", "e") ∷ ("e", "d") ∷ ("e", "f") ∷ []

abbrev components : List (List String)
components = ("d" ∷ "e" ∷ []) ∷ ("f" ∷ []) ∷ ("a" ∷ []) ∷ ("b" ∷ []) ∷ ("c" ∷ []) ∷ []

abbrev result : GroundedResult String
result = record {
  accepted = "a" ∷ "c" ∷ [];
  rejected = "b" ∷ [];
  undecided = "d" ∷ "e" ∷ "f" ∷ [];
  iterations = 3;
  derived_bound = 7;
  convergent = true;
  truncated = false;
}

grounded_run : grounded_extension claims attacks none ≡ result
unfolding grounded_extension iteration_limit iterate defended_by is_defended rejected_of
    attackers_of runs
grounded_run = refl

in_run :
    lookup "c" (label_reasons claims attacks result components)
    ≡ some (record { label = in_label; reason = attackers_defeated; witnesses = "a" ∷ [] })
unfolding label_reasons label_reason in_reason defenders_of attackers_of runs
in_run = refl

cycle_run :
    lookup "e" (label_reasons claims attacks result components)
    ≡ some (record {
      label = undec_label;
      reason = part_of_cycle (some 0);
      witnesses = "d" ∷ "e" ∷ [];
    })
unfolding label_reasons label_reason undec_reason is_cyclic scc_nodes scc_id_of scc_of attackers_of
    runs
cycle_run = refl

dependent_run :
    lookup "f" (label_reasons claims attacks result components)
    ≡ some (record { label = undec_label; reason = depends_on_undecided; witnesses = "e" ∷ [] })
unfolding label_reasons label_reason undec_reason is_cyclic scc_nodes scc_id_of scc_of attackers_of
    runs
dependent_run = refl

find_run : find_cycles attacks components ≡ ("d" ∷ "e" ∷ []) ∷ []
unfolding find_cycles is_cyclic runs
find_run = refl

abbrev undecided_argument : String
undecided_argument = "f"

is_argument : undecided_argument ∈ claims
unfolding has
is_argument = refl

label_reasons-Explained_example :
    (r : LabelReason String) × (lookup undecided_argument
        (label_reasons claims attacks result components)
      ≡ some r)
    × Explained (dedup claims) attacks components result undecided_argument r
label_reasons-Explained_example =
    label_reasons-Explained claims attacks components result undecided_argument is_argument

abbrev defended_argument : String
defended_argument = "c"

is_accepted : defended_argument ∈ (grounded_extension claims attacks none).accepted
unfolding grounded_extension iteration_limit iterate defended_by is_defended rejected_of
    attackers_of runs
is_accepted = refl

label_reasons-defends_example :
    (r : LabelReason String) × (lookup defended_argument
        (label_reasons claims attacks (grounded_extension claims attacks none) components)
      ≡ some r)
    × (r.label ≡ in_label)
    × ((a : String)
        → Attacks claims attacks a defended_argument
        → (w : String) × (w ∈ r.witnesses) × Attacks claims attacks w a)
label_reasons-defends_example =
    label_reasons-defends claims attacks components none defended_argument is_accepted

last_run :
    last (proof_trace claims attacks none components).iteration_history
    ≡ some (record { iteration = 3; accepted = "a" ∷ "c" ∷ []; defended = "a" ∷ "c" ∷ [] })
unfolding last proof_trace given_or_grounded replay grounded_extension iteration_limit iterate
    defended_by is_defended rejected_of attackers_of runs
last_run = refl

proof_trace-last_example :
    (r : Round String) × (last (proof_trace claims attacks none components).iteration_history
      ≡ some r)
    × (r.accepted ≡ (proof_trace claims attacks none components).accepted)
    × (r.iteration ≡ (grounded_extension claims attacks none).iterations)
    × ((a : String) → (a ∈ r.defended) ↔ (a ∈ r.accepted))
proof_trace-last_example = proof_trace-last claims attacks components
