-- ===== src/Examples/Queries.antt =====
-- Runs of the query over a family, and of the branch keys.
use juris_calculus.Prelude.{
  ◌≡◌, ◌↔◌, refl, true, false, List, [], ◌∷◌, ◌⊆◌, String, string_key, has, runs, ok, err,
}
use juris_calculus.Profile.{stable, extensions_found, ProfileEvaluation}
use juris_calculus.Query.{
  QueryInput, QueryStatus, GateState, enterable, excluded, BranchIdentity, evaluate_query, gates_of,
  default_gates, enterable_extensions, is_enterable, witnessed, tally_branches, tally_branch,
  start_tally, is_partial, is_vacuous, witnessed_gate, supports, argument_refutes, refuters_of,
  is_gate_incomplete, gate_count, compose_branch_key, is_query_profile,
}
use juris_calculus.Query.Status.{IsStatus, evaluate_query-IsStatus}
use juris_calculus.Query.Keys.{compose_branch_key_canonical}

abbrev family : ProfileEvaluation String
family = record {
  profile = stable;
  kind = extensions_found;
  extensions = ("b" ∷ []) ∷ ("a" ∷ "c" ∷ []) ∷ [];
  open_obligations = [];
}

-- Argument a concludes the claim p, and argument b its refuter q.
abbrev query : QueryInput String String
query = record {
  query_id = "query";
  claim = "p";
  profile = stable;
  evaluation = family;
  argument_claims = ("a", "p") ∷ ("b", "q") ∷ ("c", "r") ∷ [];
  refutations = (record { refuter = "q"; target = "p" }) ∷ [];
  gates = [];
}

abbrev status : QueryStatus String
status = record {
  query_id = "query";
  profile = stable;
  common = false;
  possible = true;
  common_refuted = false;
  possibly_refuted = true;
  undecided_some = false;
  inconsistent_some = false;
  is_excluded_query = false;
  gate = enterable;
  acceptance_witnesses = "a" ∷ [];
  refutation_witnesses = "b" ∷ [];
}

query_run : evaluate_query query ≡ ok status
unfolding evaluate_query gates_of default_gates enterable_extensions is_enterable witnessed
    tally_branches tally_branch start_tally is_partial is_vacuous witnessed_gate supports
    argument_refutes refuters_of is_gate_incomplete runs
query_run = refl

-- With the first branch closed the claim is common.
abbrev closed : GateState
closed = record { branch_index = 0; state = excluded; reason = "premise" }

abbrev open_gate : GateState
open_gate = record { branch_index = 1; state = enterable; reason = "" }

gated_run :
    evaluate_query (record query { gates = closed ∷ open_gate ∷ [] })
    ≡ ok (record status { common = true; possibly_refuted = false; refutation_witnesses = [] })
unfolding evaluate_query gates_of default_gates enterable_extensions is_enterable witnessed
    tally_branches tally_branch start_tally is_partial is_vacuous witnessed_gate supports
    argument_refutes refuters_of is_gate_incomplete runs
gated_run = refl

count_run : evaluate_query (record query { gates = closed ∷ [] }) ≡ err gate_count
unfolding evaluate_query gates_of enterable_extensions is_enterable
count_run = refl

evaluate_query-IsStatus_example : IsStatus query status
evaluate_query-IsStatus_example = evaluate_query-IsStatus query status (λ e. cc) query_run

abbrev branch : BranchIdentity String
branch = record {
  scenario_id = "s";
  assumptions = "x" ∷ "y" ∷ [];
  profile = stable;
  extension = "a" ∷ "c" ∷ [];
}

branch_run : compose_branch_key "s" ("y" ∷ "x" ∷ "y" ∷ []) stable ("c" ∷ "a" ∷ []) ≡ ok branch
unfolding compose_branch_key is_query_profile runs
branch_run = refl

-- The same assumptions, and another extension.
abbrev scenario : String
scenario = "s"

abbrev assumed : List String
assumed = "y" ∷ "x" ∷ "y" ∷ []

abbrev assumed_sorted : List String
assumed_sorted = "x" ∷ "y" ∷ []

abbrev left_extension : List String
left_extension = "c" ∷ "a" ∷ []

abbrev right_extension : List String
right_extension = "b" ∷ []

abbrev right_branch : BranchIdentity String
right_branch = record branch { extension = "b" ∷ [] }

right_run : compose_branch_key scenario assumed_sorted stable right_extension ≡ ok right_branch
unfolding compose_branch_key is_query_profile runs
right_run = refl

compose_branch_key_canonical_example : (branch ≡ right_branch) ↔ (
    (scenario ≡ scenario)
    × (stable ≡ stable)
    × ((assumed ⊆ assumed_sorted) × (assumed_sorted ⊆ assumed))
    × ((left_extension ⊆ right_extension) × (right_extension ⊆ left_extension)))
unfolding has
compose_branch_key_canonical_example =
    compose_branch_key_canonical scenario scenario assumed assumed_sorted stable stable
      left_extension right_extension branch right_branch (refl, (refl, tt)) (refl, tt) branch_run
      right_run
