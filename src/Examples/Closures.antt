-- ===== src/Examples/Closures.antt =====
-- Runs of the Horn closures.
use juris_calculus.Prelude.{
  none, false, ◌≡◌, refl, ◌↔◌, true, List, [], ◌∷◌, ◌++◌, some, String, string_key, pair_key,
  list_key, ◌∈◌, runs, ok,
}
use juris_calculus.Horn.{
  Rule, HornSubject, HornDelta, Digest, Metrics, fire, scan, closure_loop, horn_closure, derive,
  count_evaluation, evaluate_new, evaluate_premise, evaluate_premises, premise_rules, work_step,
  work_loop, start_work, metrics_of, incremental_horn_closure, subject_digest_of, admit_subject,
  build_subject, rule_outside, validate_add_only_delta, extend_subject, add_only_child,
  same_closure, incremental_matches_full_recompute,
}
use juris_calculus.Horn.Full.{Derives, horn_closure-Derives}
use juris_calculus.Horn.Loop.{incremental_horn_closure-Derives}
use juris_calculus.Horn.Accepts.{Accepts, incremental_matches_full_recompute-Accepts}
use juris_calculus.Horn.Delta.{incremental_horn_closure-eq-horn_closure}
use juris_calculus.Horn.Changes.{
  Changes, reason, requires_full_recompute, is_recorded, is_absent, admit_estimate,
  attach_empirical,
}

-- A stand-in for the digest, which tells the two subjects apart by their last fact.
last_fact : List String → String
last_fact [] = "none"
last_fact (a ∷ []) = a
last_fact (a ∷ rest) = last_fact rest

abbrev hash : Digest String
unfolding last_fact
hash = record { digest_value = λ universe facts rules. last_fact facts }

abbrev parent : HornSubject String
parent = record {
  universe = "a" ∷ "b" ∷ "c" ∷ "d" ∷ [];
  facts = "a" ∷ [];
  rules = ("b", "a" ∷ []) ∷ [];
  subject_digest = "a";
}

abbrev delta : HornDelta String
delta = record { parent_subject_digest = "a"; child_subject_digest = "c"; added_facts = "c" ∷ [] }

abbrev added_rules : List (Rule String)
added_rules = ("d", "b" ∷ "c" ∷ []) ∷ []

abbrev child : HornSubject String
child = record {
  universe = "a" ∷ "b" ∷ "c" ∷ "d" ∷ [];
  facts = "a" ∷ "c" ∷ [];
  rules = ("b", "a" ∷ []) ∷ ("d", "b" ∷ "c" ∷ []) ∷ [];
  subject_digest = "c";
}

parent_run : horn_closure parent ≡ some ("b" ∷ "a" ∷ [])
unfolding horn_closure closure_loop scan fire runs
parent_run = refl

child_run : add_only_child hash parent delta added_rules ≡ ok child
unfolding add_only_child validate_add_only_delta extend_subject build_subject admit_subject
    subject_digest_of rule_outside last_fact runs
child_run = refl

incremental_run :
    incremental_horn_closure ("b" ∷ "a" ∷ []) parent.rules ("c" ∷ []) added_rules
    ≡ some (
      "d" ∷ "b" ∷ "a" ∷ "c" ∷ [],
      record { rule_evaluations = 1; rules_fired = 1; propagated_atoms = 1 },
    )
unfolding incremental_horn_closure start_work work_loop work_step evaluate_new evaluate_premises
    evaluate_premise premise_rules derive count_evaluation metrics_of runs
incremental_run = refl

horn_closure-Derives_example :
    (t : List String) × (horn_closure child ≡ some t)
    × ((a : String) → (a ∈ t) ↔ Derives child.facts child.rules a)
horn_closure-Derives_example = horn_closure-Derives child

parent_exact : (a : String) → (a ∈ ("b" ∷ "a" ∷ [])) ↔ Derives ("a" ∷ []) parent.rules a
parent_exact =
    let (t, e, exact) = horn_closure-Derives parent in
    let same : t ≡ "b" ∷ "a" ∷ [] = cc (e, parent_run) in rw same at exact

incremental_horn_closure-Derives_example :
    (t : List String) × (metrics : Metrics) × (incremental_horn_closure
        ("b" ∷ "a" ∷ [])
        parent.rules
        ("c" ∷ [])
        added_rules
      ≡ some (t, metrics))
    × ((a : String) → (a ∈ t) ↔ Derives (("a" ∷ []) ++ "c" ∷ []) (parent.rules ++ added_rules) a)
incremental_horn_closure-Derives_example =
    incremental_horn_closure-Derives ("a" ∷ []) parent.rules ("b" ∷ "a" ∷ []) ("c" ∷ []) added_rules
      parent_exact

incremental_horn_closure-eq-horn_closure_example :
    (fast : List String) × (metrics : Metrics) × (full : List String) × (incremental_horn_closure
        ("b" ∷ "a" ∷ [])
        parent.rules
        delta.added_facts
        added_rules
      ≡ some (fast, metrics))
    × (horn_closure child ≡ some full)
    × ((a : String) → (a ∈ fast) ↔ (a ∈ full))
incremental_horn_closure-eq-horn_closure_example =
    incremental_horn_closure-eq-horn_closure hash parent delta added_rules child ("b" ∷ "a" ∷ [])
      parent_run child_run

matches_run : incremental_matches_full_recompute hash parent delta added_rules ≡ ok true
unfolding incremental_matches_full_recompute add_only_child validate_add_only_delta extend_subject
    build_subject admit_subject subject_digest_of rule_outside last_fact same_closure horn_closure
    closure_loop scan fire runs
matches_run = refl

incremental_matches_full_recompute-Accepts_example :
    ((incremental_matches_full_recompute hash parent delta added_rules ≡ ok true)
      ↔ Accepts hash parent delta added_rules)
    × (¬ (incremental_matches_full_recompute hash parent delta added_rules ≡ ok false))
incremental_matches_full_recompute-Accepts_example =
    incremental_matches_full_recompute-Accepts hash parent delta added_rules

abbrev two_changes : Changes
two_changes = record {
  deleted_facts = "a" ∷ [];
  revoked_attestations = [];
  rule_rewrites = [];
  profile_changed = true;
  mapping_changed = false;
  assumptions_changed = false;
  universe_growth = [];
}

changes_run : requires_full_recompute two_changes ≡ "fact_deletion" ∷ "profile_change" ∷ []
unfolding requires_full_recompute reason
changes_run = refl

attach_run :
    attach_empirical {R = String} "d" none none
    ≡ ok (record {
      normative_subject_digest = "d";
      result = none;
      absent_reason = some "no-verified-empirical-model";
    })
unfolding attach_empirical admit_estimate is_recorded is_absent
attach_run = refl
