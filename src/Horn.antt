-- ===== src/Horn.antt =====
-- Incremental Horn reasoning: compiler_core/incremental.py.
-- A rule is its head and its body. The digest of a canonical subject (`digest_value`, a hash of the
-- canonical serialization) is a parameter, of which no law is used. The `while` loops take fuel;
-- `Horn/Full` and `Horn/Loop` show that it is enough.
pub mod Full
pub mod Handles
pub mod Loop
pub mod Delta
pub mod Accepts
pub mod Changes
use juris_calculus.Prelude.{
  Key, ℕ, zero, suc, ◌+◌, ◌-◌, Bool, true, false, not, ◌&&◌, ◌||◌, List, [], ◌∷◌, ◌++◌, Option,
  none, some, String, map, if◌then◌else◌, length, is_empty, filter, all, any, has, add, dedup,
  subset, set_eq, meets, diff, sort, pair_key, list_key, string_key, Result, ok, err, ◌>>=◌, ◌>>◌,
  reject_if,
}

abbrev pub Rule {ℓ} : Type ℓ → Type ℓ
Rule A = A × List A

pub data HornError : Type 0 where
  universe_escape subject_digest_mismatch parent_mismatch universe_growth : HornError
  delta_redelivery child_mismatch empirical_absence_unrecorded empirical_state : HornError

pub record HornSubject {ℓ} (A : Type ℓ) : Type ℓ where
  pub universe : List A
  pub facts : List A
  pub rules : List (Rule A)
  pub subject_digest : String

pub record HornDelta {ℓ} (A : Type ℓ) : Type ℓ where
  pub parent_subject_digest : String
  pub child_subject_digest : String
  pub added_facts : List A

module _ {ℓ} {A : Type ℓ} ⦃k : Key A⦄ where
  -- One rule of the `for` loop, on the derived atoms and the flag `changed`.
  unfoldable pub fire : Rule A → List A × Bool → List A × Bool
  fire (head, body) (derived, changed) =
      if has head derived
      then (derived, changed)
      else if all (λ atom. has atom derived) body
      then (add head derived, true)
      else (derived, changed)

  unfoldable pub scan : List (Rule A) → List A × Bool → List A × Bool
  scan [] state = state
  scan (rule ∷ rest) state = scan rest (fire rule state)

  unfoldable pub closure_loop : List (Rule A) → ℕ → List A → Option (List A)
  closure_loop rules zero derived = none
  closure_loop rules (suc fuel) derived =
      let after = scan rules (derived, false) in
      let rest = closure_loop rules fuel after.0 in if after.1 then rest else some after.0

  unfoldable pub horn_closure : HornSubject A → Option (List A)
  horn_closure subject = closure_loop subject.rules (length subject.rules + 1) (dedup subject.facts)

  -- The same loop with its counters.
  unfoldable pub fire_counted : Rule A → List A × Bool × ℕ → List A × Bool × ℕ
  fire_counted (head, body) (derived, changed, evaluations) =
      if has head derived
      then (derived, changed, evaluations)
      else if all (λ atom. has atom derived) body
      then (add head derived, true, evaluations + 1)
      else (derived, changed, evaluations + 1)

  unfoldable pub scan_counted : List (Rule A) → List A × Bool × ℕ → List A × Bool × ℕ
  scan_counted [] state = state
  scan_counted (rule ∷ rest) state = scan_counted rest (fire_counted rule state)

  -- The derived atoms, `rule_evaluations` and `iterations`.
  unfoldable pub closure_loop_counted : List (Rule A) → ℕ → List A → ℕ → ℕ → Option (List A × ℕ × ℕ)
  closure_loop_counted rules zero derived evaluations iterations = none
  closure_loop_counted rules (suc fuel) derived evaluations iterations =
      let after = scan_counted rules (derived, false, evaluations) in
      let rest = closure_loop_counted rules fuel after.0 after.2 (iterations + 1) in
      if after.1 then rest else some (after.0, after.2, iterations + 1)

  unfoldable pub horn_closure_with_metrics : HornSubject A → Option (List A × ℕ × ℕ)
  horn_closure_with_metrics subject =
      closure_loop_counted subject.rules (length subject.rules + 1) (dedup subject.facts) 0 0

-- The variables of the worklist loop.
pub record Work {ℓ} (A : Type ℓ) : Type ℓ where
  pub known : List A
  pub queue : List A
  pub enqueued : List A
  pub new_rules : List (Rule A)
  pub evaluations : ℕ
  pub fired : List A

pub record Metrics : Type 0 where
  pub rule_evaluations : ℕ
  pub rules_fired : ℕ
  pub propagated_atoms : ℕ

module _ {ℓ} {A : Type ℓ} ⦃k : Key A⦄ where
  unfoldable pub derive : A → Work A → Work A
  derive head w =
      let seen = has head w.enqueued in
      record {
        known = add head w.known;
        queue = if seen then w.queue else w.queue ++ head ∷ [];
        enqueued = if seen then w.enqueued else head ∷ w.enqueued;
        new_rules = w.new_rules;
        evaluations = w.evaluations;
        fired = w.fired ++ head ∷ [];
      }

  unfoldable pub count_evaluation : Work A → Work A
  count_evaluation w = record w { evaluations = w.evaluations + 1 }

  -- A new rule is evaluated once, whatever is known.
  unfoldable pub evaluate_new : Rule A → Work A → Work A
  evaluate_new (head, body) w =
      let counted = count_evaluation w in
      if not (has head w.known) && all (λ atom. has atom w.known) body
      then derive head counted
      else counted

  -- A rule of the premise index is passed over when its head is known.
  unfoldable pub evaluate_premise : Rule A → Work A → Work A
  evaluate_premise (head, body) w =
      let counted = count_evaluation w in
      if has head w.known
      then w
      else if all (λ atom. has atom w.known) body
      then derive head counted
      else counted

  unfoldable pub evaluate_premises : List (Rule A) → Work A → Work A
  evaluate_premises [] w = w
  evaluate_premises (rule ∷ rest) w = evaluate_premises rest (evaluate_premise rule w)

  -- `premise_index.get(atom, ())`, as the rules themselves.
  unfoldable pub premise_rules : List (Rule A) → A → List (Rule A)
  premise_rules rules atom = filter (λ rule. has atom rule.1) rules

  -- One round of `while queue or new_rule_queue`; `none` when the loop ends.
  unfoldable pub work_step : List (Rule A) → Work A → Option (Work A)
  work_step rules w = elim w.new_rules [
    | rule ∷ rest ↦ some (evaluate_new rule (record w { new_rules = rest }))
    | [] ↦ elim w.queue [
      | [] ↦ none
      | atom ∷ rest ↦
          some (evaluate_premises (premise_rules rules atom) (record w { queue = rest }))
    ]
  ]

  unfoldable pub work_loop : List (Rule A) → ℕ → Work A → Option (Work A)
  work_loop rules zero w = none
  work_loop rules (suc fuel) w = elim (work_step rules w) [
    | none ↦ some w
    | some w' ↦ work_loop rules fuel w'
  ]

  unfoldable pub start_work : List A → List (Rule A) → List A → Work A
  start_work parent_closure added_rules added_facts = record {
    known = dedup (parent_closure ++ added_facts);
    queue = sort (dedup added_facts);
    enqueued = dedup added_facts;
    new_rules = added_rules;
    evaluations = 0;
    fired = [];
  }

  unfoldable pub metrics_of : Work A → List A → Metrics
  metrics_of w first_known = record {
    rule_evaluations = w.evaluations;
    rules_fired = length w.fired;
    propagated_atoms = length w.known - length first_known;
  }

  unfoldable pub incremental_horn_closure :
      List A → List (Rule A) → List A → List (Rule A) → Option (List A × Metrics)
  incremental_horn_closure parent_closure parent_rules added_facts added_rules =
      let rules = parent_rules ++ added_rules in
      let start = start_work parent_closure added_rules added_facts in
      let fuel = length added_rules + length start.queue + length rules + 1 in
      elim (work_loop rules fuel start) [
        | none ↦ none
        | some w ↦ some (w.known, metrics_of w (dedup (parent_closure ++ added_facts)))
      ]

-- `digest_value` of the canonical object of a subject.
pub record Digest {ℓ} (A : Type ℓ) : Type ℓ where
  pub digest_value : List A → List A → List (Rule A) → String

module _ {ℓ} {A : Type ℓ} ⦃k : Key A⦄ where
  -- `horn_closure(child) == horn_closure(extended)`; both calls return, see `Horn/Full`.
  unfoldable pub same_closure : Option (List A) → Option (List A) → Bool
  same_closure (some xs) (some ys) = set_eq xs ys
  same_closure _ _ = false

module _ {ℓ} {A : Type ℓ} ⦃k : Key A⦄ (hash : Digest A) where
  unfoldable pub subject_digest_of : List A → List A → List (Rule A) → String
  subject_digest_of universe facts rules =
      hash.digest_value (sort universe) (sort facts) (map (λ r. (r.0, sort r.1)) (sort rules))

  -- `HornSubjectV5.__post_init__`: the bodies are not looked at.
  unfoldable pub admit_subject : HornSubject A → Result HornError (HornSubject A)
  admit_subject s = do
    reject_if (not (is_empty (diff (s.facts ++ map (λ r. r.0) s.rules) s.universe))) universe_escape
    reject_if (not (string_key.beq s.subject_digest (subject_digest_of s.universe s.facts s.rules)))
        subject_digest_mismatch
    ok s

  unfoldable pub build_subject : List A → List A → List (Rule A) → Result HornError (HornSubject A)
  build_subject universe facts rules = admit_subject (record {
    universe = universe;
    facts = facts;
    rules = sort rules;
    subject_digest = subject_digest_of universe facts (sort rules);
  })

  unfoldable pub rule_outside : List A → Rule A → Bool
  rule_outside universe (head, body) =
      not (has head universe) || any (λ atom. not (has atom universe)) body

  unfoldable pub validate_add_only_delta :
      HornSubject A → HornDelta A → List (Rule A) → Result HornError (Unit {0})
  validate_add_only_delta parent delta added_rules = do
    reject_if (not (string_key.beq parent.subject_digest delta.parent_subject_digest))
        parent_mismatch
    reject_if (not (subset delta.added_facts parent.universe)) universe_growth
    reject_if (meets delta.added_facts parent.facts) delta_redelivery
    reject_if (any (rule_outside parent.universe) added_rules) universe_growth
    reject_if
        (meets (parent.facts ++ map (λ r. r.0) parent.rules) (map (λ r. r.0) added_rules)
          && meets added_rules parent.rules)
        delta_redelivery
    ok tt

  unfoldable pub extend_subject :
      HornSubject A → HornDelta A → List (Rule A) → Result HornError (HornSubject A)
  extend_subject parent delta added_rules =
      build_subject parent.universe (dedup (parent.facts ++ delta.added_facts))
        (parent.rules ++ added_rules)

  unfoldable pub add_only_child :
      HornSubject A → HornDelta A → List (Rule A) → Result HornError (HornSubject A)
  add_only_child parent delta added_rules = do
    validate_add_only_delta parent delta added_rules
    child ← extend_subject parent delta added_rules
    reject_if (not (string_key.beq child.subject_digest delta.child_subject_digest)) child_mismatch
    ok child

  unfoldable pub incremental_matches_full_recompute :
      HornSubject A → HornDelta A → List (Rule A) → Result HornError Bool
  incremental_matches_full_recompute parent delta added_rules = do
    child ← add_only_child parent delta added_rules
    extended ← extend_subject parent delta added_rules
    ok (same_closure (horn_closure child) (horn_closure extended))
