-- ===== src/Horn/Delta.antt =====
-- Add-only deltas: the fast path against the recomputation of the child subject.
use juris_calculus.Prelude.{
  Key, ◌≡◌, sym, subst, ap, ◌∙◌, ◌↔◌, true, not, List, ◌++◌, some, arith, ◌∈◌, ◌⊆◌, dedup,
  mem-dedup, sort, has-sort, set_eq_of, pair_key, list_key, string_key, ok, reject-eq-ok, >>=-eq-ok,
}
use juris_calculus.Horn.{
  Rule, HornSubject, HornDelta, Digest, Metrics, child_mismatch, admit_subject, build_subject,
  validate_add_only_delta, extend_subject, add_only_child, horn_closure, incremental_horn_closure,
  same_closure,
}
use juris_calculus.Horn.Full.{Derives, fact, rule, horn_closure-Derives}
use juris_calculus.Horn.Loop.{incremental_horn_closure-Derives}

module _ {ℓ} {A : Type ℓ} ⦃k : Key A⦄ where
  Derives-mono :
      {facts facts' : List A} {rules rules' : List (Rule A)} {a : A}
      → facts ⊆ facts'
      → ((r : Rule A) → r ∈ rules → r ∈ rules')
      → Derives facts rules a
      → Derives facts' rules' a
  Derives-mono f g (fact m) = fact (f _ m)
  Derives-mono f g (rule body m h) = rule body (g _ m) (λ x i. Derives-mono f g (h x i))

  -- The closure of a subject is one set.
  pub same_closure_self :
      (s : HornSubject A) → same_closure (horn_closure s) (horn_closure s) ≡ true
  unfolding same_closure
  same_closure_self s =
      let (t, e, _) = horn_closure-Derives s in
      rw (e, same_closure) (set_eq_of t t (λ a m. m) (λ a m. m))

  module _ (hash : Digest A) (parent : HornSubject A) (delta : HornDelta A)
      (added_rules : List (Rule A)) where
    admit_fields : (s child : HornSubject A) → admit_subject hash s ≡ ok child → s ≡ child
    unfolding admit_subject
    admit_fields s child h = ground arith

    child_fields :
        (child : HornSubject A)
        → add_only_child hash parent delta added_rules ≡ ok child
        → (child.facts ≡ dedup (parent.facts ++ delta.added_facts))
          × (child.rules ≡ sort (parent.rules ++ added_rules))
    unfolding add_only_child extend_subject build_subject
    child_fields child h =
        let (_, _, rest) = >>=-eq-ok (validate_add_only_delta hash parent delta added_rules) _ h in
        let (built, e, rest') = >>=-eq-ok (extend_subject hash parent delta added_rules) _ rest in
        let (_, done) =
          reject-eq-ok (not (string_key.beq built.subject_digest delta.child_subject_digest))
            child_mismatch built rest' in
        let same = admit_fields _ built e ∙ done in
        (
          sym (ap (λ (s : HornSubject A). s.facts) same),
          sym (ap (λ (s : HornSubject A). s.rules) same),
        )

    -- For a delta that is admitted, the worklist closure over the parent's closure and the full
    -- recomputation of the child both return, and they hold the same atoms.
    pub incremental_horn_closure-eq-horn_closure :
        (child : HornSubject A) (parent_closure : List A)
        → horn_closure parent ≡ some parent_closure
        → add_only_child hash parent delta added_rules ≡ ok child
        → (fast : List A) × (metrics : Metrics) × (full : List A) × (incremental_horn_closure
              parent_closure parent.rules delta.added_facts added_rules
            ≡ some (fast, metrics))
          × (horn_closure child ≡ some full)
          × ((a : A) → (a ∈ fast) ↔ (a ∈ full))
    incremental_horn_closure-eq-horn_closure child parent_closure e h =
        let (p, f, exact) = horn_closure-Derives parent in
        let same : p ≡ parent_closure = cc (sym f ∙ e) in
        let (fast, metrics, g, fast_exact) =
          incremental_horn_closure-Derives parent.facts parent.rules parent_closure
            delta.added_facts added_rules
            (subst (λ t. (a : A) → (a ∈ t) ↔ Derives parent.facts parent.rules a) same exact) in
        let (full, i, full_exact) = horn_closure-Derives child in
        let (facts_eq, rules_eq) = child_fields child h in
        (
          fast,
          metrics,
          full,
          g,
          i,
          λ a. (
            λ m. (full_exact a).1 (
                Derives-mono (λ x j. subst (λ s. x ∈ s) (sym facts_eq) ((mem-dedup x _).1 j))
                  (λ r j. subst (λ s. r ∈ s) (sym rules_eq) (rw has-sort j)) ((fast_exact a).0 m)),
            λ m. (fast_exact a).1 (
                Derives-mono (λ x j. (mem-dedup x _).0 (subst (λ s. x ∈ s) facts_eq j))
                  (λ r j. sorted_mem r (subst (λ s. r ∈ s) rules_eq j)) ((full_exact a).0 m)),
          ),
        )
      where
        sorted_mem :
            (r : Rule A)
            → r ∈ sort (parent.rules ++ added_rules)
            → r ∈ (parent.rules ++ added_rules)
        sorted_mem r j = rw has-sort at j
