-- ===== src/Horn/Accepts.antt =====
-- Which deltas `incremental_matches_full_recompute` accepts.
use juris_calculus.Prelude.{
  Key, ◌≡◌, refl, sym, subst, ap, ◌∙◌, ◌↔◌, inl, inr, Bool, true, false, not, ◌&&◌, Bool-cases,
  List, [], ◌∷◌, ◌++◌, map, string_key, pair_key, list_key, is_empty, nil_of_is_empty, has, ◌∈◌,
  ◌⊆◌, any, any_at, any_of, subset_at, subset_of, dedup, mem-dedup, sort, has-sort, diff, mem-diff,
  mem-diff_of, subset, meets, meets_at, meets_of, mem_cases, mem_head, mem_tail, mem-append,
  mem-append_left, mem-append_right, not_mem_nil, not_of_false, false_of_not, ok, ok-injective,
  >>=-eq-ok, reject-then, arith,
}
use juris_calculus.Horn.{
  Rule, HornSubject, HornDelta, Digest, universe_escape, subject_digest_mismatch, parent_mismatch,
  universe_growth, delta_redelivery, child_mismatch, subject_digest_of, admit_subject,
  build_subject, rule_outside, validate_add_only_delta, extend_subject, add_only_child,
  horn_closure, same_closure, incremental_matches_full_recompute,
}
use juris_calculus.Horn.Delta.{same_closure_self}

module _ {ℓ} {A : Type ℓ} ⦃k : Key A⦄ where
  abbrev heads : List (Rule A) → List A
  heads rules = map (λ (r : Rule A). r.0) rules

  mem-heads :
      (rules : List (Rule A)) (head : A) (body : List A) → (head, body) ∈ rules → head ∈ heads rules
  mem-heads [] head body m = absurd (not_mem_nil (head, body) m)
  mem-heads (r ∷ rest) head body m = elim (mem_cases (head, body) r rest m) [
    | inl same ↦
        subst (λ (x : A). x ∈ heads (r ∷ rest)) (sym (ap (λ (q : Rule A). q.0) same))
          (mem_head r.0 (heads rest))
    | inr later ↦ mem_tail head r.0 (heads rest) (mem-heads rest head body later)
  ]

  heads-mem :
      (rules : List (Rule A)) (head : A)
      → head ∈ heads rules
      → (body : List A) × ((head, body) ∈ rules)
  heads-mem [] head m = absurd (not_mem_nil head m)
  heads-mem (r ∷ rest) head m = elim (mem_cases head r.0 (heads rest) m) [
    | inl same ↦ (r.1, subst (λ (x : A). (x, r.1) ∈ (r ∷ rest)) (sym same) (mem_head r rest))
    | inr later ↦
        let (body, i) = heads-mem rest head later in (body, mem_tail (head, body) r rest i)
  ]

  apart_iff : (xs ys : List A) → (meets xs ys ≡ false) ↔ ((b : A) → b ∈ xs → has b ys ≡ false)
  apart_iff xs ys = (
    λ e b m. false_of_not (λ i. not_of_false e (meets_of xs ys b m i)),
    λ f. false_of_not (λ t. let (b, m, i) = meets_at xs ys t in not_of_false (f b m) i),
  )

  none_iff : (p : A → Bool) (xs : List A) → (any p xs ≡ false) ↔ ((b : A) → b ∈ xs → p b ≡ false)
  none_iff p xs = (
    λ e b m. false_of_not (λ t. not_of_false e (any_of p xs b m t)),
    λ f. false_of_not (λ t. let (b, m, u) = any_at p xs t in not_of_false (f b m) u),
  )

  empty_of : (xs : List A) → ((a : A) → ¬ (a ∈ xs)) → is_empty xs ≡ true
  empty_of [] f = refl
  empty_of (x ∷ xs) f = absurd (f x (mem_head x xs))

module _ {ℓ} {A : Type ℓ} ⦃k : Key A⦄ (hash : Digest A) (parent : HornSubject A)
    (delta : HornDelta A) (added_rules : List (Rule A)) where
  abbrev child_facts : List A
  child_facts = dedup (parent.facts ++ delta.added_facts)

  abbrev child_rules : List (Rule A)
  child_rules = sort (parent.rules ++ added_rules)

  -- An add-only delta of the parent.
  pub record Accepts : Type ℓ where
    pub binds_parent : parent.subject_digest ≡ delta.parent_subject_digest
    pub facts_inside : delta.added_facts ⊆ parent.universe
    pub facts_new : (a : A) → a ∈ delta.added_facts → has a parent.facts ≡ false
    pub rules_inside :
        (head : A) (body : List A)
        → (head, body) ∈ added_rules
        → (head ∈ parent.universe) × (body ⊆ parent.universe)
    pub rules_new : (r : Rule A) → r ∈ added_rules → has r parent.rules ≡ false
    pub parent_facts_inside : parent.facts ⊆ parent.universe
    pub parent_heads_inside :
        (head : A) (body : List A) → (head, body) ∈ parent.rules → head ∈ parent.universe
    pub binds_child :
        subject_digest_of hash parent.universe child_facts child_rules ≡ delta.child_subject_digest

  abbrev child_subject : HornSubject A
  child_subject = record {
    universe = parent.universe;
    facts = child_facts;
    rules = child_rules;
    subject_digest = subject_digest_of hash parent.universe child_facts child_rules;
  }

  abbrev escapes : Bool
  escapes =
      not (is_empty (diff (child_facts ++ map (λ (r : Rule A). r.0) child_rules) parent.universe))

  abbrev repeats : Bool
  repeats =
      meets (parent.facts ++ heads parent.rules) (heads added_rules)
      && meets added_rules parent.rules

  -- The tests that raise, in the order of the code.
  record Passes : Type ℓ where
    pub same_parent : not (string_key.beq parent.subject_digest delta.parent_subject_digest) ≡ false
    pub inside : not (subset delta.added_facts parent.universe) ≡ false
    pub fresh : meets delta.added_facts parent.facts ≡ false
    pub rules_in : any (rule_outside hash parent.universe) added_rules ≡ false
    pub no_repeat : repeats ≡ false
    pub no_escape : escapes ≡ false
    pub same_child :
        not (string_key.beq child_subject.subject_digest delta.child_subject_digest) ≡ false

  extend-child :
      (s : HornSubject A)
      → extend_subject hash parent delta added_rules ≡ ok s
      → (escapes ≡ false) × (child_subject ≡ s)
  unfolding extend_subject build_subject admit_subject
  extend-child s h =
      let (inside, h1) = reject-then escapes universe_escape _ h in
      let (_, h2) =
        reject-then (not (string_key.beq child_subject.subject_digest child_subject.subject_digest))
          subject_digest_mismatch _ h1 in
      (inside, ok-injective h2)

  extend-ok : escapes ≡ false → extend_subject hash parent delta added_rules ≡ ok child_subject
  unfolding extend_subject build_subject admit_subject
  extend-ok e =
      rw (e, (string_key.beq_iff child_subject.subject_digest child_subject.subject_digest).1 refl)
        refl

  validated :
      (u : Unit {0})
      → validate_add_only_delta hash parent delta added_rules ≡ ok u
      → (not (string_key.beq parent.subject_digest delta.parent_subject_digest) ≡ false)
        × (not (subset delta.added_facts parent.universe) ≡ false)
        × (meets delta.added_facts parent.facts ≡ false)
        × (any (rule_outside hash parent.universe) added_rules ≡ false)
        × (repeats ≡ false)
  unfolding validate_add_only_delta
  validated u h =
      let (a, h1) =
        reject-then (not (string_key.beq parent.subject_digest delta.parent_subject_digest))
          parent_mismatch _ h in
      let (b, h2) =
        reject-then (not (subset delta.added_facts parent.universe)) universe_growth _ h1 in
      let (c, h3) = reject-then (meets delta.added_facts parent.facts) delta_redelivery _ h2 in
      let (d, h4) =
        reject-then (any (rule_outside hash parent.universe) added_rules) universe_growth _ h3 in
      let (e, _) = reject-then repeats delta_redelivery _ h4 in (a, b, c, d, e)

  passes_of :
      (b : Bool)
      → incremental_matches_full_recompute hash parent delta added_rules ≡ ok b
      → Passes × (b ≡ true)
  unfolding incremental_matches_full_recompute add_only_child
  passes_of b h =
      let (child, made, h1) = >>=-eq-ok (add_only_child hash parent delta added_rules) _ h in
      let (extended, again, h2) = >>=-eq-ok (extend_subject hash parent delta added_rules) _ h1 in
      let (u, valid, h3) =
        >>=-eq-ok (validate_add_only_delta hash parent delta added_rules) _ made in
      let (built, first, h4) = >>=-eq-ok (extend_subject hash parent delta added_rules) _ h3 in
      let (bound, h5) =
        reject-then (not (string_key.beq built.subject_digest delta.child_subject_digest))
          child_mismatch _ h4 in
      let (inside, same) = extend-child built first in
      let (v1, v2, v3, v4, v5) = validated u valid in
      let one : child ≡ extended = sym (ok-injective h5) ∙ ok-injective (sym first ∙ again) in
      (
        record {
          same_parent = v1;
          inside = v2;
          fresh = v3;
          rules_in = v4;
          no_repeat = v5;
          no_escape = inside;
          same_child =
              subst
                (λ (s : HornSubject A).
                  not (string_key.beq s.subject_digest delta.child_subject_digest) ≡ false)
                (sym same) bound;
        },
        sym (ok-injective h2)
            ∙ ap (λ s. same_closure (horn_closure child) (horn_closure s)) (sym one)
            ∙ same_closure_self child,
      )

  matches_of : Passes → incremental_matches_full_recompute hash parent delta added_rules ≡ ok true
  unfolding incremental_matches_full_recompute add_only_child validate_add_only_delta
  matches_of v =
      rw
        (
          v.same_parent,
          v.inside,
          v.fresh,
          v.rules_in,
          v.no_repeat,
          extend-ok v.no_escape,
          v.same_child,
          same_closure_self child_subject,
        )
        refl

  outside_iff :
      (head : A) (body : List A)
      → (rule_outside hash parent.universe (head, body) ≡ false)
        ↔ ((head ∈ parent.universe) × (body ⊆ parent.universe))
  unfolding rule_outside
  outside_iff head body =
      let (to, from) = none_iff (λ (atom : A). not (has atom parent.universe)) body in
      (
        λ e. (ground (arith, e), λ a m. ground (arith, to (ground (arith, e)) a m)),
        λ (i, f). rw (i, from (λ a m. rw (f a m) refl)) refl,
      )

  escapes_iff : (escapes ≡ false) ↔ ((child_facts ++ heads child_rules) ⊆ parent.universe)
  escapes_iff =
      let all_heads = child_facts ++ heads child_rules in
      (
        λ e a m. elim (Bool-cases (has a parent.universe)) [
          | inl i ↦ i
          | inr out ↦
              let empty = nil_of_is_empty (diff all_heads parent.universe) (ground (arith, e)) in
              absurd (
                not_mem_nil a
                  (subst (λ xs. a ∈ xs) empty (mem-diff_of a all_heads parent.universe m out)))
        ],
        λ f.
            rw
              (empty_of (diff all_heads parent.universe) (λ a m.
                let (i, out) = mem-diff a all_heads parent.universe m in not_of_false out (f a i)))
              refl,
      )

  Accepts-Passes : Accepts → Passes
  Accepts-Passes v = record {
    same_parent =
        rw ((string_key.beq_iff parent.subject_digest delta.parent_subject_digest).1 v.binds_parent)
          refl;
    inside = rw (subset_of delta.added_facts parent.universe v.facts_inside) refl;
    fresh = (apart_iff delta.added_facts parent.facts).1 v.facts_new;
    rules_in =
        (none_iff (rule_outside hash parent.universe) added_rules).1
          (λ (head, body) m. (outside_iff head body).1 (v.rules_inside head body m));
    no_repeat = ground (arith, (apart_iff added_rules parent.rules).1 v.rules_new);
    no_escape = escapes_iff.1 (λ a m. elim (mem-append a child_facts (heads child_rules) m) [
      | inl i ↦ elim (mem-append a parent.facts delta.added_facts ((mem-dedup a _).0 i)) [
        | inl old ↦ v.parent_facts_inside a old
        | inr new ↦ v.facts_inside a new
      ]
      | inr j ↦
          let (body, q) = heads-mem child_rules a j in
          elim (mem-append (a, body) parent.rules added_rules (rw has-sort at q)) [
            | inl old ↦ v.parent_heads_inside a body old
            | inr new ↦ (v.rules_inside a body new).0
          ]
    ]);
    same_child =
        rw
          ((string_key.beq_iff child_subject.subject_digest delta.child_subject_digest).1
            v.binds_child)
          refl;
  }

  Passes-Accepts : Passes → Accepts
  Passes-Accepts v =
      let within = escapes_iff.0 v.no_escape in
      let inside = (none_iff (rule_outside hash parent.universe) added_rules).0 v.rules_in in
      record {
        binds_parent =
            (string_key.beq_iff parent.subject_digest delta.parent_subject_digest).0
              (ground (arith, v.same_parent));
        facts_inside = subset_at delta.added_facts parent.universe (ground (arith, v.inside));
        facts_new = (apart_iff delta.added_facts parent.facts).0 v.fresh;
        rules_inside = λ head body m. (outside_iff head body).0 (inside (head, body) m);
        rules_new = λ r m. false_of_not (λ old. not_of_false v.no_repeat (
            rw
              (
                meets_of (parent.facts ++ heads parent.rules) (heads added_rules) r.0
                    (mem-append_right r.0 parent.facts (heads parent.rules)
                      (mem-heads parent.rules r.0 r.1 old))
                    (mem-heads added_rules r.0 r.1 m),
                meets_of added_rules parent.rules r m old,
              )
              refl));
        parent_facts_inside = λ a m. within a (
            mem-append_left a child_facts (heads child_rules)
              ((mem-dedup a _).1 (mem-append_left a parent.facts delta.added_facts m)));
        parent_heads_inside = λ head body m. within head (
            mem-append_right head child_facts (heads child_rules) (
              mem-heads child_rules head body
                (rw has-sort (mem-append_left (head, body) parent.rules added_rules m))));
        binds_child =
            (string_key.beq_iff child_subject.subject_digest delta.child_subject_digest).0
              (ground (arith, v.same_child));
      }

  -- The comparison returns `true` exactly for an add-only delta: it binds the parent by digest, adds
  -- only facts and rules that are new and inside the parent's universe, where the parent's facts and
  -- heads lie too, and binds the child that the union gives by digest. Any other delta raises: the
  -- comparison never returns `false`.
  pub incremental_matches_full_recompute-Accepts :
      ((incremental_matches_full_recompute hash parent delta added_rules ≡ ok true) ↔ Accepts)
      × (¬ (incremental_matches_full_recompute hash parent delta added_rules ≡ ok false))
  incremental_matches_full_recompute-Accepts = (
    (λ h. Passes-Accepts (passes_of true h).0, λ v. matches_of (Accepts-Passes v)),
    λ h. let (_, e) = passes_of false h in cc,
  )
