-- ===== src/Checker/Sound.antt =====
-- The label comparison of `check_grounded`.
use juris_calculus.Prelude.{
  Key, ◌≡◌, refl, sym, subst, ◌∙◌, ◌↔◌, true, List, [], ◌∷◌, ◌++◌, Option, none, some, arith,
  is_empty, ◌∈◌, dedup, mem-dedup, keys, lookup, keys-tabulate, inl, inr, concat_map,
  concat_map-nil_at, concat_map-nil_of, append-eq-nil, sort, has-sort, diff, mem-diff, mem-append,
  mem-append_left, mem-append_right, nil_of_not_mem, not_of_false, mem_of_lookup_some, string_key,
  pair_key,
}
use juris_calculus.Grounded.{grounded_extension, attackers_of, iteration_limit}
use juris_calculus.Grounded.Labels.{has-accepted, mem-rejected, mem-undecided}
use juris_calculus.Checker.{
  Label, accepted_label, rejected_label, undecided_label, other_label, label_eq, Violation,
  recompute_grounded, assign_label, compare_label, compare_labels,
}
use juris_calculus.Checker.Agree.{lookup-recompute_grounded, kernel_accepted}

pub label_eq_iff : (x y : Label) → (label_eq x y ≡ true) ↔ (x ≡ y)
unfolding label_eq
label_eq_iff accepted_label y = ground arith
label_eq_iff rejected_label y = ground arith
label_eq_iff undecided_label y = ground arith
label_eq_iff (other_label s) (other_label t) = ground (arith, string_key.beq_iff s t)
label_eq_iff (other_label s) y = ground arith

compare_label-nil {ℓ} :
    {A : Type ℓ} (a : A) (expected actual : Option Label)
    → compare_label a expected actual ≡ []
    → (x : Label) × (expected ≡ some x) × (actual ≡ some x)
unfolding compare_label
compare_label-nil a none actual h = cc
compare_label-nil a (some x) none h = cc
compare_label-nil a (some x) (some y) h = (x, refl, ground (arith, label_eq_iff x y))

compare_label_same {ℓ} : {A : Type ℓ} (a : A) (x : Label) → compare_label a (some x) (some x) ≡ []
unfolding compare_label
compare_label_same a x = rw ((label_eq_iff x x).1 refl)

pub is_empty-nil {ℓ} : {A : Type ℓ} (xs : List A) → is_empty xs ≡ true → xs ≡ []
is_empty-nil [] h = refl
is_empty-nil (x ∷ xs) h = cc

mem_of_recomputed {ℓ} :
    {A : Type ℓ} ⦃k : Key A⦄ (claims : List A) (attacks : List (A × A)) (c : A) (x : Label)
    → lookup c (recompute_grounded claims attacks) ≡ some x
    → c ∈ claims
unfolding recompute_grounded
mem_of_recomputed claims attacks c x h =
    (mem-dedup c claims).0
      (subst (λ ks. c ∈ ks) (keys-tabulate _ (dedup claims)) (mem_of_lookup_some c x _ h))

module _ {ℓ} {A : Type ℓ} ⦃k : Key A⦄ (claims : List A) (attacks : List (A × A)) where
  -- The label that the kernel's result gives to an argument.
  abbrev pub kernel_label : A → Label
  kernel_label = assign_label (attackers_of (dedup claims) attacks) (kernel_accepted claims attacks)

  -- The labels of the checker are those of the kernel's oracle.
  pub kernel_label_lem :
      (c : A)
      → c ∈ claims
      → let r = grounded_extension claims attacks none in
        ((kernel_label c ≡ accepted_label) ↔ (c ∈ r.accepted))
        × ((kernel_label c ≡ rejected_label) ↔ (c ∈ r.rejected))
        × ((kernel_label c ≡ undecided_label) ↔ (c ∈ r.undecided))
  unfolding assign_label iteration_limit
  kernel_label_lem c m = ground (
    arith,
    has-accepted claims attacks none c,
    mem-rejected claims attacks none c,
    mem-undecided claims attacks none c,
  )

  module _ (claimed : List (A × Label)) where
    pub compare_labels_at :
        compare_labels claims attacks claimed ≡ []
        → ((c : A) → c ∈ claims → lookup c claimed ≡ some (kernel_label c))
          × ((c : A) → c ∈ keys claimed → c ∈ claims)
    unfolding compare_labels
    compare_labels_at h = (known, covered)
      where
        every : List A
        every = sort (dedup (claims ++ keys claimed))

        compare : A → List (Violation A)
        compare a =
            compare_label a (lookup a claimed) (lookup a (recompute_grounded claims attacks))

        first : concat_map compare every ≡ []
        first = (append-eq-nil (concat_map compare every) _ h).0

        quiet : (c : A) → c ∈ (claims ++ keys claimed) → compare c ≡ []
        quiet c m = concat_map-nil_at compare every c first (rw has-sort ((mem-dedup c _).1 m))

        known : (c : A) → c ∈ claims → lookup c claimed ≡ some (kernel_label c)
        known c m =
            let (x, e, f) =
              compare_label-nil c (lookup c claimed) (lookup c (recompute_grounded claims attacks))
                (quiet c (mem-append_left c claims (keys claimed) m)) in
            e ∙ sym f ∙ lookup-recompute_grounded claims attacks c m

        covered : (c : A) → c ∈ keys claimed → c ∈ claims
        covered c m =
            let (x, e, f) =
              compare_label-nil c (lookup c claimed) (lookup c (recompute_grounded claims attacks))
                (quiet c (mem-append_right c claims (keys claimed) m)) in
            mem_of_recomputed claims attacks c x f

    pub compare_labels_of :
        ((c : A) → c ∈ claims → lookup c claimed ≡ some (kernel_label c))
        → ((c : A) → c ∈ keys claimed → c ∈ claims)
        → compare_labels claims attacks claimed ≡ []
    unfolding compare_labels
    compare_labels_of known covered =
        let same : (c : A)
            → c ∈ claims
            → compare_label c (lookup c claimed) (lookup c (recompute_grounded claims attacks))
              ≡ [] =
          λ c m.
            rw (known c m, lookup-recompute_grounded claims attacks c m)
              (compare_label_same c (kernel_label c)) in
        rw
          (concat_map-nil_of
            (λ a. compare_label a (lookup a claimed) (lookup a (recompute_grounded claims attacks)))
            (sort (dedup (claims ++ keys claimed)))
            (λ c m.
              elim (mem-append c claims (keys claimed) ((mem-dedup c _).0 (rw has-sort at m))) [
                | inl i ↦ same c i
                | inr i ↦ same c (covered c i)
              ]))
          (rw (nil_of_not_mem (sort (diff (dedup claims) (dedup (keys claimed)))) none_missing))
      where
        none_missing : (c : A) → ¬ (c ∈ sort (diff (dedup claims) (dedup (keys claimed))))
        none_missing c m =
            let (i, out) = mem-diff c (dedup claims) (dedup (keys claimed)) (rw has-sort at m) in
            not_of_false out (
              (mem-dedup c _).1
                (mem_of_lookup_some c _ claimed (known c ((mem-dedup c claims).0 i))))
