-- ===== src/Checker/Agree.antt =====
-- `_recompute_grounded`, against the iteration of `grounded_extension`.
use juris_calculus.Prelude.{
  Key, ℕ, zero, suc, ◌+◌, ◌≡◌, refl, ap, fun_ext, ◌∙◌, true, List, [], ◌∷◌, some, arith,
  if◌then◌else◌, Bool-cases, length, is_empty, all, filter, ◌∈◌, meets, set_eq, dedup, mem-dedup,
  lookup, lookup-tabulate, inl, inr,
}
use juris_calculus.Grounded.{attackers_of, is_defended, defended_by, iterate}
use juris_calculus.Checker.{
  index_attackers, all_defeated, recompute_round, recompute_loop, recompute_grounded, assign_label,
}

module _ {ℓ} {A : Type ℓ} ⦃k : Key A⦄ where
  index_attackers-eq :
      (cids : List A) (attacks : List (A × A)) (t : A)
      → index_attackers cids attacks t ≡ attackers_of cids attacks t
  unfolding index_attackers attackers_of
  index_attackers-eq cids [] t = refl
  index_attackers-eq cids ((src, tgt) ∷ rest) t = rw (index_attackers-eq cids rest t)

  all_defeated-eq :
      (index : A → List A) (accepted atts : List A)
      → all_defeated index accepted atts ≡ all (λ a. meets (index a) accepted) atts
  unfolding all_defeated all
  all_defeated-eq index accepted [] = refl
  all_defeated-eq index accepted (a ∷ rest) = ground (arith, all_defeated-eq index accepted rest)

  all_defeated-eq-is_defended :
      (index : A → List A) (accepted : List A) (c : A)
      → all_defeated index accepted (index c) ≡ is_defended index accepted c
  unfolding is_defended all
  all_defeated-eq-is_defended index accepted c = go (index c)
    where
      go :
          (xs : List A)
          → all_defeated index accepted xs
            ≡ (if is_empty xs then true else all (λ a. meets (index a) accepted) xs)
      go [] = all_defeated-eq index accepted []
      go (x ∷ xs) = all_defeated-eq index accepted (x ∷ xs)

  recompute_round-eq :
      (index : A → List A) (cids accepted : List A)
      → recompute_round index cids accepted ≡ defended_by index cids accepted
  unfolding recompute_round defended_by
  recompute_round-eq index cids accepted =
      ap (λ p. filter p cids) (fun_ext (all_defeated-eq-is_defended index accepted))

  recompute_loop-eq :
      (index : A → List A) (cids : List A) (n it : ℕ) (accepted : List A)
      → recompute_loop index cids n accepted ≡ (iterate index cids n it accepted).accepted
  unfolding recompute_loop iterate
  recompute_loop-eq index cids zero it accepted = refl
  recompute_loop-eq index cids (suc n) it accepted =
      rw (recompute_round-eq index cids accepted)
        (elim (Bool-cases (set_eq (defended_by index cids accepted) accepted)) [
          | inl done ↦ rw done
          | inr more ↦
              rw more (recompute_loop-eq index cids n (it + 1) (defended_by index cids accepted))
        ])

  -- The set that the checker's loop accepts is the one of the kernel's loop.
  abbrev pub kernel_accepted : List A → List (A × A) → List A
  kernel_accepted claims attacks =
      let cids = dedup claims in
      (iterate (attackers_of cids attacks) cids (length cids + 1) 0 []).accepted

  -- What the checker's dictionary holds for a known argument.
  pub lookup-recompute_grounded :
      (claims : List A) (attacks : List (A × A)) (c : A)
      → c ∈ claims
      → lookup c (recompute_grounded claims attacks)
        ≡ some
            (assign_label (attackers_of (dedup claims) attacks) (kernel_accepted claims attacks) c)
  unfolding recompute_grounded
  lookup-recompute_grounded claims attacks c m =
      let cids = dedup claims in
      let index = index_attackers cids attacks in
      let same : index ≡ attackers_of cids attacks = fun_ext (index_attackers-eq cids attacks) in
      let loop = recompute_loop-eq index cids (length cids + 1) 0 [] in
      let acc = recompute_loop index cids (length cids + 1) [] in
      lookup-tabulate (assign_label index acc) cids c ((mem-dedup c claims).1 m)
      ∙ ap (λ s. some (assign_label index s c)) loop
      ∙ ap (λ f. some (assign_label f (iterate f cids (length cids + 1) 0 []).accepted c)) same
