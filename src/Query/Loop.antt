-- ===== src/Query/Loop.antt =====
-- The variables of the loop of `evaluate_query_v5` over the enterable branches.
use juris_calculus.Prelude.{
  Key, ◌≡◌, refl, subst, ◌∙◌, ◌↔◌, ◌⊎◌, inl, inr, Bool, true, not, ◌&&◌, ◌||◌, List, [], ◌∷◌, ◌++◌,
  arith, filter, any, all, ◌∈◌, sort, has-sort, mem-filter, mem-filter_of, mem-append,
  mem-append_left, mem-append_right, Memᴰ,
}
use juris_calculus.Query.{
  QueryInput, Tally, supports, argument_refutes, tally_branch, tally_branches,
}
use juris_calculus.Query.Branches.{accepts, refutes, found-any}

module _ {ℓ κ} {A : Type ℓ} {C : Type κ} ⦃k : Key A⦄ ⦃c : Key C⦄ (q : QueryInput A C) where
  -- The flags of the loop.
  pub tally-common :
      (bs : List (List A)) (t : Tally A)
      → (tally_branches q bs t).common ≡ (t.common && all (accepts q) bs)
  unfolding tally_branches tally_branch all
  tally-common [] t = ground arith
  tally-common (s ∷ bs) t =
      tally-common bs (tally_branch q s t) ∙ rw (found-any q (supports q) s) (ground arith)

  pub tally-common_refuted :
      (bs : List (List A)) (t : Tally A)
      → (tally_branches q bs t).common_refuted ≡ (t.common_refuted && all (refutes q) bs)
  unfolding tally_branches tally_branch all
  tally-common_refuted [] t = ground arith
  tally-common_refuted (s ∷ bs) t =
      tally-common_refuted bs (tally_branch q s t)
      ∙ rw (found-any q (argument_refutes q) s) (ground arith)

  abbrev pub undecides : List A → Bool
  undecides s = not (accepts q s) && not (refutes q s)

  abbrev pub clashes : List A → Bool
  clashes s = accepts q s && refutes q s

  pub tally-undecided :
      (bs : List (List A)) (t : Tally A)
      → (tally_branches q bs t).undecided_some ≡ (t.undecided_some || any undecides bs)
  unfolding tally_branches tally_branch any
  tally-undecided [] t = ground arith
  tally-undecided (s ∷ bs) t =
      tally-undecided bs (tally_branch q s t)
      ∙ rw (found-any q (argument_refutes q) s, found-any q (supports q) s) (ground arith)

  pub tally-inconsistent :
      (bs : List (List A)) (t : Tally A)
      → (tally_branches q bs t).inconsistent_some ≡ (t.inconsistent_some || any clashes bs)
  unfolding tally_branches tally_branch any
  tally-inconsistent [] t = ground arith
  tally-inconsistent (s ∷ bs) t =
      tally-inconsistent bs (tally_branch q s t)
      ∙ rw (found-any q (argument_refutes q) s, found-any q (supports q) s) (ground arith)

  -- Where a witness comes from: a branch of the list that holds it, and the test that it passed.
  abbrev pub From : (A → Bool) → List (List A) → A → Type ℓ
  From p bs a = (s : List A) × Memᴰ s bs × (a ∈ s) × (p a ≡ true)

  From-cons :
      (p : A → Bool) (s : List A) (bs : List (List A)) (a : A) (old : List A)
      → (a ∈ (old ++ filter p (sort s))) ⊎ From p bs a
      → (a ∈ old) ⊎ From p (s ∷ bs) a
  From-cons p s bs a old (inl m) = elim (mem-append a old (filter p (sort s)) m) [
    | inl i ↦ inl i
    | inr j ↦
        let (i, e) = mem-filter p (sort s) a j in inr (s, Memᴰ.head refl, (rw has-sort at i), e)
  ]
  From-cons p s bs a old (inr (u, i, m, e)) = inr (u, Memᴰ.tail i, m, e)

  From-uncons :
      (p : A → Bool) (s : List A) (bs : List (List A)) (a : A) (old : List A)
      → (a ∈ old) ⊎ From p (s ∷ bs) a
      → (a ∈ (old ++ filter p (sort s))) ⊎ From p bs a
  From-uncons p s bs a old (inl m) = inl (mem-append_left a old (filter p (sort s)) m)
  From-uncons p s bs a old (inr (u, Memᴰ.head e, m, f)) = inl (
      mem-append_right a old (filter p (sort s))
        (mem-filter_of p (sort s) a (rw has-sort (subst (λ v. a ∈ v) e m)) f))
  From-uncons p s bs a old (inr (u, Memᴰ.tail i, m, f)) = inr (u, i, m, f)

  pub mem-accepting :
      (bs : List (List A)) (t : Tally A) (a : A)
      → (a ∈ (tally_branches q bs t).accepting) ↔ ((a ∈ t.accepting) ⊎ From (supports q) bs a)
  unfolding tally_branches tally_branch
  mem-accepting [] t a = (λ m. inl m, λ d. elim d [ inl m ↦ m | inr (s, i, _, _) ↦ elim i [ ] ])
  mem-accepting (s ∷ bs) t a =
      let (to, from) = mem-accepting bs (tally_branch q s t) a in
      (
        λ m. From-cons (supports q) s bs a t.accepting (to m),
        λ d. from (From-uncons (supports q) s bs a t.accepting d),
      )

  pub mem-refuting :
      (bs : List (List A)) (t : Tally A) (a : A)
      → (a ∈ (tally_branches q bs t).refuting) ↔ ((a ∈ t.refuting) ⊎ From (argument_refutes q) bs a)
  unfolding tally_branches tally_branch
  mem-refuting [] t a = (λ m. inl m, λ d. elim d [ inl m ↦ m | inr (s, i, _, _) ↦ elim i [ ] ])
  mem-refuting (s ∷ bs) t a =
      let (to, from) = mem-refuting bs (tally_branch q s t) a in
      (
        λ m. From-cons (argument_refutes q) s bs a t.refuting (to m),
        λ d. from (From-uncons (argument_refutes q) s bs a t.refuting d),
      )
