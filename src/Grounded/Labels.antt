-- ===== src/Grounded/Labels.antt =====
-- The three labels of a grounded result: IN, OUT and UNDEC.
use juris_calculus.Prelude.{
  Key, ℕ, ◌+◌, ◌≡◌, ◌↔◌, true, false, List, [], Option, arith, Bool-cases, false_of_not,
  not_of_false, length, has, ◌∈◌, dedup, mem-dedup, has-sort, meets, meets_at, meets_of, diff,
  mem-diff, mem-diff_of, mem-filter, mem-filter_of, if◌then◌else◌, ◌⊎◌, inl, inr, pair_key,
}
use juris_calculus.Grounded.{
  GroundedResult, attackers_of, iterate, iteration_limit, rejected_of, grounded_extension,
}
use juris_calculus.Grounded.Step.{Attacks, mem-attackers_of, mem-attackers_of_of}
use juris_calculus.Grounded.Result.{grounded_extension-IsAdmissible}

module _ {ℓ} {A : Type ℓ} ⦃k : Key A⦄ (atk : A → List A) (cids accepted : List A) (c : A) where
  mem-rejected_of :
      (c ∈ rejected_of atk cids accepted)
      ↔ (c ∈ cids) × (has c accepted ≡ false) × (meets (atk c) accepted ≡ true)
  unfolding rejected_of
  mem-rejected_of =
      let test = λ (x : A). if has x accepted then false else meets (atk x) accepted in
      (
        λ m. let (i, e) = mem-filter test cids c m in (i, ground arith, ground arith),
        λ (i, out, hit). mem-filter_of test cids c i (rw out hit),
      )

module _ {ℓ} {A : Type ℓ} ⦃k : Key A⦄ (claims : List A) (attacks : List (A × A)) (bound : Option ℕ)
    (c : A) where
  abbrev cids : List A
  cids = dedup claims

  abbrev atk : A → List A
  atk = attackers_of cids attacks

  -- The set in which the loop leaves, before it is sorted.
  abbrev pub run_accepted : List A
  run_accepted = (iterate atk cids (iteration_limit bound (length cids + 1)) 0 []).accepted

  abbrev result : GroundedResult A
  result = grounded_extension claims attacks bound

  pub has-accepted : has c result.accepted ≡ has c run_accepted
  unfolding grounded_extension
  has-accepted = has-sort c run_accepted

  pub mem-rejected :
      (c ∈ result.rejected)
      ↔ (c ∈ claims) × (has c run_accepted ≡ false) × (meets (atk c) run_accepted ≡ true)
  unfolding grounded_extension
  mem-rejected =
      let inner = mem-rejected_of atk cids run_accepted c in
      (
        λ m. let (i, e, h) = inner.0 (rw has-sort at m) in ((mem-dedup c claims).0 i, e, h),
        λ (i, e, h). rw has-sort (inner.1 ((mem-dedup c claims).1 i, e, h)),
      )

  pub mem-undecided :
      (c ∈ result.undecided)
      ↔ (c ∈ claims) × (has c run_accepted ≡ false) × (meets (atk c) run_accepted ≡ false)
  unfolding grounded_extension
  mem-undecided =
      let inner = mem-rejected_of atk cids run_accepted c in
      let rest = rejected_of atk cids run_accepted in
      (
        λ m.
            let (i, e) = mem-diff c (diff cids run_accepted) rest (rw has-sort at m) in
            let (j, f) = mem-diff c cids run_accepted i in
            ((mem-dedup c claims).0 j, f, false_of_not (λ h. not_of_false e (inner.1 (j, f, h)))),
        λ (i, e, h).
            let j = (mem-dedup c claims).1 i in
            rw has-sort (
              mem-diff_of c (diff cids run_accepted) rest (mem-diff_of c cids run_accepted j e)
                (false_of_not λ m. not_of_false h (inner.0 m).2)),
      )

  -- The labels cover the arguments, and no argument carries two of them. OUT means not accepted
  -- and attacked by an accepted argument, and UNDEC that neither of the other labels holds.
  pub grounded_extension_labels :
      (c ∈ claims → (c ∈ result.accepted) ⊎ (c ∈ result.rejected) ⊎ (c ∈ result.undecided))
      × ((c ∈ result.rejected)
          ↔ (c ∈ claims) × ((d : A) × (d ∈ result.accepted) × Attacks claims attacks d c))
      × (c ∈ result.rejected → has c result.accepted ≡ false)
      × ((c ∈ result.undecided)
          ↔ (c ∈ claims) × (has c result.accepted ≡ false) × (has c result.rejected ≡ false))
  unfolding grounded_extension
  grounded_extension_labels = (cover, (out_to, out_from), apart, (und_to, und_from))
    where
      cover : c ∈ claims → (c ∈ result.accepted) ⊎ (c ∈ result.rejected) ⊎ (c ∈ result.undecided)
      cover m = elim (Bool-cases (has c run_accepted)) [
        | inl now ↦ inl (rw has-accepted now)
        | inr e ↦ elim (Bool-cases (meets (atk c) run_accepted)) [
          | inl h ↦ inr (inl (mem-rejected.1 (m, e, h)))
          | inr h ↦ inr (inr (mem-undecided.1 (m, e, h)))
        ]
      ]

      out_to :
          c ∈ result.rejected
          → (c ∈ claims) × ((d : A) × (d ∈ result.accepted) × Attacks claims attacks d c)
      out_to m =
          let (i, _, h) = mem-rejected.0 m in
          let (d, on_c, j) = meets_at (atk c) run_accepted h in
          let (p, dc, _) = mem-attackers_of cids attacks d c on_c in
          (i, (d, rw has-sort j, (p, (mem-dedup d claims).0 dc, i)))

      out_from :
          (c ∈ claims) × ((d : A) × (d ∈ result.accepted) × Attacks claims attacks d c)
          → c ∈ result.rejected
      out_from (i, (d, j, hit)) =
          let free = (grounded_extension-IsAdmissible claims attacks bound).0.conflict_free in
          let out = false_of_not (λ m. free d c j m hit) in
          let on_c =
            mem-attackers_of_of cids attacks d c
              (hit.0, (mem-dedup d claims).1 hit.1, (mem-dedup c claims).1 i) in
          mem-rejected.1
            (i, rw has-accepted at out, meets_of (atk c) run_accepted d on_c (rw has-sort at j))

      apart : c ∈ result.rejected → has c result.accepted ≡ false
      apart m = rw has-accepted (mem-rejected.0 m).1

      und_to :
          c ∈ result.undecided
          → (c ∈ claims) × (has c result.accepted ≡ false) × (has c result.rejected ≡ false)
      und_to m =
          let (i, e, h) = mem-undecided.0 m in
          (i, rw has-accepted e, false_of_not (λ r. not_of_false h (mem-rejected.0 r).2))

      und_from :
          (c ∈ claims) × (has c result.accepted ≡ false) × (has c result.rejected ≡ false)
          → c ∈ result.undecided
      und_from (i, e, r) =
          let f = rw has-accepted at e in
          mem-undecided.1 (i, f, false_of_not (λ h. not_of_false r (mem-rejected.1 (i, f, h))))
