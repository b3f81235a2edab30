-- ===== src/Verifier/Fixpoint.antt =====
-- The definition-driven rounds against the loop of `grounded_extension`.
use juris_calculus.Prelude.{
  Key, ℕ, zero, suc, ◌+◌, ◌≡◌, sym, subst, ap, fun_ext, true, List, [], some, Bool-cases, inl, inr,
  length, meets, filter, set_eq, set_eq_at, dedup, pair_key,
}
use juris_calculus.Dung.{IsGrounded}
use juris_calculus.Grounded.{attackers_of, defended_by, iterate}
use juris_calculus.Grounded.Step.{Attacks, is_defended-eq-all}
use juris_calculus.Grounded.Loop.{iterate-Inv_nil, iterate-fixed, iterate-convergent_nil}
use juris_calculus.Grounded.Result.{IsGrounded-of}
use juris_calculus.Verifier.{
  adjacent_attackers, characteristic_by, grounded_rounds, independent_grounded,
}
use juris_calculus.Verifier.Decides.{adjacent_attackers-eq}

module _ {ℓ} {A : Type ℓ} ⦃k : Key A⦄ (args : List A) where
  characteristic_by-eq :
      (atk : A → List A) (s : List A) → characteristic_by atk args s ≡ defended_by atk args s
  unfolding characteristic_by defended_by meets
  characteristic_by-eq atk s =
      ap (λ p. filter p args) (fun_ext (λ c. sym (is_defended-eq-all atk s c)))

  grounded_rounds-eq :
      (atk : A → List A) (n it : ℕ) (s : List A)
      → (iterate atk args n it s).convergent ≡ true
      → grounded_rounds atk args n s ≡ some (iterate atk args n it s).accepted
  unfolding grounded_rounds iterate
  grounded_rounds-eq atk zero it s h = cc
  grounded_rounds-eq atk (suc n) it s h = elim (Bool-cases (set_eq (defended_by atk args s) s)) [
    | inl stop ↦ rw (characteristic_by-eq atk s, stop)
    | inr go ↦
        rw (characteristic_by-eq atk s, go)
          (grounded_rounds-eq atk n (it + 1) (defended_by atk args s) (rw go at h))
  ]

  abbrev reached : List (A × A) → List A → List A
  reached defeats cids = (iterate (attackers_of cids defeats) cids (length cids + 1) 0 []).accepted

  reached-IsGrounded :
      (defeats : List (A × A))
      → IsGrounded args (Attacks args defeats) (reached defeats (dedup args))
  reached-IsGrounded defeats =
      let cids = dedup args in
      let atk = attackers_of cids defeats in
      let ends = iterate-convergent_nil atk cids 0 in
      let fixed = set_eq_at _ _ (iterate-fixed atk cids (length cids + 1) 0 [] ends) in
      IsGrounded-of args defeats (reached defeats cids)
        (iterate-Inv_nil atk cids (length cids + 1) 0) fixed.0

  module _ (nodup : dedup args ≡ args) (defeats : List (A × A)) where
    pub independent_grounded-IsGrounded :
        (fixed : List A) × (independent_grounded (adjacent_attackers args defeats) args
          ≡ some fixed)
        × IsGrounded args (Attacks args defeats) fixed
    unfolding independent_grounded
    independent_grounded-IsGrounded =
        let atk = attackers_of args defeats in
        let ends = iterate-convergent_nil atk args 0 in
        let run = iterate atk args (length args + 1) 0 [] in
        let same : adjacent_attackers args defeats ≡ atk =
          fun_ext (adjacent_attackers-eq args defeats) in
        (
          run.accepted,
          subst (λ f. grounded_rounds f args (length args + 1) [] ≡ some run.accepted) (sym same)
              (grounded_rounds-eq atk (length args + 1) 0 [] ends),
          subst (λ cids. IsGrounded args (Attacks args defeats) (reached defeats cids)) nodup
              (reached-IsGrounded defeats),
        )
