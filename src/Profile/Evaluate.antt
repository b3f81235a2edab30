-- ===== src/Profile/Evaluate.antt =====
-- The families that `evaluate_profile_v5` returns.
use juris_calculus.Prelude.{
  Key, String, ◌≢◌, ℕ, ◌^◌, ◌≡◌, ◌≤◌, refl, sym, subst, ◌↔◌, Bool, true, false, List, [], ◌∷◌, none,
  arith, if◌then◌else◌, Bool-cases, false_of_not, length, is_empty, filter, ◌∈◌, min, not_mem_nil,
  mem-dedup, has-sort, sort, dedup, Memᴰ, ◌⊎◌, inl, inr, pair_key, ok, ok-injective, ltb,
}
use mathlib.Core.List.Memᴰ
use juris_calculus.Dung.{
  IsAdmissible, IsComplete, IsStable, IsPreferred, IsGrounded, IsGrounded-attacks,
}
use juris_calculus.Grounded.{grounded_extension}
use juris_calculus.Grounded.Step.{Attacks}
use juris_calculus.Grounded.Result.{accepted-IsGrounded, grounded_extension-convergent}
use juris_calculus.Profile.{
  Arrange, Obligation, Profile, grounded, stable, complete, preferred, unknown_profile,
  ProfileEvaluation, subsets, is_stable, admissible_sets, claims_complete_family, evaluate_grounded,
  enumerate_profile, argument_limit_hard, argument_limit_configured, enumeration_budget,
  evaluate_known, evaluate_profile, hard_enumeration_argument_limit, hard_enumeration_subset_limit,
  incomplete_with, family_of, empty_family,
}
use juris_calculus.Profile.Decides.{Known}
use juris_calculus.Profile.Family.{
  Enumerates, Enumerates-arrange, IsStable-family, IsAdmissible-family, IsComplete-family,
  IsPreferred-family,
}

module _ {ℓ} {A : Type ℓ} ⦃k : Key A⦄ where
  -- What a profile asks of one extension.
  abbrev pub IsExtension : Profile → List A → List (A × A) → List A → Type ℓ
  IsExtension grounded args defeats = IsGrounded args (Attacks args defeats)
  IsExtension preferred args defeats = IsPreferred args (Attacks args defeats)
  IsExtension stable args defeats = IsStable args (Attacks args defeats)
  IsExtension complete args defeats = IsComplete args (Attacks args defeats)
  IsExtension (unknown_profile name) args defeats = λ _. ¬ Unit {ℓ}

module _ {ℓ} {A : Type ℓ} ⦃k : Key A⦄ (sorted : Arrange A) (args : List A) (defeats : List (A × A))
    (known : Known args defeats) where
  abbrev total : ℕ
  total = 2 ^ length args

  sorted_defeats : List (A × A)
  sorted_defeats = sort (dedup defeats)

  mem-sorted_defeats : (p : A × A) → (p ∈ sorted_defeats) ↔ (p ∈ defeats)
  unfolding sorted_defeats
  mem-sorted_defeats p = (
    λ m. (mem-dedup p defeats).0 (rw has-sort at m),
    λ m. rw has-sort ((mem-dedup p defeats).1 m),
  )

  evaluate_grounded_family :
      Enumerates
        (IsExtension grounded args defeats)
        (evaluate_grounded sorted args defeats).extensions
  unfolding evaluate_grounded sorted_defeats family_of
  evaluate_grounded_family =
      let ends = (grounded_extension-convergent args sorted_defeats).0 in
      let r = grounded_extension args sorted_defeats none in
      let here : IsExtension grounded args defeats r.accepted =
        IsGrounded-attacks (λ a b (m, i, j). ((mem-sorted_defeats (a, b)).0 m, i, j))
          (λ a b (m, i, j). ((mem-sorted_defeats (a, b)).1 m, i, j))
          (accepted-IsGrounded args sorted_defeats none ends) in
      rw ends (record {
        sound =
            λ s m. subst (IsExtension grounded args defeats) (sym (Memᴰ.eq_of_singleton m)) here;
        full = λ t w.
            (r.accepted, Memᴰ.head refl, here.least t w.complete, w.least r.accepted here.complete);
      })

  evaluate_grounded_kind : claims_complete_family (evaluate_grounded sorted args defeats) ≡ true
  unfolding evaluate_grounded claims_complete_family family_of
  evaluate_grounded_kind = rw (grounded_extension-convergent args (sort (dedup defeats))).0

  -- An empty list stands for its family too.
  nothing_found :
      (P : List A → Type ℓ) (family : List (List A))
      → Enumerates P family
      → is_empty family ≡ true
      → Enumerates P []
  nothing_found P [] v e = v
  nothing_found P (s ∷ rest) v e = cc

  enumerate_stable :
      Enumerates
        (IsExtension stable args defeats)
        (enumerate_profile sorted stable args defeats total).extensions
  unfolding enumerate_profile family_of empty_family
  enumerate_stable =
      let found = filter (is_stable args defeats) (subsets args total) in
      let family = IsStable-family args defeats known in
      elim (Bool-cases (is_empty found)) [
        | inl e ↦ rw e (nothing_found _ found family e)
        | inr e ↦ rw e (Enumerates-arrange sorted _ found family)
      ]

  -- The empty set is admissible, so there is always a candidate.
  some_admissible : is_empty (admissible_sets args defeats total) ≡ false
  some_admissible = false_of_not λ e.
      let none_left = nothing_found _ _ (IsAdmissible-family args defeats known) e in
      let nil : IsAdmissible args (Attacks args defeats) [] = record {
        within = λ a m. absurd (not_mem_nil a m);
        conflict_free = λ a b i _ _. not_mem_nil a i;
        defended = λ c m. absurd (not_mem_nil c m);
      } in
      Memᴰ.not-nil (none_left.full [] nil).1

  enumerate_complete :
      Enumerates
        (IsExtension complete args defeats)
        (enumerate_profile sorted complete args defeats total).extensions
  unfolding enumerate_profile family_of
  enumerate_complete =
      rw some_admissible (Enumerates-arrange sorted _ _ (IsComplete-family args defeats known))

  enumerate_preferred :
      Enumerates
        (IsExtension preferred args defeats)
        (enumerate_profile sorted preferred args defeats total).extensions
  unfolding enumerate_profile family_of
  enumerate_preferred =
      rw some_admissible (Enumerates-arrange sorted _ _ (IsPreferred-family args defeats known))

  abbrev Good : Profile → ProfileEvaluation A → Type ℓ
  Good p ev =
      claims_complete_family ev ≡ true → Enumerates (IsExtension p args defeats) ev.extensions

  guarded :
      (p q : Profile) (b : Bool) (o : Obligation) (rest : ProfileEvaluation A)
      → Good p rest
      → Good p (if b then incomplete_with q o else rest)
  unfolding claims_complete_family incomplete_with
  guarded p q true o rest good h = cc
  guarded p q false o rest good h = good h

  abbrev over_hard : Bool
  over_hard = ltb hard_enumeration_argument_limit (length args)

  abbrev over_limit : ℕ → Bool
  over_limit argument_limit = ltb argument_limit (length args)

  abbrev over_budget : ℕ → Bool
  over_budget subset_limit = ltb (min subset_limit hard_enumeration_subset_limit) total

  within_arguments :
      (p : Profile) (l : ℕ) (ev : ProfileEvaluation A)
      → Good p ev
      → Good p (
          if over_hard
          then incomplete_with p argument_limit_hard
          else if over_limit l
          then incomplete_with p argument_limit_configured
          else ev)
  within_arguments p l ev good =
      guarded p p over_hard argument_limit_hard
        (if over_limit l then incomplete_with p argument_limit_configured else ev)
        (guarded p p (over_limit l) argument_limit_configured ev good)

  within_budget :
      (p : Profile) (l m : ℕ) (ev : ProfileEvaluation A)
      → Good p ev
      → Good p (
          if over_hard
          then incomplete_with p argument_limit_hard
          else if over_limit l
          then incomplete_with p argument_limit_configured
          else if over_budget m
          then incomplete_with p enumeration_budget
          else ev)
  within_budget p l m ev good =
      within_arguments p l (if over_budget m then incomplete_with p enumeration_budget else ev)
        (guarded p p (over_budget m) enumeration_budget ev good)

  -- Whenever the evaluation claims the complete family of a profile, the extensions that it returns
  -- are extensions of that profile in Dung's sense, and every such extension is among them (up to
  -- the order and repetition of members). The defeats run between arguments of the framework.
  pub evaluate_profile-Enumerates :
      (p : Profile) (argument_limit subset_limit : ℕ) (ev : ProfileEvaluation A)
      → evaluate_profile sorted p args defeats argument_limit subset_limit ≡ ok ev
      → claims_complete_family ev ≡ true
      → Enumerates (IsExtension p args defeats) ev.extensions
  unfolding evaluate_profile evaluate_known
  evaluate_profile-Enumerates grounded l m ev h = subst (Good grounded) (ok-injective h) (
      within_arguments grounded l (evaluate_grounded sorted args defeats)
        (λ _. evaluate_grounded_family))
  evaluate_profile-Enumerates stable l m ev h = subst (Good stable) (ok-injective h) (
      within_budget stable l m (enumerate_profile sorted stable args defeats total)
        (λ _. enumerate_stable))
  evaluate_profile-Enumerates complete l m ev h = subst (Good complete) (ok-injective h) (
      within_budget complete l m (enumerate_profile sorted complete args defeats total)
        (λ _. enumerate_complete))
  evaluate_profile-Enumerates preferred l m ev h = subst (Good preferred) (ok-injective h) (
      within_budget preferred l m (enumerate_profile sorted preferred args defeats total)
        (λ _. enumerate_preferred))
  evaluate_profile-Enumerates (unknown_profile name) l m ev h = cc

  enumerate_kind :
      (p : Profile) (n : ℕ)
      → claims_complete_family (enumerate_profile sorted p args defeats n) ≡ true
  unfolding enumerate_profile claims_complete_family family_of empty_family
  enumerate_kind stable n = ground arith
  enumerate_kind p n = ground arith

  abbrev pub Budgeted : Profile → ℕ → ℕ → Type 0
  Budgeted p l m =
      (length args ≤ 20) × (length args ≤ l) × ((p ≡ grounded) ⊎ (2 ^ length args ≤ min m 1048576))

  -- Every supported profile is evaluated without an error. The three enumerated ones claim the
  -- complete family exactly when the argument count keeps to both limits and the powerset to the
  -- subset budget; the grounded one needs only the former. An evaluation that does not claim the
  -- family returns no extension. The defeats run between arguments of the framework.
  pub evaluate_profile_budget :
      (p : Profile) (argument_limit subset_limit : ℕ)
      → ((name : String) → p ≢ unknown_profile name)
      → (ev : ProfileEvaluation A) × (evaluate_profile sorted p args defeats argument_limit
            subset_limit
          ≡ ok ev)
        × ((claims_complete_family ev ≡ true) ↔ Budgeted p argument_limit subset_limit)
        × (claims_complete_family ev ≡ false → ev.extensions ≡ [])
  unfolding evaluate_profile evaluate_known claims_complete_family incomplete_with
  evaluate_profile_budget grounded l m h = (
    evaluate_known sorted grounded args defeats l m,
    refl,
    ground (arith, evaluate_grounded_kind),
    ground (arith, evaluate_grounded_kind),
  )
  evaluate_profile_budget (unknown_profile name) l m h = absurd (h name refl)
  evaluate_profile_budget p l m h = (
    evaluate_known sorted p args defeats l m,
    refl,
    ground (arith, enumerate_kind p (2 ^ length args)),
    ground (arith, enumerate_kind p (2 ^ length args)),
  )
