-- ===== src/Profile.antt =====
-- The bounded evaluation of the Dung profiles: compiler_core/argumentation.py,
-- `evaluate_profile_v5` and its helpers. A frozenset is a list of members. `sorted` on frozensets
-- compares by strict inclusion, which is no total order, so the order of the result is Python's
-- matter: it is the parameter `Arrange`, of which only the documented law is used, that the entries
-- are those of the argument.
pub mod Subsets
pub mod Decides
pub mod Family
pub mod Evaluate
use juris_calculus.Prelude.{
  Key, ℕ, zero, suc, ◌+◌, ◌/◌, ◌%◌, ◌^◌, ◌==◌, min, Bool, true, false, not, ◌&&◌, List, [], ◌∷◌,
  ◌++◌, Option, none, some, String, if◌then◌else◌, ltb, length, is_empty, filter, all, any, has,
  diff, subset, set_eq, sort, dedup, pair_key, ◌↔◌, Memᴰ, Result, ok, err,
}
use juris_calculus.Grounded.{GroundedResult, grounded_extension}

abbrev pub default_enumeration_argument_limit : ℕ
default_enumeration_argument_limit = 16

abbrev pub hard_enumeration_argument_limit : ℕ
hard_enumeration_argument_limit = 20

abbrev pub default_enumeration_subset_limit : ℕ
default_enumeration_subset_limit = 65536

abbrev pub hard_enumeration_subset_limit : ℕ
hard_enumeration_subset_limit = 1048576

-- The profile is a string in the source: four are supported.
pub data Profile : Type 0 where
  grounded preferred stable complete : Profile
  unknown_profile : String → Profile

pub data FamilyKind : Type 0 where
  incomplete no_extension extensions_found : FamilyKind

pub data Obligation : Type 0 where
  argument_limit_hard argument_limit_configured grounded_truncated enumeration_budget : Obligation

pub data ProfileError : Type 0 where
  profile_unknown : String → ProfileError

pub record ProfileEvaluation {ℓ} (A : Type ℓ) : Type ℓ where
  pub profile : Profile
  pub kind : FamilyKind
  pub extensions : List (List A)
  pub open_obligations : List Obligation

-- `sorted` applied to a list of frozensets.
pub record Arrange {ℓ} (A : Type ℓ) : Type ℓ where
  pub arrange : List (List A) → List (List A)
  pub arrange_mem : (s : List A) (family : List (List A)) → Memᴰ s (arrange family) ↔ Memᴰ s family

unfoldable pub claims_complete_family {ℓ} : {A : Type ℓ} → ProfileEvaluation A → Bool
claims_complete_family evaluation = elim evaluation.kind [ incomplete ↦ false | _ ↦ true ]

-- `mask >> index & 1`.
unfoldable pub bit : ℕ → ℕ → Bool
bit mask index = (mask / 2 ^ index) % 2 == 1

module _ {ℓ} {A : Type ℓ} where
  unfoldable pub subset_from : ℕ → ℕ → List A → List A
  subset_from mask index [] = []
  subset_from mask index (x ∷ xs) =
      let rest = subset_from mask (index + 1) xs in if bit mask index then x ∷ rest else rest

  -- The masks below `total`, in ascending order.
  unfoldable pub subsets : List A → ℕ → List (List A)
  subsets arguments zero = []
  subsets arguments (suc mask) = subsets arguments mask ++ subset_from mask 0 arguments ∷ []

module _ {ℓ} {A : Type ℓ} ⦃k : Key A⦄ where
  unfoldable pub is_admissible : List A → List (A × A) → Bool
  is_admissible members defeats =
      all (λ d. not (has d.0 members && has d.1 members)) defeats
      && all
          (λ member.
            not (has (member, member) defeats)
            && all
                (λ d.
                  if k.beq d.1 member && not (has d.0 members)
                  then any (λ e. has e.0 members && k.beq e.1 d.0) defeats
                  else true)
                defeats)
          members

  unfoldable pub characteristic : List A → List (A × A) → List A → List A
  characteristic arguments defeats members =
      filter
        (λ argument.
          all
            (λ d.
              if k.beq d.1 argument
              then any (λ member. has (member, d.0) defeats) members
              else true)
            defeats)
        arguments

  -- The test of one subset in the `stable` loop.
  unfoldable pub is_stable : List A → List (A × A) → List A → Bool
  is_stable arguments defeats members =
      if any (λ source. any (λ target. has (source, target) defeats) members) members
      then false
      else all (λ member. any (λ source. has (source, member) defeats) members)
          (diff arguments members)

  -- `xs < ys` of frozensets.
  unfoldable pub strict_subset : List A → List A → Bool
  strict_subset xs ys = subset xs ys && not (subset ys xs)

  unfoldable pub admissible_sets : List A → List (A × A) → ℕ → List (List A)
  admissible_sets arguments defeats total =
      filter (λ s. is_admissible s defeats) (subsets arguments total)

  unfoldable pub maximal_sets : List (List A) → List (List A)
  maximal_sets candidates =
      filter (λ candidate. not (any (λ other. strict_subset candidate other) candidates)) candidates

module _ {ℓ} {A : Type ℓ} where
  unfoldable pub incomplete_with : Profile → Obligation → ProfileEvaluation A
  incomplete_with profile obligation = record {
    profile = profile;
    kind = incomplete;
    extensions = [];
    open_obligations = obligation ∷ [];
  }

  unfoldable pub family_of : Profile → List (List A) → ProfileEvaluation A
  family_of profile extensions = record {
    profile = profile;
    kind = extensions_found;
    extensions = extensions;
    open_obligations = [];
  }

  unfoldable pub empty_family : Profile → ProfileEvaluation A
  empty_family profile = record {
    profile = profile;
    kind = no_extension;
    extensions = [];
    open_obligations = [];
  }

module _ {ℓ} {A : Type ℓ} ⦃k : Key A⦄ (sorted : Arrange A) where
  -- The `grounded` branch delegates to the least-fixed-point oracle.
  unfoldable pub evaluate_grounded : List A → List (A × A) → ProfileEvaluation A
  evaluate_grounded arguments defeats =
      let labels = grounded_extension arguments (sort (dedup defeats)) none in
      if labels.convergent
      then family_of grounded (labels.accepted ∷ [])
      else incomplete_with grounded grounded_truncated

  -- What follows the budget test, for the three enumerated profiles.
  unfoldable pub enumerate_profile : Profile → List A → List (A × A) → ℕ → ProfileEvaluation A
  enumerate_profile stable arguments defeats total =
      let found = filter (is_stable arguments defeats) (subsets arguments total) in
      if is_empty found then empty_family stable else family_of stable (sorted.arrange found)
  enumerate_profile profile arguments defeats total =
      let admissible = admissible_sets arguments defeats total in
      if is_empty admissible then empty_family profile else elim profile [
        | complete ↦ family_of complete (
            sorted.arrange (filter (λ s. set_eq (characteristic arguments defeats s) s) admissible))
        | other ↦ family_of other (sorted.arrange (maximal_sets admissible))
      ]

  unfoldable pub evaluate_known : Profile → List A → List (A × A) → ℕ → ℕ → ProfileEvaluation A
  evaluate_known profile arguments defeats argument_limit subset_limit =
      let total = 2 ^ length arguments in
      if ltb hard_enumeration_argument_limit (length arguments)
      then incomplete_with profile argument_limit_hard
      else if ltb argument_limit (length arguments)
      then incomplete_with profile argument_limit_configured
      else elim profile [
        | grounded ↦ evaluate_grounded arguments defeats
        | other ↦
            if ltb (min subset_limit hard_enumeration_subset_limit) total
            then incomplete_with other enumeration_budget
            else enumerate_profile other arguments defeats total
      ]

  unfoldable pub evaluate_profile :
      Profile → List A → List (A × A) → ℕ → ℕ → Result ProfileError (ProfileEvaluation A)
  evaluate_profile (unknown_profile name) arguments defeats argument_limit subset_limit =
      err (profile_unknown name)
  evaluate_profile profile arguments defeats argument_limit subset_limit =
      ok (evaluate_known profile arguments defeats argument_limit subset_limit)
