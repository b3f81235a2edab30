-- ===== src/Verifier.antt =====
-- compiler_core/argumentation.py, the verification of a claimed family: `_v5_attackers_of` to
-- `verify_profile_family_v5`. The adjacency dictionary is a function, read at known arguments only.
use juris_calculus.Prelude.{
  Key, ℕ, zero, suc, ◌+◌, ◌^◌, Bool, true, false, not, ◌&&◌, ◌||◌, List, [], ◌∷◌, ◌++◌, Option,
  none, some, String, if◌then◌else◌, length, filter, all, any, has, add, dedup, subset, set_eq,
  diff, sort, is_empty, map, min, ltb, pair_key,
}
use juris_calculus.Profile.{
  Profile, grounded, stable, complete, preferred, unknown_profile, subsets,
  hard_enumeration_argument_limit, default_enumeration_subset_limit, hard_enumeration_subset_limit,
}
pub mod Decides
pub mod Fixpoint
pub mod Extension
pub mod Verified
pub mod Family

-- The coverage is a string in the source: two are supported.
pub data Coverage : Type 0 where
  exact discovered_only : Coverage
  unknown_coverage : String → Coverage

module _ {ℓ} {A : Type ℓ} ⦃k : Key A⦄ where
  unfoldable pub adjacent_attackers : List A → List (A × A) → A → List A
  adjacent_attackers arguments [] t = []
  adjacent_attackers arguments ((source, target) ∷ rest) t =
      let more = adjacent_attackers arguments rest t in
      if has source arguments && has target arguments && k.beq target t
      then add source more
      else more

  unfoldable pub is_conflict_free : List (A × A) → List A → Bool
  is_conflict_free defeats members = not (any (λ d. has d.0 members && has d.1 members) defeats)

  unfoldable pub defends : (A → List A) → List A → A → Bool
  defends attackers members argument =
      all (λ attacker. any (λ defender. has defender members) (attackers attacker))
        (attackers argument)

  unfoldable pub is_admissible_by : (A → List A) → List A → List (A × A) → List A → Bool
  is_admissible_by attackers arguments defeats members =
      if not (subset members arguments) || not (is_conflict_free defeats members)
      then false
      else all (λ member. defends attackers members member) members

  unfoldable pub characteristic_by : (A → List A) → List A → List A → List A
  characteristic_by attackers arguments members =
      filter
        (λ argument.
          all (λ attacker. any (λ defender. has defender members) (attackers attacker))
            (attackers argument))
        arguments

  -- The rounds of the `for` loop; `none` when it ends without a fixed point.
  unfoldable pub grounded_rounds : (A → List A) → List A → ℕ → List A → Option (List A)
  grounded_rounds attackers arguments zero current = none
  grounded_rounds attackers arguments (suc rounds) current =
      let next = characteristic_by attackers arguments current in
      let rest = grounded_rounds attackers arguments rounds next in
      if set_eq next current then some current else rest

  unfoldable pub independent_grounded : (A → List A) → List A → Option (List A)
  independent_grounded attackers arguments =
      grounded_rounds attackers arguments (length arguments + 1) []

  unfoldable pub is_grounded_by : Option (List A) → List A → Bool
  is_grounded_by none members = false
  is_grounded_by (some fixed) members = set_eq members fixed

  -- The mask loop over the arguments outside the set: no larger union with some is admissible.
  unfoldable pub is_maximal_by : (A → List A) → List A → List (A × A) → List A → Bool
  is_maximal_by attackers arguments defeats members =
      let outside = sort (diff arguments members) in
      not (
        any
          (λ added.
            not (set_eq (members ++ added) members)
            && is_admissible_by attackers arguments defeats (members ++ added))
          (subsets outside (2 ^ length outside)))

  -- The tests after the one for `grounded`, which `_v5_independent_extension` orders this way.
  unfoldable pub enumerated_extension :
      Profile → (A → List A) → List A → List (A × A) → List A → Bool
  enumerated_extension stable attackers arguments defeats members =
      if not (is_conflict_free defeats members)
      then false
      else all (λ member. any (λ source. has (source, member) defeats) members)
          (diff arguments members)
  enumerated_extension complete attackers arguments defeats members =
      if not (is_conflict_free defeats members)
      then false
      else if not (is_admissible_by attackers arguments defeats members)
      then false
      else set_eq (characteristic_by attackers arguments members) members
  enumerated_extension other attackers arguments defeats members =
      if not (is_conflict_free defeats members)
      then false
      else if not (is_admissible_by attackers arguments defeats members)
      then false
      else is_maximal_by attackers arguments defeats members

  unfoldable pub independent_extension :
      Profile → (A → List A) → List A → List (A × A) → List A → Bool
  independent_extension profile attackers arguments defeats members =
      if not (subset members arguments) then false else elim profile [
        | grounded ↦ is_grounded_by (independent_grounded attackers arguments) members
        | other ↦ enumerated_extension other attackers arguments defeats members
      ]

  unfoldable pub grounded_family : Option (List A) → List (List A)
  grounded_family none = []
  grounded_family (some fixed) = fixed ∷ []

  unfoldable pub independent_family : Profile → (A → List A) → List A → List (A × A) → List (List A)
  independent_family grounded attackers arguments defeats =
      grounded_family (independent_grounded attackers arguments)
  independent_family profile attackers arguments defeats =
      let ordered = sort arguments in
      filter (independent_extension profile attackers arguments defeats)
        (subsets ordered (2 ^ length ordered))

  -- Families as sets of frozensets.
  unfoldable pub in_family : List (List A) → List A → Bool
  in_family family members = any (λ other. set_eq members other) family

  unfoldable pub has_repeats : List (List A) → Bool
  has_repeats [] = false
  has_repeats (members ∷ rest) = in_family rest members || has_repeats rest

  unfoldable pub same_family : List (List A) → List (List A) → Bool
  same_family claimed expected =
      all (in_family expected) claimed && all (in_family claimed) expected

  unfoldable pub family_verdict : List (List A) → List (List A) → Bool × String
  family_verdict claimed expected =
      if same_family claimed expected then (true, "") else (false, "family_mismatch")

  unfoldable pub compare_family : Profile → List (List A) → List (List A) → Bool × String
  compare_family grounded claimed expected =
      if is_empty expected then (false, "reference_incomplete") else family_verdict claimed expected
  compare_family profile claimed expected = family_verdict claimed expected

  -- What follows the test of every claimed set.
  unfoldable pub coverage_verdict :
      Profile → List (List A) → List (List A) → Coverage → Bool × String
  coverage_verdict profile claimed expected discovered_only = (true, "")
  coverage_verdict profile claimed expected coverage = compare_family profile claimed expected

  -- The checks after those of the two strings.
  unfoldable pub verify_known :
      Profile → List A → List (A × A) → List (List A) → Coverage → Bool × String
  verify_known profile arguments defeats claimed coverage =
      let argument_set = dedup arguments in
      let attackers = adjacent_attackers argument_set defeats in
      if has_repeats claimed
      then (false, "family_mismatch")
      else if ltb hard_enumeration_argument_limit (length arguments)
      then (false, "reference_incomplete")
      else if ltb (min default_enumeration_subset_limit hard_enumeration_subset_limit)
          (2 ^ length argument_set)
      then (false, "reference_incomplete")
      else if not (all (independent_extension profile attackers argument_set defeats) claimed)
      then (false, "discovered_unsound")
      else coverage_verdict profile claimed
          (independent_family profile attackers argument_set defeats) coverage

  unfoldable pub verify_profile_family :
      Profile → List A → List (A × A) → List (List A) → Coverage → Bool × String
  verify_profile_family profile arguments defeats claimed (unknown_coverage name) =
      (false, "coverage_unknown")
  verify_profile_family (unknown_profile name) arguments defeats claimed coverage =
      (false, "profile_unknown")
  verify_profile_family profile arguments defeats claimed coverage =
      verify_known profile arguments defeats claimed coverage
