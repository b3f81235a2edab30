-- ===== src/Examples/Verification.antt =====
-- Runs of the family verification.
use juris_calculus.Prelude.{
  ◌≡◌, refl, ap, true, false, List, [], ◌∷◌, String, string_key, pair_key, runs, Memᴰ, dedup,
}
use juris_calculus.Profile.{stable, preferred, bit, subset_from, subsets}
use juris_calculus.Profile.Family.{Enumerates}
use juris_calculus.Profile.Evaluate.{IsExtension}
use juris_calculus.Verifier.{
  exact, discovered_only, adjacent_attackers, is_conflict_free, defends, is_admissible_by,
  characteristic_by, is_maximal_by, enumerated_extension, independent_extension, independent_family,
  in_family, has_repeats, same_family, family_verdict, compare_family, coverage_verdict,
  verify_known, verify_profile_family,
}
use juris_calculus.Verifier.Family.{verified-IsExtension, verified-Enumerates}

abbrev arguments : List String
arguments = "a" ∷ "b" ∷ "c" ∷ []

abbrev defeats : List (String × String)
defeats = ("a", "b") ∷ ("b", "a") ∷ ("b", "c") ∷ []

abbrev both : List (List String)
both = ("b" ∷ []) ∷ ("c" ∷ "a" ∷ []) ∷ []

abbrev one : List (List String)
one = ("c" ∷ "a" ∷ []) ∷ []

unfoldable verified : Unit {0}
unfolding adjacent_attackers is_conflict_free defends is_admissible_by characteristic_by
    is_maximal_by enumerated_extension independent_extension independent_family in_family
    has_repeats same_family family_verdict compare_family coverage_verdict verify_known
    verify_profile_family bit subset_from subsets runs
verified = tt

exact_run : verify_profile_family stable arguments defeats both exact ≡ (true, "")
unfolding verified
exact_run = refl

omission_run : verify_profile_family stable arguments defeats one exact ≡ (false, "family_mismatch")
unfolding verified
omission_run = refl

discovered_run : verify_profile_family preferred arguments defeats one discovered_only ≡ (true, "")
unfolding verified
discovered_run = refl

unsound_run :
    verify_profile_family preferred arguments defeats (("a" ∷ []) ∷ []) exact
    ≡ (false, "discovered_unsound")
unfolding verified
unsound_run = refl

verified-Enumerates_example : Enumerates (IsExtension stable (dedup arguments) defeats) both
verified-Enumerates_example =
    verified-Enumerates stable arguments defeats both (ap (λ v. v.0) exact_run)

verified-IsExtension_example : IsExtension preferred (dedup arguments) defeats ("c" ∷ "a" ∷ [])
verified-IsExtension_example =
    verified-IsExtension preferred arguments defeats one discovered_only
      (ap (λ v. v.0) discovered_run) ("c" ∷ "a" ∷ []) (Memᴰ.head refl)
