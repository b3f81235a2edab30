-- ===== src/Verifier/Family.antt =====
-- The verdicts of `verify_profile_family_v5`.
use juris_calculus.Prelude.{
  Key, ◌≡◌, ◌≢◌, ◌^◌, refl, Bool, true, false, not, List, arith, String, if◌then◌else◌, Bool-cases,
  ◌⊆◌, length, has, sort, has-sort, and-right, set_eq, set_eq_at, dedup, all, filter, is_empty,
  mem-filter, mem-filter_of, all_at_Elem, Elem-filter_of, Elem_of_any, Memᴰ, pair_key, inl, inr,
  min, ltb,
}
use juris_calculus.Dung.{IsGrounded-ext, IsComplete-ext, IsPreferred-ext, IsStable-ext}
use juris_calculus.Profile.{
  Profile, grounded, stable, complete, preferred, unknown_profile, subsets,
  hard_enumeration_argument_limit, default_enumeration_subset_limit, hard_enumeration_subset_limit,
}
use juris_calculus.Profile.Subsets.{filter-Memᴰ-subsets}
use juris_calculus.Profile.Family.{Enumerates}
use juris_calculus.Profile.Evaluate.{IsExtension}
use juris_calculus.Verifier.{
  Coverage, exact, discovered_only, unknown_coverage, in_family, same_family, family_verdict,
  coverage_verdict, compare_family, has_repeats, grounded_family, independent_family,
  adjacent_attackers, independent_extension, verify_known, verify_profile_family,
}
use juris_calculus.Verifier.Fixpoint.{independent_grounded-IsGrounded}
use juris_calculus.Verifier.Verified.{dedup-dedup, independent_extension-IsExtension}

-- A rejecting branch that a verdict of `True` has passed.
passed :
    (b : Bool) (reason : String) (later : Bool × String)
    → (if b then (false, reason) else later).0 ≡ true
    → (b ≡ false) × (later.0 ≡ true)
passed true reason later h = cc
passed false reason later h = (refl, h)

module _ {ℓ} {A : Type ℓ} ⦃k : Key A⦄ where
  IsExtension-ext :
      (p : Profile) (args : List A) (defeats : List (A × A)) (s t : List A)
      → s ⊆ t
      → t ⊆ s
      → IsExtension p args defeats s
      → IsExtension p args defeats t
  IsExtension-ext grounded args defeats s t down up v = IsGrounded-ext down up v
  IsExtension-ext stable args defeats s t down up v = IsStable-ext down up v
  IsExtension-ext complete args defeats s t down up v = IsComplete-ext down up v
  IsExtension-ext preferred args defeats s t down up v = IsPreferred-ext down up v
  IsExtension-ext (unknown_profile name) args defeats s t down up v = absurd (v tt)

  enumerated-full :
      (p : Profile) (args : List A) (nodup : dedup args ≡ args) (defeats : List (A × A))
      → ((name : String) → p ≢ unknown_profile name)
      → (t : List A) → t ⊆ args
      → IsExtension p args defeats t
      → (s : List A) × Memᴰ s (
          filter
            (independent_extension p (adjacent_attackers args defeats) args defeats)
            (subsets (sort args) (2 ^ length (sort args))))
        × (s ⊆ t)
        × (t ⊆ s)
  enumerated-full p args nodup defeats supported t within v =
      let s = filter (λ a. has a t) (sort args) in
      let down : s ⊆ t = λ a m. (mem-filter (λ x. has x t) (sort args) a m).1 in
      let up : t ⊆ s =
        λ a m. mem-filter_of (λ x. has x t) (sort args) a (rw has-sort (within a m)) m in
      let test =
        (independent_extension-IsExtension args nodup defeats p s supported).1
          (IsExtension-ext p args defeats t s up down v) in
      (
        s,
        Elem-filter_of (independent_extension p (adjacent_attackers args defeats) args defeats) _ s
            (filter-Memᴰ-subsets (λ a. has a t) (sort args)) test,
        down,
        up,
      )

  independent_family-full :
      (p : Profile) (args : List A) (nodup : dedup args ≡ args) (defeats : List (A × A))
      → ((name : String) → p ≢ unknown_profile name)
      → (t : List A) → IsExtension p args defeats t
      → (s : List A) × Memᴰ s (independent_family p (adjacent_attackers args defeats) args defeats)
        × (s ⊆ t)
        × (t ⊆ s)
  unfolding independent_family grounded_family
  independent_family-full grounded args nodup defeats supported t v =
      let (fixed, e, w) = independent_grounded-IsGrounded args nodup defeats in
      (fixed, rw e (Memᴰ.head refl), w.least t v.complete, v.least fixed w.complete)
  independent_family-full stable args nodup defeats supported t v =
      enumerated-full stable args nodup defeats supported t v.within v
  independent_family-full complete args nodup defeats supported t v =
      enumerated-full complete args nodup defeats supported t v.admissible.within v
  independent_family-full preferred args nodup defeats supported t v =
      enumerated-full preferred args nodup defeats supported t v.admissible.within v
  independent_family-full (unknown_profile name) args nodup defeats supported t v =
      absurd (supported name refl)

  family_verdict-same :
      (claimed expected : List (List A))
      → (family_verdict claimed expected).0 ≡ true
      → same_family claimed expected ≡ true
  unfolding family_verdict
  family_verdict-same claimed expected h = elim (Bool-cases (same_family claimed expected)) [
    | inl same ↦ same
    | inr apart ↦ cc (rw apart at h)
  ]

  compare_family-same :
      (p : Profile) (claimed expected : List (List A))
      → (compare_family p claimed expected).0 ≡ true
      → same_family claimed expected ≡ true
  unfolding compare_family
  compare_family-same grounded claimed expected h =
      family_verdict-same claimed expected (passed (is_empty expected) _ _ h).1
  compare_family-same stable claimed expected h = family_verdict-same claimed expected h
  compare_family-same complete claimed expected h = family_verdict-same claimed expected h
  compare_family-same preferred claimed expected h = family_verdict-same claimed expected h
  compare_family-same (unknown_profile name) claimed expected h =
      family_verdict-same claimed expected h

  -- A verdict of `True` passed the test of every claimed set, and the comparison after it.
  known_passed :
      (p : Profile) (arguments : List A) (defeats : List (A × A)) (claimed : List (List A))
      (coverage : Coverage)
      → (verify_known p arguments defeats claimed coverage).0 ≡ true
      → let args = dedup arguments in
        let atk = adjacent_attackers args defeats in
        (all (independent_extension p atk args defeats) claimed ≡ true)
        × ((coverage_verdict p claimed (independent_family p atk args defeats) coverage).0 ≡ true)
  unfolding verify_known
  known_passed p arguments defeats claimed coverage h =
      let args = dedup arguments in
      let (_, h1) = passed (has_repeats claimed) _ _ h in
      let (_, h2) = passed (ltb hard_enumeration_argument_limit (length arguments)) _ _ h1 in
      let (_, h3) =
        passed
          (ltb (min default_enumeration_subset_limit hard_enumeration_subset_limit)
            (2 ^ length args))
          _ _ h2 in
      let (tested, h4) =
        passed
          (not
            (all (independent_extension p (adjacent_attackers args defeats) args defeats) claimed))
          _ _ h3 in
      (ground (arith, tested), h4)

  known_verdict :
      (p : Profile) (arguments : List A) (defeats : List (A × A)) (claimed : List (List A))
      (coverage : Coverage)
      → (verify_profile_family p arguments defeats claimed coverage).0 ≡ true
      → ((verify_known p arguments defeats claimed coverage).0 ≡ true)
        × ((name : String) → p ≢ unknown_profile name)
  unfolding verify_profile_family
  known_verdict p arguments defeats claimed (unknown_coverage name) h = cc
  known_verdict (unknown_profile name) arguments defeats claimed exact h = cc
  known_verdict (unknown_profile name) arguments defeats claimed discovered_only h = cc
  known_verdict grounded arguments defeats claimed exact h = (h, λ name e. cc)
  known_verdict grounded arguments defeats claimed discovered_only h = (h, λ name e. cc)
  known_verdict stable arguments defeats claimed exact h = (h, λ name e. cc)
  known_verdict stable arguments defeats claimed discovered_only h = (h, λ name e. cc)
  known_verdict complete arguments defeats claimed exact h = (h, λ name e. cc)
  known_verdict complete arguments defeats claimed discovered_only h = (h, λ name e. cc)
  known_verdict preferred arguments defeats claimed exact h = (h, λ name e. cc)
  known_verdict preferred arguments defeats claimed discovered_only h = (h, λ name e. cc)

  -- Whenever the verdict is `True`, under either coverage, every claimed set is an extension of the
  -- profile over the set of arguments.
  pub verified-IsExtension :
      (p : Profile) (arguments : List A) (defeats : List (A × A)) (claimed : List (List A))
      (coverage : Coverage)
      → (verify_profile_family p arguments defeats claimed coverage).0 ≡ true
      → (s : List A) → Memᴰ s claimed
      → IsExtension p (dedup arguments) defeats s
  verified-IsExtension p arguments defeats claimed coverage h s m =
      let (inner, supported) = known_verdict p arguments defeats claimed coverage h in
      let (tested, _) = known_passed p arguments defeats claimed coverage inner in
      (independent_extension-IsExtension (dedup arguments) (dedup-dedup arguments) defeats p s
          supported).0
        (all_at_Elem _ claimed s tested m)

  -- Whenever an exact claim is verified, the claimed sets are exactly the extensions of the profile
  -- over the set of arguments, up to the order and repetition of members.
  pub verified-Enumerates :
      (p : Profile) (arguments : List A) (defeats : List (A × A)) (claimed : List (List A))
      → (verify_profile_family p arguments defeats claimed exact).0 ≡ true
      → Enumerates (IsExtension p (dedup arguments) defeats) claimed
  unfolding coverage_verdict same_family in_family
  verified-Enumerates p arguments defeats claimed h =
      let args = dedup arguments in
      let (inner, supported) = known_verdict p arguments defeats claimed exact h in
      let (_, last) = known_passed p arguments defeats claimed exact inner in
      let same = compare_family-same p claimed _ last in
      record {
        sound = verified-IsExtension p arguments defeats claimed exact h;
        full = λ t v.
            let (s, listed, down, up) =
              independent_family-full p args (dedup-dedup arguments) defeats supported t v in
            let (u, i, e) =
              Elem_of_any (λ other. set_eq s other) claimed
                (all_at_Elem (in_family claimed) _ s (and-right (all (in_family _) claimed) _ same)
                  listed) in
            let (there, back) = set_eq_at s u e in
            (u, i, λ a m. down a (back a m), λ a m. there a (up a m));
      }
