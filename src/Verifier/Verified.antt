-- ===== src/Verifier/Verified.antt =====
-- What `verify_profile_family_v5` accepts.
use juris_calculus.Prelude.{
  Key, ◌≡◌, refl, sym, ap, ◌∙◌, ◌↔◌, true, false, List, [], ◌∷◌, arith, String, Bool-cases, add,
  has, subset_at, subset_of, subset, set_eq_at, set_eq_of, dedup, pair_key, inl, inr,
}
use juris_calculus.Dung.{IsGrounded, IsGrounded-ext}
use juris_calculus.Grounded.Step.{Attacks}
use juris_calculus.Profile.{Profile, grounded, stable, complete, preferred, unknown_profile}
use juris_calculus.Profile.Evaluate.{IsExtension}
use juris_calculus.Verifier.{
  adjacent_attackers, is_grounded_by, independent_grounded, independent_extension,
}
use juris_calculus.Verifier.Fixpoint.{independent_grounded-IsGrounded}
use juris_calculus.Verifier.Extension.{stable_extension, complete_extension, preferred_extension}

module _ {ℓ} {A : Type ℓ} ⦃k : Key A⦄ where
  add_new : (x : A) (xs : List A) → has x xs ≡ false → add x xs ≡ x ∷ xs
  unfolding add
  add_new x xs h = rw h

  add_old : (x : A) (xs : List A) → has x xs ≡ true → add x xs ≡ xs
  unfolding add
  add_old x xs h = rw h

  pub dedup-dedup : (xs : List A) → dedup (dedup xs) ≡ dedup xs
  unfolding dedup
  dedup-dedup [] = refl
  dedup-dedup (x ∷ xs) = elim (Bool-cases (has x (dedup xs))) [
    | inl old ↦
        ap dedup (add_old x (dedup xs) old) ∙ dedup-dedup xs ∙ sym (add_old x (dedup xs) old)
    | inr new ↦ ap dedup (add_new x (dedup xs) new) ∙ ap (add x) (dedup-dedup xs)
  ]

module _ {ℓ} {A : Type ℓ} ⦃k : Key A⦄ (args : List A) (nodup : dedup args ≡ args)
    (defeats : List (A × A)) where
  abbrev Hits : A → A → Type 0
  Hits = Attacks args defeats

  abbrev atk : A → List A
  atk = adjacent_attackers args defeats

  IsGrounded-test :
      (s : List A)
      → (is_grounded_by (independent_grounded atk args) s ≡ true) ↔ IsGrounded args Hits s
  unfolding is_grounded_by
  IsGrounded-test s =
      let (fixed, e, v) = independent_grounded-IsGrounded args nodup defeats in
      rw e (
        (λ h. let (down, up) = set_eq_at s fixed h in IsGrounded-ext up down v),
        (λ w. set_eq_of s fixed (w.least fixed v.complete) (v.least s w.complete)),
      )

  -- The definition-driven membership test decides the extensions of every supported profile.
  pub independent_extension-IsExtension :
      (p : Profile) (s : List A)
      → ((name : String) → ¬ (p ≡ unknown_profile name))
      → (independent_extension p atk args defeats s ≡ true) ↔ IsExtension p args defeats s
  unfolding independent_extension
  independent_extension-IsExtension grounded s supported = (
    λ h. (IsGrounded-test s).0 (ground (arith, h)),
    λ v. rw (subset_of s args v.complete.admissible.within) ((IsGrounded-test s).1 v),
  )
  independent_extension-IsExtension stable s supported = (
    λ h.
        let within : subset s args ≡ true = ground (arith, h) in
        (stable_extension args defeats s (subset_at s args within)).0 (ground (arith, h)),
    λ v. rw (subset_of s args v.within) ((stable_extension args defeats s v.within).1 v),
  )
  independent_extension-IsExtension complete s supported = (
    λ h. (complete_extension args defeats s).0 (ground (arith, h)),
    λ v. rw (subset_of s args v.admissible.within) ((complete_extension args defeats s).1 v),
  )
  independent_extension-IsExtension preferred s supported = (
    λ h. (preferred_extension args defeats s).0 (ground (arith, h)),
    λ v. rw (subset_of s args v.admissible.within) ((preferred_extension args defeats s).1 v),
  )
  independent_extension-IsExtension (unknown_profile name) s supported =
      absurd (supported name refl)
