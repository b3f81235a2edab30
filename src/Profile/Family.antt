-- ===== src/Profile/Family.antt =====
-- Families of sets that hold exactly the sets with a property, up to membership.
use juris_calculus.Prelude.{
  Key, ℕ, ◌^◌, ◌≡◌, Bool, true, false, not, List, arith, Bool-cases, and-left, false_of_not,
  not_of_false, length, filter, any, has, ◌⊆◌, subset, subset_at, subset_of, set_eq, set_eq_at,
  set_eq_of, mem-filter, mem-filter_of, Memᴰ, Elem-filter, Elem-filter_of, any_of_Elem, Elem_of_any,
  inl, inr, pair_key,
}
use juris_calculus.Dung.{
  IsAdmissible, IsComplete, IsStable, IsPreferred, IsAdmissible-ext, IsComplete-ext, IsStable-ext,
  IsPreferred-ext,
}
use juris_calculus.Grounded.Step.{Attacks}
use juris_calculus.Profile.{
  Arrange, subsets, is_admissible, is_stable, characteristic, strict_subset, admissible_sets,
  maximal_sets,
}
use juris_calculus.Profile.Subsets.{filter-Memᴰ-subsets, subsets_within}
use juris_calculus.Profile.Decides.{
  Known, is_admissible_at, is_admissible_of, mem-characteristic, is_stable_at, is_stable_of,
}

module _ {ℓ} {A : Type ℓ} ⦃k : Key A⦄ where
  pub record Enumerates (P : List A → Type ℓ) (family : List (List A)) : Type ℓ where
    pub sound : (s : List A) → Memᴰ s family → P s
    pub full : (t : List A) → P t → (s : List A) × Memᴰ s family × (s ⊆ t) × (t ⊆ s)

  -- A filter of such a family, by a test that decides a narrower property on it.
  Enumerates-filter :
      (P Q : List A → Type ℓ) (test : List A → Bool) (family : List (List A))
      → Enumerates P family
      → ((s : List A) → P s → test s ≡ true → Q s)
      → ((s : List A) → Q s → P s × (test s ≡ true))
      → ((s t : List A) → s ⊆ t → t ⊆ s → Q s → Q t)
      → Enumerates Q (filter test family)
  Enumerates-filter P Q test family v narrow wide ext = record {
    sound = λ s m. let (i, e) = Elem-filter test family s m in narrow s (v.sound s i) e;
    full = λ t q.
        let (s, m, down, up) = v.full t (wide t q).0 in
        let w = wide s (ext t s up down q) in (s, Elem-filter_of test family s m w.1, down, up);
  }

  pub Enumerates-arrange :
      (sorted : Arrange A) (P : List A → Type ℓ) (family : List (List A))
      → Enumerates P family
      → Enumerates P (sorted.arrange family)
  Enumerates-arrange sorted P family v = record {
    sound = λ s m. v.sound s ((sorted.arrange_mem s family).0 m);
    full = λ t p.
        let (s, m, down, up) = v.full t p in (s, (sorted.arrange_mem s family).1 m, down, up);
  }

  Enumerates-subsets : (args : List A) → Enumerates (λ s. s ⊆ args) (subsets args (2 ^ length args))
  Enumerates-subsets args = record {
    sound = λ s m. subsets_within args s (2 ^ length args) m;
    full = λ t within. (
      filter (λ a. has a t) args,
      filter-Memᴰ-subsets (λ a. has a t) args,
      λ a m. (mem-filter (λ x. has x t) args a m).1,
      λ a m. mem-filter_of (λ x. has x t) args a (within a m) m,
    );
  }

module _ {ℓ} {A : Type ℓ} ⦃k : Key A⦄ (args : List A) (defeats : List (A × A))
    (known : Known args defeats) where
  abbrev Hits : A → A → Type 0
  Hits = Attacks args defeats

  abbrev total : ℕ
  total = 2 ^ length args

  pub IsStable-family :
      Enumerates (IsStable args Hits) (filter (is_stable args defeats) (subsets args total))
  IsStable-family =
      Enumerates-filter (λ s. s ⊆ args) (IsStable args Hits) (is_stable args defeats)
        (subsets args total) (Enumerates-subsets args)
        (λ s within e. is_stable_at args defeats known s within e)
        (λ s v. (v.within, is_stable_of args defeats known s v))
        (λ s t down up v. IsStable-ext down up v)

  pub IsAdmissible-family : Enumerates (IsAdmissible args Hits) (admissible_sets args defeats total)
  unfolding admissible_sets
  IsAdmissible-family =
      Enumerates-filter (λ s. s ⊆ args) (IsAdmissible args Hits) (λ s. is_admissible s defeats)
        (subsets args total) (Enumerates-subsets args)
        (λ s within e. is_admissible_at args defeats known s within e)
        (λ s v. (v.within, is_admissible_of args defeats known s v))
        (λ s t down up v. IsAdmissible-ext down up v)

  abbrev fixed_test : List A → Bool
  fixed_test s = set_eq (characteristic args defeats s) s

  IsComplete-of :
      (s : List A) → IsAdmissible args Hits s → fixed_test s ≡ true → IsComplete args Hits s
  IsComplete-of s v e =
      let (down, up) = set_eq_at (characteristic args defeats s) s e in
      record {
        admissible = v;
        closed = λ c m f. down c ((mem-characteristic args defeats known s c).1 (m, f));
      }

  fixed_of : (s : List A) → IsComplete args Hits s → fixed_test s ≡ true
  fixed_of s v =
      set_eq_of (characteristic args defeats s) s
        (λ c m. let (i, f) = (mem-characteristic args defeats known s c).0 m in v.closed c i f)
        (λ c m.
          (mem-characteristic args defeats known s c).1
            (v.admissible.within c m, v.admissible.defended c m))

  pub IsComplete-family :
      Enumerates (IsComplete args Hits) (filter fixed_test (admissible_sets args defeats total))
  IsComplete-family =
      Enumerates-filter (IsAdmissible args Hits) (IsComplete args Hits) fixed_test
        (admissible_sets args defeats total) IsAdmissible-family IsComplete-of
        (λ s v. (v.admissible, fixed_of s v)) (λ s t down up v. IsComplete-ext down up v)

  abbrev beaten : List A → Bool
  beaten s = any (λ other. strict_subset s other) (admissible_sets args defeats total)

  IsPreferred-of :
      (s : List A) → IsAdmissible args Hits s → not (beaten s) ≡ true → IsPreferred args Hits s
  unfolding strict_subset
  IsPreferred-of s v e = record {
    admissible = v;
    maximal = λ t w up a m.
        let (u, i, down, back) = IsAdmissible-family.full t w in
        let inside : subset s u ≡ true = subset_of s u (λ b j. back b (up b j)) in
        let open_case : ¬ (subset u s ≡ false) = λ out.
          let hit : beaten s ≡ true =
            any_of_Elem (λ other. strict_subset s other) _ u i (ground (arith, inside, out)) in
          not_of_false (ground (arith, e)) hit in
        elim (Bool-cases (subset u s)) [
          | inl whole ↦ subset_at u s whole a (back a m)
          | inr out ↦ absurd (open_case out)
        ];
  }

  unbeaten_of : (s : List A) → IsPreferred args Hits s → not (beaten s) ≡ true
  unfolding strict_subset
  unbeaten_of s v = rw (false_of_not nothing_larger)
    where
      nothing_larger : ¬ (beaten s ≡ true)
      nothing_larger h =
          let (u, i, e) = Elem_of_any (λ other. strict_subset s other) _ h in
          let inside = subset_at s u (and-left _ _ e) in
          let whole = subset_of u s (v.maximal u (IsAdmissible-family.sound u i) inside) in
          not_of_false (ground (arith, whole, e)) whole

  pub IsPreferred-family :
      Enumerates (IsPreferred args Hits) (maximal_sets (admissible_sets args defeats total))
  unfolding maximal_sets
  IsPreferred-family =
      Enumerates-filter (IsAdmissible args Hits) (IsPreferred args Hits) (λ s. not (beaten s))
        (admissible_sets args defeats total) IsAdmissible-family IsPreferred-of
        (λ s v. (v.admissible, unbeaten_of s v)) (λ s t down up v. IsPreferred-ext down up v)
