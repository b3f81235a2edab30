-- ===== src/Prelude/Sets.antt =====
-- Python's sets and frozensets as lists of members, of which only membership counts.
use mathlib.Core.Path.{◌≡◌, refl, sym, subst}
use mathlib.Core.Logic.{◌⊎◌, inl, inr}
use mathlib.Core.Bool.{Bool, true, false, ◌||◌}
use mathlib.Core.List.{List, [], ◌∷◌, ◌++◌}
use native.Mathlib.Omega.{arith}
use juris_calculus.Prelude.Tests.{Bool-cases, and-left, and-right, and-intro, not_of_false}
use juris_calculus.Prelude.Lists.{filter, all, any}
use juris_calculus.Prelude.Keys.{Key}

module _ {ℓ} {A : Type ℓ} ⦃k : Key A⦄ where
  -- `a in xs`.
  unfoldable pub has : A → List A → Bool
  has a [] = false
  has a (x ∷ xs) = k.beq a x || has a xs

  infix 50 ◌∈◌ ◌⊆◌
  abbrev pub ◌∈◌ : A → List A → Type 0
  a ∈ xs = has a xs ≡ true

  abbrev pub ◌⊆◌ : List A → List A → Type ℓ
  xs ⊆ ys = (a : A) → a ∈ xs → a ∈ ys

  pub beq_refl : (a : A) → k.beq a a ≡ true
  beq_refl a = (k.beq_iff a a).1 refl

  pub mem_head : (a : A) (xs : List A) → a ∈ (a ∷ xs)
  unfolding has
  mem_head a xs = ground (arith, beq_refl a)

  pub mem_tail : (a x : A) (xs : List A) → a ∈ xs → a ∈ (x ∷ xs)
  unfolding has
  mem_tail a x xs h = ground arith

  pub mem_cases : (a x : A) (xs : List A) → a ∈ (x ∷ xs) → (a ≡ x) ⊎ (a ∈ xs)
  unfolding has
  mem_cases a x xs h = ground (arith, k.beq_iff a x)

  pub not_mem_nil : (a : A) → ¬ (a ∈ [])
  unfolding has
  not_mem_nil a h = cc

  pub mem-append : (a : A) (xs ys : List A) → a ∈ (xs ++ ys) → (a ∈ xs) ⊎ (a ∈ ys)
  unfolding has
  mem-append a [] ys h = inr h
  mem-append a (x ∷ xs) ys h = ground (arith, mem-append a xs ys)

  pub mem-append_left : (a : A) (xs ys : List A) → a ∈ xs → a ∈ (xs ++ ys)
  unfolding has
  mem-append_left a [] ys h = cc
  mem-append_left a (x ∷ xs) ys h = ground (arith, mem-append_left a xs ys)

  pub mem-append_right : (a : A) (xs ys : List A) → a ∈ ys → a ∈ (xs ++ ys)
  unfolding has
  mem-append_right a [] ys h = h
  mem-append_right a (x ∷ xs) ys h = ground (arith, mem-append_right a xs ys h)

  pub all_at : (p : A → Bool) (xs : List A) (a : A) → all p xs ≡ true → a ∈ xs → p a ≡ true
  unfolding all
  all_at p [] a h m = absurd (not_mem_nil a m)
  all_at p (x ∷ xs) a h m = elim (mem_cases a x xs m) [
    | inl e ↦ subst (λ y. p y ≡ true) (sym e) (and-left _ _ h)
    | inr r ↦ all_at p xs a (and-right (p x) _ h) r
  ]

  pub all_of : (p : A → Bool) (xs : List A) → ((a : A) → a ∈ xs → p a ≡ true) → all p xs ≡ true
  unfolding all
  all_of p [] f = refl
  all_of p (x ∷ xs) f =
      and-intro (f x (mem_head x xs)) (all_of p xs (λ a m. f a (mem_tail a x xs m)))

  pub any_at : (p : A → Bool) (xs : List A) → any p xs ≡ true → (a : A) × (a ∈ xs) × (p a ≡ true)
  unfolding any
  any_at p [] h = cc
  any_at p (x ∷ xs) h = elim (Bool-cases (p x)) [
    | inl now ↦ (x, mem_head x xs, now)
    | inr later ↦ let (a, m, e) = any_at p xs (rw later at h) in (a, mem_tail a x xs m, e)
  ]

  pub any_of : (p : A → Bool) (xs : List A) (a : A) → a ∈ xs → p a ≡ true → any p xs ≡ true
  unfolding any
  any_of p [] a m e = absurd (not_mem_nil a m)
  any_of p (x ∷ xs) a m e = elim (mem_cases a x xs m) [
    | inl s ↦ rw (subst (λ y. p y ≡ true) s e)
    | inr r ↦ ground (arith, any_of p xs a r e)
  ]

  pub mem-filter : (p : A → Bool) (xs : List A) (a : A) → a ∈ filter p xs → (a ∈ xs) × (p a ≡ true)
  unfolding filter
  mem-filter p [] a m = absurd (not_mem_nil a m)
  mem-filter p (x ∷ xs) a m = elim (Bool-cases (p x)) [
    | inl now ↦ elim (mem_cases a x (filter p xs) (rw now at m)) [
      | inl e ↦ (rw e (mem_head x xs), rw e now)
      | inr r ↦ let (i, q) = mem-filter p xs a r in (mem_tail a x xs i, q)
    ]
    | inr later ↦ let (i, q) = mem-filter p xs a (rw later at m) in (mem_tail a x xs i, q)
  ]

  pub mem-filter_of : (p : A → Bool) (xs : List A) (a : A) → a ∈ xs → p a ≡ true → a ∈ filter p xs
  unfolding filter
  mem-filter_of p [] a m e = absurd (not_mem_nil a m)
  mem-filter_of p (x ∷ xs) a m e = elim (Bool-cases (p x)) [
    | inl now ↦ elim (mem_cases a x xs m) [
      | inl s ↦ rw (now, s) (mem_head x (filter p xs))
      | inr r ↦ rw now (mem_tail a x (filter p xs) (mem-filter_of p xs a r e))
    ]
    | inr later ↦ elim (mem_cases a x xs m) [
      | inl s ↦ absurd (not_of_false (subst (λ y. p y ≡ false) (sym s) later) e)
      | inr r ↦ rw later (mem-filter_of p xs a r e)
    ]
  ]

  pub nil_of_not_mem : (xs : List A) → ((a : A) → ¬ (a ∈ xs)) → xs ≡ []
  nil_of_not_mem [] f = refl
  nil_of_not_mem (x ∷ xs) f = absurd (f x (mem_head x xs))
