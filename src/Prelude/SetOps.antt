-- ===== src/Prelude/SetOps.antt =====
-- The operations of Python's sets: construction, `add`, `<=`, `==`, `&`, `-`, and sizes.
use juris_calculus.Prelude.Tests.{if◌then◌else◌, Bool-cases, and-left, and-right, and-intro}
use juris_calculus.Prelude.Lists.{length, filter, all, any}
use juris_calculus.Prelude.Keys.{Key}
use juris_calculus.Prelude.Sets.{
  has, ◌∈◌, ◌⊆◌, mem_head, mem_tail, mem_cases, not_mem_nil, all_at, all_of, any_at, any_of,
  mem-filter, mem-filter_of,
}
use Prim.Native.Nat.{◌≤◌, ◌<◌}
use mathlib.Core.Path.{◌≡◌, sym, subst}
use mathlib.Core.Logic.{◌↔◌, ◌⊎◌, inl, inr}
use mathlib.Core.Bool.{Bool, true, false, not, ◌&&◌}
use mathlib.Core.List.{List, [], ◌∷◌}
use native.Mathlib.Omega.{arith}

module _ {ℓ} {A : Type ℓ} ⦃k : Key A⦄ where
  -- `xs.add(a)`.
  unfoldable pub add : A → List A → List A
  unfolding has
  add a xs = if has a xs then xs else a ∷ xs

  -- `set(xs)`.
  unfoldable pub dedup : List A → List A
  unfolding add
  dedup [] = []
  dedup (x ∷ xs) = add x (dedup xs)

  -- `xs <= ys` and `xs == ys`.
  unfoldable pub subset : List A → List A → Bool
  unfolding has all
  subset xs ys = all (λ a. has a ys) xs

  unfoldable pub set_eq : List A → List A → Bool
  unfolding subset
  set_eq xs ys = subset xs ys && subset ys xs

  -- The truth value of `xs & ys`.
  unfoldable pub meets : List A → List A → Bool
  unfolding has any
  meets xs ys = any (λ a. has a ys) xs

  -- `xs - ys`.
  unfoldable pub diff : List A → List A → List A
  unfolding has filter
  diff xs ys = filter (λ a. not (has a ys)) xs

  abbrev pub IsNodup : List A → Type 0
  IsNodup [] = Unit
  IsNodup (x ∷ xs) = (has x xs ≡ false) × IsNodup xs

  pub mem-add_self : (a : A) (xs : List A) → a ∈ add a xs
  unfolding add
  mem-add_self a xs = elim (Bool-cases (has a xs)) [
    | inl old ↦ rw old old
    | inr new ↦ rw new (mem_head a xs)
  ]

  pub mem-add_of : (a b : A) (xs : List A) → b ∈ xs → b ∈ add a xs
  unfolding add
  mem-add_of a b xs h = elim (Bool-cases (has a xs)) [
    | inl old ↦ rw old h
    | inr new ↦ rw new (mem_tail b a xs h)
  ]

  pub mem-add : (a b : A) (xs : List A) → b ∈ add a xs → (b ≡ a) ⊎ (b ∈ xs)
  unfolding add
  mem-add a b xs h = elim (Bool-cases (has a xs)) [
    | inl old ↦ inr (rw old at h)
    | inr new ↦ mem_cases b a xs (rw new at h)
  ]

  pub mem-dedup : (a : A) (xs : List A) → (a ∈ dedup xs) ↔ (a ∈ xs)
  unfolding dedup
  mem-dedup a [] = (λ h. h, λ h. h)
  mem-dedup a (x ∷ xs) = (
    λ h. elim (mem-add x a (dedup xs) h) [
      | inl e ↦ subst (λ y. y ∈ (x ∷ xs)) (sym e) (mem_head x xs)
      | inr r ↦ mem_tail a x xs ((mem-dedup a xs).0 r)
    ],
    λ h. elim (mem_cases a x xs h) [
      | inl e ↦ subst (λ y. y ∈ add x (dedup xs)) (sym e) (mem-add_self x (dedup xs))
      | inr r ↦ mem-add_of x a (dedup xs) ((mem-dedup a xs).1 r)
    ],
  )

  pub dedup-IsNodup : (xs : List A) → IsNodup (dedup xs)
  unfolding dedup add
  dedup-IsNodup [] = tt
  dedup-IsNodup (x ∷ xs) = elim (Bool-cases (has x (dedup xs))) [
    | inl old ↦ rw old (dedup-IsNodup xs)
    | inr new ↦ rw new (new, dedup-IsNodup xs)
  ]

  pub subset_at : (xs ys : List A) → subset xs ys ≡ true → xs ⊆ ys
  unfolding subset
  subset_at xs ys h a m = all_at (λ x. has x ys) xs a h m

  pub subset_of : (xs ys : List A) → xs ⊆ ys → subset xs ys ≡ true
  unfolding subset
  subset_of xs ys f = all_of (λ x. has x ys) xs f

  pub set_eq_at : (xs ys : List A) → set_eq xs ys ≡ true → (xs ⊆ ys) × (ys ⊆ xs)
  unfolding set_eq
  set_eq_at xs ys h =
      (subset_at xs ys (and-left _ _ h), subset_at ys xs (and-right (subset xs ys) _ h))

  pub set_eq_of : (xs ys : List A) → xs ⊆ ys → ys ⊆ xs → set_eq xs ys ≡ true
  unfolding set_eq
  set_eq_of xs ys f g = and-intro (subset_of xs ys f) (subset_of ys xs g)

  pub meets_at : (xs ys : List A) → meets xs ys ≡ true → (a : A) × (a ∈ xs) × (a ∈ ys)
  unfolding meets
  meets_at xs ys h = any_at (λ x. has x ys) xs h

  pub meets_of : (xs ys : List A) (a : A) → a ∈ xs → a ∈ ys → meets xs ys ≡ true
  unfolding meets
  meets_of xs ys a m n = any_of (λ x. has x ys) xs a m n

  pub mem-diff : (a : A) (xs ys : List A) → a ∈ diff xs ys → (a ∈ xs) × (has a ys ≡ false)
  unfolding diff
  mem-diff a xs ys h = let (m, e) = mem-filter (λ x. not (has x ys)) xs a h in (m, ground arith)

  pub mem-diff_of : (a : A) (xs ys : List A) → a ∈ xs → has a ys ≡ false → a ∈ diff xs ys
  unfolding diff
  mem-diff_of a xs ys m e = mem-filter_of (λ x. not (has x ys)) xs a m (rw e)

-- Two filters of one list, the first test implying the second: the sizes are ordered, and strictly
-- where some member passes the second test alone.
module _ {ℓ} {A : Type ℓ} ⦃k : Key A⦄ (p q : A → Bool) where
  pub length-filter_mono :
      (xs : List A)
      → ((a : A) → a ∈ xs → p a ≡ true → q a ≡ true)
      → length (filter p xs) ≤ length (filter q xs)
  unfolding filter
  length-filter_mono [] f = omega arith
  length-filter_mono (x ∷ xs) f =
      let ih = length-filter_mono xs (λ a m. f a (mem_tail a x xs m)) in
      ground (arith, f x (mem_head x xs), ih)

  pub length-filter_strict :
      (xs : List A) (y : A)
      → ((a : A) → a ∈ xs → p a ≡ true → q a ≡ true)
      → y ∈ xs
      → q y ≡ true
      → p y ≡ false
      → length (filter p xs) < length (filter q xs)
  unfolding filter
  length-filter_strict [] y f m s t = absurd (not_mem_nil y m)
  length-filter_strict (x ∷ xs) y f m s t = elim (mem_cases y x xs m) [
    | inl e ↦
        let qx : q x ≡ true = rw (← e) s in
        let px : p x ≡ false = rw (← e) t in
        let mono = length-filter_mono xs (λ a n. f a (mem_tail a x xs n)) in
        rw (qx, px) (omega (arith, mono))
    | inr r ↦
        let ih = length-filter_strict xs y (λ a n. f a (mem_tail a x xs n)) r s t in
        ground (arith, f x (mem_head x xs), ih)
  ]

-- Of a test that fails somewhere, the member at which it fails.
pub all_fails {ℓ} :
    {A : Type ℓ} ⦃k : Key A⦄ (p : A → Bool) (xs : List A)
    → all p xs ≡ false
    → (a : A) × (a ∈ xs) × (p a ≡ false)
unfolding all
all_fails p [] h = cc
all_fails p (x ∷ xs) h = elim (Bool-cases (p x)) [
  | inl good ↦ let (a, m, e) = all_fails p xs (rw good at h) in (a, mem_tail a x xs m, e)
  | inr bad ↦ (x, mem_head x xs, bad)
]
