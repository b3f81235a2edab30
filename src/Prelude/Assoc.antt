-- ===== src/Prelude/Assoc.antt =====
-- Dictionaries as association lists, and the flattened comprehension.
use juris_calculus.Prelude.Tests.{if◌then◌else◌, Bool-cases}
use juris_calculus.Prelude.Keys.{Key}
use juris_calculus.Prelude.Sets.{has, ◌∈◌, mem_head, mem_tail, mem_cases, not_mem_nil}
use mathlib.Core.Path.{◌≡◌, refl, sym, subst}
use mathlib.Core.Logic.{inl, inr}
use mathlib.Core.Option.{Option, none, some}
use mathlib.Core.List.{List, [], ◌∷◌, ◌++◌}
use native.Mathlib.Omega.{arith}

module _ {ℓ κ} {A : Type ℓ} {V : Type κ} ⦃k : Key A⦄ where
  -- `d.get(a)`.
  unfoldable pub lookup : A → List (A × V) → Option V
  lookup a [] = none
  lookup a ((b, v) ∷ d) = if k.beq a b then some v else lookup a d

module _ {ℓ κ} {A : Type ℓ} {V : Type κ} where
  -- `set(d.keys())`, before repetitions are dropped.
  unfoldable pub keys : List (A × V) → List A
  keys [] = []
  keys ((b, v) ∷ d) = b ∷ keys d

  -- The concatenation of `f(x)` for x in xs.
  unfoldable pub concat_map : (A → List V) → List A → List V
  concat_map f [] = []
  concat_map f (x ∷ xs) = f x ++ concat_map f xs

pub append-eq-nil {ℓ} : {A : Type ℓ} (xs ys : List A) → xs ++ ys ≡ [] → (xs ≡ []) × (ys ≡ [])
append-eq-nil [] ys h = (refl, h)
append-eq-nil (x ∷ xs) ys h = cc

module _ {ℓ κ} {A : Type ℓ} {V : Type κ} ⦃k : Key A⦄ where
  pub concat_map-nil_at :
      (f : A → List V) (xs : List A) (a : A) → concat_map f xs ≡ [] → a ∈ xs → f a ≡ []
  unfolding concat_map
  concat_map-nil_at f [] a h m = absurd (not_mem_nil a m)
  concat_map-nil_at f (x ∷ xs) a h m =
      let (now, later) = append-eq-nil (f x) (concat_map f xs) h in
      elim (mem_cases a x xs m) [
        | inl e ↦ subst (λ y. f y ≡ []) (sym e) now
        | inr r ↦ concat_map-nil_at f xs a later r
      ]

  pub concat_map-nil_of :
      (f : A → List V) (xs : List A) → ((a : A) → a ∈ xs → f a ≡ []) → concat_map f xs ≡ []
  unfolding concat_map
  concat_map-nil_of f [] g = refl
  concat_map-nil_of f (x ∷ xs) g =
      rw (g x (mem_head x xs)) (concat_map-nil_of f xs (λ a m. g a (mem_tail a x xs m)))

  pub lookup-some_of_mem : (a : A) (d : List (A × V)) → a ∈ keys d → (v : V) × (lookup a d ≡ some v)
  unfolding lookup keys has
  lookup-some_of_mem a [] h = cc
  lookup-some_of_mem a ((b, w) ∷ d) h = elim (Bool-cases (k.beq a b)) [
    | inl now ↦ (w, rw now)
    | inr later ↦ let (v, e) = lookup-some_of_mem a d (rw later at h) in (v, rw later e)
  ]

  pub mem_of_lookup_some : (a : A) (v : V) (d : List (A × V)) → lookup a d ≡ some v → a ∈ keys d
  unfolding lookup keys has
  mem_of_lookup_some a v [] h = cc
  mem_of_lookup_some a v ((b, w) ∷ d) h = ground (arith, mem_of_lookup_some a v d)

  -- A dictionary by comprehension, `{x: f(x) for x in xs}`.
  unfoldable pub tabulate : (A → V) → List A → List (A × V)
  tabulate f [] = []
  tabulate f (x ∷ xs) = (x, f x) ∷ tabulate f xs

  pub lookup-tabulate :
      (f : A → V) (xs : List A) (a : A) → a ∈ xs → lookup a (tabulate f xs) ≡ some (f a)
  unfolding lookup tabulate has
  lookup-tabulate f [] a m = cc
  lookup-tabulate f (x ∷ xs) a m = elim (Bool-cases (k.beq a x)) [
    | inl now ↦ rw now (subst (λ y. some (f y) ≡ some (f a)) ((k.beq_iff a x).0 now) refl)
    | inr later ↦ rw later (lookup-tabulate f xs a (rw later at m))
  ]

  pub keys-tabulate : (f : A → V) (xs : List A) → keys (tabulate f xs) ≡ xs
  unfolding keys tabulate
  keys-tabulate f [] = refl
  keys-tabulate f (x ∷ xs) = rw (keys-tabulate f xs)
