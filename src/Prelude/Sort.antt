-- ===== src/Prelude/Sort.antt =====
-- `sorted(...)` of identifiers by their total order, and its canonical result.
use juris_calculus.Prelude.Tests.{if◌then◌else◌, Bool-cases, not_of_false}
use juris_calculus.Prelude.Lists.{length}
use juris_calculus.Prelude.Keys.{Key}
use juris_calculus.Prelude.Sets.{has, ◌∈◌, ◌⊆◌, mem_head, mem_tail, mem_cases, not_mem_nil}
use juris_calculus.Prelude.SetOps.{IsNodup}
use Prim.Native.Nat.{suc}
use mathlib.Core.Path.{◌≡◌, refl, sym, subst, ap₂, ◌∙◌}
use mathlib.Core.Logic.{inl, inr}
use mathlib.Core.Bool.{true, false}
use mathlib.Core.List.{List, [], ◌∷◌}
use native.Mathlib.Omega.{arith}

module _ {ℓ} {A : Type ℓ} ⦃k : Key A⦄ where
  unfoldable pub place : A → List A → List A
  place a [] = a ∷ []
  place a (x ∷ xs) = if k.le a x then a ∷ x ∷ xs else x ∷ place a xs

  unfoldable pub sort : List A → List A
  unfolding place
  sort [] = []
  sort (x ∷ xs) = place x (sort xs)

  has-place : (b a : A) (xs : List A) → has b (place a xs) ≡ has b (a ∷ xs)
  unfolding place has
  has-place b a [] = refl
  has-place b a (x ∷ xs) = ground (arith, has-place b a xs)

  pub has-sort : (a : A) (xs : List A) → has a (sort xs) ≡ has a xs
  unfolding sort has
  has-sort a [] = refl
  has-sort a (x ∷ xs) = ground (arith, has-place a x (sort xs), has-sort a xs)

  pub length-place : (a : A) (xs : List A) → length (place a xs) ≡ suc (length xs)
  unfolding place
  length-place a [] = refl
  length-place a (x ∷ xs) = ground (arith, length-place a xs)

  pub length-sort : (xs : List A) → length (sort xs) ≡ length xs
  unfolding sort
  length-sort [] = refl
  length-sort (x ∷ xs) = ground (arith, length-place x (sort xs), length-sort xs)

  abbrev pub AllAbove : A → List A → Type 0
  AllAbove a [] = Unit
  AllAbove a (x ∷ xs) = (k.le a x ≡ true) × AllAbove a xs

  abbrev pub IsSorted : List A → Type 0
  IsSorted [] = Unit
  IsSorted (x ∷ xs) = AllAbove x xs × IsSorted xs

  AllAbove-trans : (a b : A) (xs : List A) → k.le a b ≡ true → AllAbove b xs → AllAbove a xs
  AllAbove-trans a b [] h m = tt
  AllAbove-trans a b (x ∷ xs) h m = (k.le_trans a b x h m.0, AllAbove-trans a b xs h m.1)

  AllAbove-place :
      (a b : A) (xs : List A) → k.le a b ≡ true → AllAbove a xs → AllAbove a (place b xs)
  unfolding place
  AllAbove-place a b [] h m = (h, tt)
  AllAbove-place a b (x ∷ xs) h m = elim (Bool-cases (k.le b x)) [
    | inl low ↦ rw low (h, m)
    | inr high ↦ rw high (m.0, AllAbove-place a b xs h m.1)
  ]

  place-IsSorted : (a : A) (xs : List A) → IsSorted xs → IsSorted (place a xs)
  unfolding place
  place-IsSorted a [] s = (tt, tt)
  place-IsSorted a (x ∷ xs) s = elim (Bool-cases (k.le a x)) [
    | inl low ↦ rw low ((low, AllAbove-trans a x xs low s.0), s)
    | inr high ↦
        let above : k.le x a ≡ true = ground (arith, k.le_total a x) in
        rw high (AllAbove-place x a xs above s.0, place-IsSorted a xs s.1)
  ]

  pub sort-IsSorted : (xs : List A) → IsSorted (sort xs)
  unfolding sort
  sort-IsSorted [] = tt
  sort-IsSorted (x ∷ xs) = place-IsSorted x (sort xs) (sort-IsSorted xs)

  place-IsNodup : (a : A) (xs : List A) → has a xs ≡ false → IsNodup xs → IsNodup (place a xs)
  unfolding place has
  place-IsNodup a [] h n = (refl, tt)
  place-IsNodup a (x ∷ xs) h n =
      ground (arith, place-IsNodup a xs, has-place x a xs, k.beq_iff a x, k.beq_iff x a)

  pub sort-IsNodup : (xs : List A) → IsNodup xs → IsNodup (sort xs)
  unfolding sort
  sort-IsNodup [] n = tt
  sort-IsNodup (x ∷ xs) n = place-IsNodup x (sort xs) (rw has-sort n.0) (sort-IsNodup xs n.1)

  AllAbove-at : (a b : A) (xs : List A) → AllAbove a xs → b ∈ xs → k.le a b ≡ true
  AllAbove-at a b [] h m = absurd (not_mem_nil b m)
  AllAbove-at a b (x ∷ xs) h m = elim (mem_cases b x xs m) [
    | inl e ↦ rw e h.0
    | inr r ↦ AllAbove-at a b xs h.1 r
  ]

  -- A sorted list with no member twice is determined by its members.
  pub sorted_unique :
      (xs ys : List A)
      → IsSorted xs × IsNodup xs
      → IsSorted ys × IsNodup ys
      → xs ⊆ ys
      → ys ⊆ xs
      → xs ≡ ys
  sorted_unique [] [] s t f g = refl
  sorted_unique [] (y ∷ ys) s t f g = absurd (not_mem_nil y (g y (mem_head y ys)))
  sorted_unique (x ∷ xs) [] s t f g = absurd (not_mem_nil x (f x (mem_head x xs)))
  sorted_unique (x ∷ xs) (y ∷ ys) s t f g =
      ap₂ ◌∷◌ same (sorted_unique xs ys (s.0.1, s.1.1) (t.0.1, t.1.1) down up)
    where
      least_left : k.le x y ≡ true
      least_left = elim (mem_cases y x xs (g y (mem_head y ys))) [
        | inl e ↦ rw e (elim (k.le_total x x) [ inl h ↦ h | inr h ↦ h ])
        | inr r ↦ AllAbove-at x y xs s.0.0 r
      ]

      least_right : k.le y x ≡ true
      least_right = elim (mem_cases x y ys (f x (mem_head x xs))) [
        | inl e ↦ rw e (elim (k.le_total y y) [ inl h ↦ h | inr h ↦ h ])
        | inr r ↦ AllAbove-at y x ys t.0.0 r
      ]

      same : x ≡ y
      same = k.le_antisym x y least_left least_right

      down : xs ⊆ ys
      down a m = elim (mem_cases a y ys (f a (mem_tail a x xs m))) [
        | inl e ↦ absurd (not_of_false (subst (λ z. has z xs ≡ false) (same ∙ sym e) s.1.0) m)
        | inr r ↦ r
      ]

      up : ys ⊆ xs
      up a m = elim (mem_cases a x xs (g a (mem_tail a y ys m))) [
        | inl e ↦ absurd (not_of_false (subst (λ z. has z ys ≡ false) (sym same ∙ sym e) t.1.0) m)
        | inr r ↦ r
      ]

  -- Two sets with the same members sort to one list.
  pub sort_canonical :
      (xs ys : List A) → IsNodup xs → IsNodup ys → xs ⊆ ys → ys ⊆ xs → sort xs ≡ sort ys
  sort_canonical xs ys n m f g =
      sorted_unique (sort xs) (sort ys) (sort-IsSorted xs, sort-IsNodup xs n)
        (sort-IsSorted ys, sort-IsNodup ys m) (λ a h. rw has-sort (f a (rw has-sort at h)))
        (λ a h. rw has-sort (g a (rw has-sort at h)))
