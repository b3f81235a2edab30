-- ===== src/Profile/Subsets.antt =====
-- The enumeration of all subsets by bit masks.
use juris_calculus.Prelude.{
  Key, ℕ, zero, suc, ◌+◌, ◌*◌, ◌/◌, ◌%◌, ◌^◌, ◌<◌, ◌==◌, ◌≡◌, refl, sym, ap, subst, ◌∙◌, Bool, true,
  false, List, [], ◌∷◌, arith, if◌then◌else◌, Bool-cases, length, filter, ◌∈◌, ◌⊆◌, mem_head,
  mem_tail, mem_cases, Memᴰ, inl, inr, Elem-append_left, Elem-append_right,
}
use mathlib.Core.List.Memᴰ
use native.Mathlib.Decide.{dec_lt}
use native.Mathlib.Nat.{pow-succ', div-div-eq-div-mul, div-one}
use native.Mathlib.Numerals.{add-one}
use juris_calculus.Profile.{bit, subset_from, subsets}

halve : (m i : ℕ) → m / 2 ^ (i + 1) ≡ m / 2 / 2 ^ i
halve m i = rw (add-one, pow-succ') (sym (div-div-eq-div-mul m 2 (2 ^ i)))

bit-suc : (m i : ℕ) → bit m (i + 1) ≡ bit (m / 2) i
unfolding bit
bit-suc m i = ap (λ (x : ℕ). x % 2 == 1) (halve m i)

bit-zero : (m : ℕ) → bit m 0 ≡ (m % 2 == 1)
unfolding bit
bit-zero m = ap (λ (x : ℕ). x % 2 == 1) (div-one m)

bounded : (b : Bool) (m n : ℕ) → m < n → (if b then 1 else 0) + 2 * m < 2 * n
bounded b m n h = ground arith

low : (b : Bool) (m : ℕ) → bit ((if b then 1 else 0) + 2 * m) 0 ≡ b
low true m = bit-zero (1 + 2 * m) ∙ ground arith
low false m = bit-zero (0 + 2 * m) ∙ ground arith

rest : (b : Bool) (m : ℕ) → ((if b then 1 else 0) + 2 * m) / 2 ≡ m
rest b m = ground arith

module _ {ℓ} {A : Type ℓ} where
  subset_from-suc : (m i : ℕ) (xs : List A) → subset_from m (i + 1) xs ≡ subset_from (m / 2) i xs
  unfolding subset_from
  subset_from-suc m i [] = refl
  subset_from-suc m i (x ∷ xs) = rw (bit-suc m i, subset_from-suc m (i + 1) xs)

  -- The mask whose bits are the values of a test.
  mask_of : (A → Bool) → List A → ℕ
  mask_of p [] = 0
  mask_of p (x ∷ xs) = (if p x then 1 else 0) + 2 * mask_of p xs

  mask_of-lt : (p : A → Bool) (xs : List A) → mask_of p xs < 2 ^ length xs
  unfolding mask_of
  mask_of-lt p [] = omega arith
  mask_of-lt p (x ∷ xs) =
      rw pow-succ' (bounded (p x) (mask_of p xs) (2 ^ length xs) (mask_of-lt p xs))

  subset_from-mask_of : (p : A → Bool) (xs : List A) → subset_from (mask_of p xs) 0 xs ≡ filter p xs
  unfolding subset_from mask_of filter
  subset_from-mask_of p [] = refl
  subset_from-mask_of p (x ∷ xs) =
      let m = mask_of p xs in
      let head : bit ((if p x then 1 else 0) + 2 * m) 0 ≡ p x = low (p x) m in
      let tail =
        subset_from-suc ((if p x then 1 else 0) + 2 * m) 0 xs
        ∙ ap (λ n. subset_from n 0 xs) (rest (p x) m)
        ∙ subset_from-mask_of p xs in
      rw (head, tail)

  Memᴰ-subsets :
      (xs : List A) (m total : ℕ) → m < total → Memᴰ (subset_from m 0 xs) (subsets xs total)
  unfolding subsets
  Memᴰ-subsets xs m zero h = elim h [ ]
  Memᴰ-subsets xs m (suc total) h = elim (dec_lt m total) [
    | yes p ↦ Elem-append_left _ (subsets xs total) _ (Memᴰ-subsets xs m total p)
    | no p ↦
        let e : m ≡ total = omega arith in
        Elem-append_right _ (subsets xs total) (subset_from total 0 xs ∷ [])
          (Memᴰ.head (ap (λ n. subset_from n 0 xs) e))
  ]

  -- Every subset that a test describes is enumerated.
  pub filter-Memᴰ-subsets :
      (p : A → Bool) (xs : List A) → Memᴰ (filter p xs) (subsets xs (2 ^ length xs))
  filter-Memᴰ-subsets p xs =
      subst (λ s. Memᴰ s (subsets xs (2 ^ length xs))) (subset_from-mask_of p xs)
        (Memᴰ-subsets xs (mask_of p xs) (2 ^ length xs) (mask_of-lt p xs))

module _ {ℓ} {A : Type ℓ} ⦃k : Key A⦄ where
  subset_from-within : (m i : ℕ) (xs : List A) → subset_from m i xs ⊆ xs
  unfolding subset_from
  subset_from-within m i [] a h = h
  subset_from-within m i (x ∷ xs) a h = elim (Bool-cases (bit m i)) [
    | inl now ↦ elim (mem_cases a x (subset_from m (i + 1) xs) (rw now at h)) [
      | inl e ↦ subst (λ y. y ∈ (x ∷ xs)) (sym e) (mem_head x xs)
      | inr r ↦ mem_tail a x xs (subset_from-within m (i + 1) xs a r)
    ]
    | inr later ↦ mem_tail a x xs (subset_from-within m (i + 1) xs a (rw later at h))
  ]

  -- Every enumerated list is a set of arguments.
  pub subsets_within : (xs s : List A) (total : ℕ) → Memᴰ s (subsets xs total) → s ⊆ xs
  unfolding subsets
  subsets_within xs s zero h = absurd (Memᴰ.not-nil h)
  subsets_within xs s (suc total) h = elim (Memᴰ.append_cases (subsets xs total) h) [
    | inl earlier ↦ subsets_within xs s total earlier
    | inr last ↦
        λ a m. subset_from-within total 0 xs a (subst (λ t. a ∈ t) (Memᴰ.eq_of_singleton last) m)
  ]
