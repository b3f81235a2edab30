-- ===== src/Grounded/Loop.antt =====
-- The iteration of `grounded_extension`: its invariant and its rounds.
use juris_calculus.Prelude.{
  Key, ℕ, zero, suc, ◌+◌, ◌≤◌, ◌<◌, ◌≡◌, true, false, List, [], arith, Bool-cases, length, filter,
  has, ◌∈◌, ◌⊆◌, subset, set_eq, not_mem_nil, all_fails, subset_of, mem-filter, mem-filter_of,
  length-filter-le, length-filter_strict, inl, inr,
}
use juris_calculus.Grounded.{is_defended, defended_by, iterate}
use juris_calculus.Grounded.Step.{is_defended_at, is_defended_of}

module _ {ℓ} {A : Type ℓ} ⦃k : Key A⦄ (atk : A → List A) (cids : List A) where
  -- A set that holds every argument which it defends.
  abbrev pub Closed : List A → Type ℓ
  Closed t = (c : A) → c ∈ cids → ((a : A) → a ∈ atk c → (d : A) × (d ∈ atk a) × (d ∈ t)) → c ∈ t

  pub record Inv (s : List A) : Type ℓ where
    pub within : s ⊆ cids
    pub kept : s ⊆ defended_by atk cids s
    pub free : (a b : A) → a ∈ s → b ∈ s → ¬ (a ∈ atk b)
    pub least : (t : List A) → Closed t → s ⊆ t

  pub defended_at :
      (s : List A) (c a : A)
      → c ∈ defended_by atk cids s
      → a ∈ atk c
      → (d : A) × (d ∈ atk a) × (d ∈ s)
  unfolding defended_by
  defended_at s c a h m = is_defended_at atk s c a (mem-filter (is_defended atk s) cids c h).1 m

  pub defended_of :
      (s : List A) (c : A)
      → c ∈ cids
      → ((a : A) → a ∈ atk c → (d : A) × (d ∈ atk a) × (d ∈ s))
      → c ∈ defended_by atk cids s
  unfolding defended_by
  defended_of s c m f = mem-filter_of (is_defended atk s) cids c m (is_defended_of atk s c f)

  pub defended_within : (s : List A) → defended_by atk cids s ⊆ cids
  unfolding defended_by
  defended_within s c h = (mem-filter (is_defended atk s) cids c h).0

  pub defended_mono : (s t : List A) → s ⊆ t → defended_by atk cids s ⊆ defended_by atk cids t
  defended_mono s t f c h =
      defended_of t c (defended_within s c h)
        λ a m. let (d, i, j) = defended_at s c a h m in (d, i, f d j)

  Inv-nil : Inv []
  Inv-nil = record {
    within = λ a h. absurd (not_mem_nil a h);
    kept = λ a h. absurd (not_mem_nil a h);
    free = λ a b h _ _. not_mem_nil a h;
    least = λ t _ a h. absurd (not_mem_nil a h);
  }

  Inv-defended_by : (s : List A) → Inv s → Inv (defended_by atk cids s)
  Inv-defended_by s v = record {
    within = defended_within s;
    kept = defended_mono s (defended_by atk cids s) v.kept;
    free = λ a b ma mb hit.
        let (c, on_a, c_in) = defended_at s b a mb hit in
        let (d, on_c, d_in) = defended_at s a c ma on_a in v.free d c d_in c_in on_c;
    least = λ t closed c h.
        closed c (defended_within s c h)
          λ a m. let (d, i, j) = defended_at s c a h m in (d, i, v.least t closed d j);
  }

  -- The number of arguments that are in the set.
  abbrev size : List A → ℕ
  size s = length (filter (λ c. has c s) cids)

  size_grows :
      (s : List A)
      → Inv s
      → set_eq (defended_by atk cids s) s ≡ false
      → size s < size (defended_by atk cids s)
  unfolding set_eq subset
  size_grows s v h =
      let kept : subset s (defended_by atk cids s) ≡ true =
        subset_of s (defended_by atk cids s) v.kept in
      let (y, m, new) = all_fails (λ a. has a s) (defended_by atk cids s) (ground (arith, kept)) in
      length-filter_strict (λ c. has c s) (λ c. has c (defended_by atk cids s)) cids y
        (λ a _ i. v.kept a i) (defended_within s y m) m new

  pub iterate-Inv : (n it : ℕ) (s : List A) → Inv s → Inv (iterate atk cids n it s).accepted
  unfolding iterate
  iterate-Inv zero it s v = v
  iterate-Inv (suc n) it s v = elim (Bool-cases (set_eq (defended_by atk cids s) s)) [
    | inl done ↦ rw done v
    | inr more ↦ rw more (iterate-Inv n (it + 1) (defended_by atk cids s) (Inv-defended_by s v))
  ]

  -- When the loop stops by its test, the set is a fixed point.
  pub iterate-fixed :
      (n it : ℕ) (s : List A)
      → (iterate atk cids n it s).convergent ≡ true
      → set_eq
          (defended_by atk cids (iterate atk cids n it s).accepted)
          (iterate atk cids n it s).accepted
        ≡ true
  unfolding iterate
  iterate-fixed zero it s h = cc
  iterate-fixed (suc n) it s h = elim (Bool-cases (set_eq (defended_by atk cids s) s)) [
    | inl done ↦ rw done done
    | inr more ↦ rw more (iterate-fixed n (it + 1) (defended_by atk cids s) (rw more at h))
  ]

  -- Each round adds an argument, so enough rounds reach the fixed point.
  iterate-convergent :
      (n it : ℕ) (s : List A)
      → Inv s
      → length cids < n + size s
      → (iterate atk cids n it s).convergent ≡ true
  unfolding iterate
  iterate-convergent zero it s v h = absurd (omega (arith, length-filter-le (λ c. has c s) cids))
  iterate-convergent (suc n) it s v h = elim (Bool-cases (set_eq (defended_by atk cids s) s)) [
    | inl done ↦ rw done
    | inr more ↦
        let grown = size_grows s v more in
        rw more (
          iterate-convergent n (it + 1) (defended_by atk cids s) (Inv-defended_by s v)
            (omega arith))
  ]

  pub iterate_rounds :
      (n it : ℕ) (s : List A)
      → ((iterate atk cids n it s).iteration ≤ it + n)
        × ((iterate atk cids n it s).convergent ≡ false
            → (iterate atk cids n it s).iteration ≡ it + n)
  unfolding iterate
  iterate_rounds zero it s = (omega arith, λ _. omega arith)
  iterate_rounds (suc n) it s =
      let (bound, spent) = iterate_rounds n (it + 1) (defended_by atk cids s) in ground arith

  pub iterate-convergent_nil :
      (it : ℕ) → (iterate atk cids (length cids + 1) it []).convergent ≡ true
  iterate-convergent_nil it = iterate-convergent (length cids + 1) it [] Inv-nil (omega arith)

  pub iterate-Inv_nil : (n it : ℕ) → Inv (iterate atk cids n it []).accepted
  iterate-Inv_nil n it = iterate-Inv n it [] Inv-nil
