-- ===== src/Grounded/Step.antt =====
-- One round of the iteration, against the meaning of attack and defence.
use juris_calculus.Prelude.{
  Key, ◌≡◌, refl, sym, subst, inl, inr, true, ◌&&◌, List, [], ◌∷◌, if◌then◌else◌, Bool-cases,
  and-left, and-right, and-intro, is_empty, all, has, ◌∈◌, add, meets, mem_head, mem_tail,
  mem_cases, not_mem_nil, mem-add, mem-add_self, mem-add_of, all_at, all_of, meets_at, meets_of,
  pair_key,
}
use juris_calculus.Grounded.{attackers_of, is_defended}

module _ {ℓ} {A : Type ℓ} ⦃k : Key A⦄ where
  -- An attack of the graph: a listed pair between known arguments.
  abbrev pub Attacks : List A → List (A × A) → A → A → Type 0
  Attacks cids attacks a b = ((a, b) ∈ attacks) × (a ∈ cids) × (b ∈ cids)

  pub mem-attackers_of :
      (cids : List A) (attacks : List (A × A)) (a t : A)
      → a ∈ attackers_of cids attacks t
      → Attacks cids attacks a t
  unfolding attackers_of
  mem-attackers_of cids [] a t h = absurd (not_mem_nil a h)
  mem-attackers_of cids ((src, tgt) ∷ rest) a t h =
      elim (Bool-cases (has src cids && has tgt cids && k.beq tgt t)) [
        | inl kept ↦
            let both = and-left (has src cids && has tgt cids) (k.beq tgt t) kept in
            let same = (k.beq_iff tgt t).0 (and-right (has src cids && has tgt cids) _ kept) in
            elim (mem-add src a (attackers_of cids rest t) (rw kept at h)) [
              | inl e ↦ (
                subst (λ x. (x, t) ∈ ((src, tgt) ∷ rest)) (sym e)
                    (subst (λ y. (src, y) ∈ ((src, tgt) ∷ rest)) same (mem_head (src, tgt) rest)),
                subst (λ x. x ∈ cids) (sym e) (and-left _ _ both),
                subst (λ y. y ∈ cids) same (and-right (has src cids) _ both),
              )
              | inr r ↦
                  let (m, i, j) = mem-attackers_of cids rest a t r in
                  (mem_tail (a, t) (src, tgt) rest m, i, j)
            ]
        | inr dropped ↦
            let (m, i, j) = mem-attackers_of cids rest a t (rw dropped at h) in
            (mem_tail (a, t) (src, tgt) rest m, i, j)
      ]

  pub mem-attackers_of_of :
      (cids : List A) (attacks : List (A × A)) (a t : A)
      → Attacks cids attacks a t
      → a ∈ attackers_of cids attacks t
  unfolding attackers_of
  mem-attackers_of_of cids [] a t h = absurd (not_mem_nil (a, t) h.0)
  mem-attackers_of_of cids ((src, tgt) ∷ rest) a t (m, i, j) =
      elim (mem_cases (a, t) (src, tgt) rest m) [
        | inl e ↦
            let src_eq : a ≡ src = cc in
            let tgt_eq : t ≡ tgt = cc in
            let from_known : has src cids ≡ true = subst (λ x. x ∈ cids) src_eq i in
            let to_known : has tgt cids ≡ true = subst (λ x. x ∈ cids) tgt_eq j in
            let kept : (has src cids && has tgt cids && k.beq tgt t) ≡ true =
              and-intro (and-intro from_known to_known) ((k.beq_iff tgt t).1 (sym tgt_eq)) in
            rw kept (
              subst (λ x. x ∈ add src (attackers_of cids rest t)) (sym src_eq)
                (mem-add_self src (attackers_of cids rest t)))
        | inr r ↦
            let ih = mem-attackers_of_of cids rest a t (r, i, j) in
            elim (Bool-cases (has src cids && has tgt cids && k.beq tgt t)) [
              | inl kept ↦ rw kept (mem-add_of src a (attackers_of cids rest t) ih)
              | inr dropped ↦ rw dropped ih
            ]
      ]

  module _ (atk : A → List A) (accepted : List A) (c : A) where
    pub is_defended-eq-all : is_defended atk accepted c ≡ all (λ a. meets (atk a) accepted) (atk c)
    unfolding is_defended all
    is_defended-eq-all = go (atk c)
      where
        go :
            (xs : List A)
            → (if is_empty xs then true else all (λ a. meets (atk a) accepted) xs)
              ≡ all (λ a. meets (atk a) accepted) xs
        go [] = refl
        go (x ∷ xs) = refl

    pub is_defended_at :
        (a : A)
        → is_defended atk accepted c ≡ true
        → a ∈ atk c
        → (d : A) × (d ∈ atk a) × (d ∈ accepted)
    is_defended_at a h m =
        meets_at (atk a) accepted
          (all_at (λ x. meets (atk x) accepted) (atk c) a (rw is_defended-eq-all at h) m)

    pub is_defended_of :
        ((a : A) → a ∈ atk c → (d : A) × (d ∈ atk a) × (d ∈ accepted))
        → is_defended atk accepted c ≡ true
    is_defended_of f = rw is_defended-eq-all (
        all_of (λ x. meets (atk x) accepted) (atk c)
          λ a m. let (d, i, j) = f a m in meets_of (atk a) accepted d i j)
