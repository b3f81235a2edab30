-- ===== src/Query/Branches.antt =====
-- One branch of a query, and the loop over the enterable ones, against acceptance and refutation.
use juris_calculus.Prelude.{
  Key, ◌≡◌, refl, sym, subst, ap, ◌∙◌, ◌↔◌, inl, inr, Bool, true, not, List, [], ◌∷◌, some,
  Option-cases, Bool-cases, Bool_ext, is_empty, filter, any, ◌∈◌, add, sort, has-sort, mem-add,
  mem-add_self, mem-add_of, not_mem_nil, any_at, any_of, lookup, Memᴰ,
}
use juris_calculus.Query.{QueryRefutation, QueryInput, refuters_of, supports, argument_refutes}

module _ {ℓ κ} {A : Type ℓ} {C : Type κ} ⦃k : Key A⦄ ⦃c : Key C⦄ (q : QueryInput A C) where
  -- The argument concludes the claim of the query.
  abbrev pub Supports : A → Type κ
  Supports a = lookup a q.argument_claims ≡ some q.claim

  -- The conclusion of the argument refutes the claim of the query, by a listed refutation.
  pub record Opposes (a : A) : Type κ where
    pub conclusion : C
    pub concludes : lookup a q.argument_claims ≡ some conclusion
    pub refutation : QueryRefutation C
    pub listed : Memᴰ refutation q.refutations
    pub refuter_is : refutation.refuter ≡ conclusion
    pub target_is : refutation.target ≡ q.claim

  abbrev pub Accepts : List A → Type (ℓ ⊔ κ)
  Accepts s = (a : A) × (a ∈ s) × Supports a

  abbrev pub Refutes : List A → Type (ℓ ⊔ κ)
  Refutes s = (a : A) × (a ∈ s) × Opposes a

  pub supports_lem : (a : A) → (supports q a ≡ true) ↔ Supports a
  unfolding supports
  supports_lem a = elim (Option-cases (lookup a q.argument_claims)) [
    | inl e ↦ (λ h. cc (rw (e, supports) at h), λ h. cc)
    | inr (x, e) ↦
        rw (e, supports)
          (λ h. ap some ((c.beq_iff x q.claim).0 h), λ h. (c.beq_iff x q.claim).1 (cc h))
  ]

  mem-refuters_of :
      (rs : List (QueryRefutation C)) (claim x : C)
      → x ∈ refuters_of rs claim
      → (r : QueryRefutation C) × Memᴰ r rs × (r.refuter ≡ x) × (r.target ≡ claim)
  unfolding refuters_of
  mem-refuters_of [] claim x h = absurd (not_mem_nil x h)
  mem-refuters_of (r ∷ rs) claim x h = elim (Bool-cases (c.beq r.target claim)) [
    | inl hit ↦ elim (mem-add r.refuter x (refuters_of rs claim) (rw hit at h)) [
      | inl e ↦ (r, Memᴰ.head refl, sym e, (c.beq_iff r.target claim).0 hit)
      | inr m ↦ let (r', i, e, f) = mem-refuters_of rs claim x m in (r', Memᴰ.tail i, e, f)
    ]
    | inr miss ↦
        let (r', i, e, f) = mem-refuters_of rs claim x (rw miss at h) in (r', Memᴰ.tail i, e, f)
  ]

  mem-refuters_of_of :
      (rs : List (QueryRefutation C)) (claim : C) (r : QueryRefutation C)
      → Memᴰ r rs
      → r.target ≡ claim
      → r.refuter ∈ refuters_of rs claim
  unfolding refuters_of
  mem-refuters_of_of [] claim r i e = elim i [ ]
  mem-refuters_of_of (r' ∷ rs) claim r (Memᴰ.head s) e =
      let hit : c.beq r'.target claim ≡ true =
        (c.beq_iff r'.target claim).1 (ap (λ (p : QueryRefutation C). p.target) (sym s) ∙ e) in
      rw hit (
        subst (λ (p : QueryRefutation C). p.refuter ∈ add r'.refuter (refuters_of rs claim)) (sym s)
          (mem-add_self r'.refuter (refuters_of rs claim)))
  mem-refuters_of_of (r' ∷ rs) claim r (Memᴰ.tail i) e =
      let ih = mem-refuters_of_of rs claim r i e in
      elim (Bool-cases (c.beq r'.target claim)) [
        | inl hit ↦ rw hit (mem-add_of r'.refuter r.refuter (refuters_of rs claim) ih)
        | inr miss ↦ rw miss ih
      ]

  pub opposes_lem : (a : A) → (argument_refutes q a ≡ true) ↔ Opposes a
  unfolding argument_refutes
  opposes_lem a = elim (Option-cases (lookup a q.argument_claims)) [
    | inl e ↦ (λ h. cc (rw (e, argument_refutes) at h), λ v. cc (v.concludes, e))
    | inr (x, e) ↦ (
      λ h.
          let (r, i, f, g) =
            mem-refuters_of q.refutations q.claim x (rw (e, argument_refutes) at h) in
          record {
            conclusion = x;
            concludes = e;
            refutation = r;
            listed = i;
            refuter_is = f;
            target_is = g;
          },
      λ v.
          let same : v.conclusion ≡ x = cc (v.concludes, e) in
          rw (e, argument_refutes)
            (subst (λ y. y ∈ refuters_of q.refutations q.claim) (v.refuter_is ∙ same)
              (mem-refuters_of_of q.refutations q.claim v.refutation v.listed v.target_is)),
    )
  ]

  -- The tests of one branch.
  abbrev pub accepts : List A → Bool
  accepts s = any (supports q) s

  abbrev pub refutes : List A → Bool
  refutes s = any (argument_refutes q) s

  pub accepts_lem : (s : List A) → (accepts s ≡ true) ↔ Accepts s
  accepts_lem s = (
    λ h. let (a, i, e) = any_at (supports q) s h in (a, i, (supports_lem a).0 e),
    λ (a, i, e). any_of (supports q) s a i ((supports_lem a).1 e),
  )

  pub refutes_lem : (s : List A) → (refutes s ≡ true) ↔ Refutes s
  refutes_lem s = (
    λ h. let (a, i, e) = any_at (argument_refutes q) s h in (a, i, (opposes_lem a).0 e),
    λ (a, i, e). any_of (argument_refutes q) s a i ((opposes_lem a).1 e),
  )

  nonempty-filter : (p : A → Bool) (s : List A) → not (is_empty (filter p s)) ≡ any p s
  unfolding filter any
  nonempty-filter p [] = refl
  nonempty-filter p (x ∷ xs) = elim (Bool-cases (p x)) [
    | inl now ↦ rw now refl
    | inr later ↦ rw later (nonempty-filter p xs)
  ]

  any-sort : (p : A → Bool) (s : List A) → any p (sort s) ≡ any p s
  any-sort p s =
      Bool_ext (any p (sort s)) (any p s)
        (λ h. let (a, i, e) = any_at p (sort s) h in any_of p s a (rw has-sort at i) e)
        (λ h. let (a, i, e) = any_at p s h in any_of p (sort s) a (rw has-sort i) e)

  pub found-any : (p : A → Bool) (s : List A) → not (is_empty (filter p (sort s))) ≡ any p s
  found-any p s = nonempty-filter p (sort s) ∙ any-sort p s
