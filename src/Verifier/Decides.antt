-- ===== src/Verifier/Decides.antt =====
-- The tests of conflict-freedom, defence and admissibility, against Dung's notions.
use juris_calculus.Prelude.{
  Key, ◌≡◌, refl, sym, subst, ◌↔◌, Bool, true, ◌&&◌, List, [], ◌∷◌, arith, and-left, and-right,
  and-intro, false_of_not, all, any, has, ◌∈◌, ◌⊆◌, subset, subset_at, subset_of, all_at, all_of,
  any_at, any_of, mem-filter, mem-filter_of, pair_key,
}
use juris_calculus.Dung.{Defends, ConflictFree, IsAdmissible}
use juris_calculus.Grounded.{attackers_of}
use juris_calculus.Grounded.Step.{Attacks, mem-attackers_of, mem-attackers_of_of}
use juris_calculus.Verifier.{
  adjacent_attackers, is_conflict_free, defends, is_admissible_by, characteristic_by,
}

module _ {ℓ} {A : Type ℓ} ⦃k : Key A⦄ (args : List A) (defeats : List (A × A)) where
  pub adjacent_attackers-eq :
      (t : A) → adjacent_attackers args defeats t ≡ attackers_of args defeats t
  unfolding adjacent_attackers attackers_of
  adjacent_attackers-eq t = go defeats
    where
      go : (ds : List (A × A)) → adjacent_attackers args ds t ≡ attackers_of args ds t
      go [] = refl
      go ((a, b) ∷ rest) = rw (go rest)

  abbrev atk : A → List A
  atk = adjacent_attackers args defeats

  abbrev Hits : A → A → Type 0
  Hits = Attacks args defeats

  hit_at : (a c : A) → a ∈ atk c → Hits a c
  hit_at a c m =
      mem-attackers_of args defeats a c (subst (λ xs. a ∈ xs) (adjacent_attackers-eq c) m)

  hit_of : (a c : A) → Hits a c → a ∈ atk c
  hit_of a c h =
      subst (λ xs. a ∈ xs) (sym (adjacent_attackers-eq c)) (mem-attackers_of_of args defeats a c h)

  module _ (s : List A) where
    abbrev reached : A → Bool
    reached attacker = any (λ defender. has defender s) (atk attacker)

    defends_at : (c : A) → defends atk s c ≡ true → Defends args Hits s c
    unfolding defends
    defends_at c e a i hit =
        let (d, m, n) =
          any_at (λ defender. has defender s) (atk a)
            (all_at reached (atk c) a e (hit_of a c hit)) in
        (d, n, hit_at d a m)

    defends_of : (c : A) → Defends args Hits s c → defends atk s c ≡ true
    unfolding defends
    defends_of c f = all_of reached (atk c) λ a m.
        let hit = hit_at a c m in
        let (d, n, back) = f a hit.1 hit in
        any_of (λ defender. has defender s) (atk a) d (hit_of d a back) n

    pub free_at : is_conflict_free defeats s ≡ true → ConflictFree args Hits s
    unfolding is_conflict_free
    free_at e a b i j hit =
        let clash =
          any_of (λ (d : A × A). has d.0 s && has d.1 s) defeats (a, b) hit.0 (and-intro i j) in
        ground (arith, e, clash)

    pub free_of : s ⊆ args → ConflictFree args Hits s → is_conflict_free defeats s ≡ true
    unfolding is_conflict_free
    free_of within f = rw (false_of_not clash)
      where
        clash : ¬ (any (λ (d : A × A). has d.0 s && has d.1 s) defeats ≡ true)
        clash h =
            let (d, m, e) = any_at (λ (d : A × A). has d.0 s && has d.1 s) defeats h in
            let i = and-left _ _ e in
            let j = and-right (has d.0 s) _ e in f d.0 d.1 i j (m, within d.0 i, within d.1 j)

    pub is_admissible_by_at : is_admissible_by atk args defeats s ≡ true → IsAdmissible args Hits s
    unfolding is_admissible_by
    is_admissible_by_at e =
        let within : subset s args ≡ true = ground (arith, e) in
        let free : is_conflict_free defeats s ≡ true = ground (arith, e) in
        let answered : all (λ member. defends atk s member) s ≡ true = ground (arith, e) in
        record {
          within = subset_at s args within;
          conflict_free = free_at free;
          defended = λ c m. defends_at c (all_at (λ member. defends atk s member) s c answered m);
        }

    pub is_admissible_by_of : IsAdmissible args Hits s → is_admissible_by atk args defeats s ≡ true
    unfolding is_admissible_by
    is_admissible_by_of v =
        rw (subset_of s args v.within, free_of v.within v.conflict_free)
          (all_of (λ member. defends atk s member) s λ c m. defends_of c (v.defended c m))

    pub mem-characteristic_by :
        (c : A) → (c ∈ characteristic_by atk args s) ↔ (c ∈ args) × Defends args Hits s c
    unfolding characteristic_by defends
    mem-characteristic_by c = (
      λ m. let (i, e) = mem-filter (λ x. defends atk s x) args c m in (i, defends_at c e),
      λ (i, f). mem-filter_of (λ x. defends atk s x) args c i (defends_of c f),
    )
