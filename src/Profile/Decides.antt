-- ===== src/Profile/Decides.antt =====
-- The Boolean tests of one subset, against Dung's notions over defeats between known arguments.
use juris_calculus.Prelude.{
  Key, ◌≡◌, sym, subst, ◌↔◌, Bool, true, false, not, ◌&&◌, List, arith, if◌then◌else◌, Bool-cases,
  and-left, and-right, and-intro, false_of_not, not_of_false, all, any, has, ◌∈◌, ◌⊆◌, diff,
  mem-diff, mem-diff_of, all_at, all_of, any_at, any_of, mem-filter, mem-filter_of, beq_refl,
  pair_key, inl, inr,
}
use juris_calculus.Dung.{Defends, ConflictFree, IsAdmissible, IsStable}
use juris_calculus.Grounded.Step.{Attacks}
use juris_calculus.Profile.{is_admissible, characteristic, is_stable}

-- Defeats whose endpoints are arguments, as `resolve_defeats_v5` returns them.
abbrev pub Known {ℓ} : {A : Type ℓ} ⦃k : Key A⦄ → List A → List (A × A) → Type ℓ
Known {A} args defeats = (a b : A) → (a, b) ∈ defeats → (a ∈ args) × (b ∈ args)

module _ {ℓ} {A : Type ℓ} ⦃k : Key A⦄ (args : List A) (defeats : List (A × A))
    (known : Known args defeats) (s : List A) where
  abbrev Hits : A → A → Type 0
  Hits = Attacks args defeats

  hit_of : (a b : A) → (a, b) ∈ defeats → Hits a b
  hit_of a b m = (m, (known a b m).0, (known a b m).1)

  abbrev free_test : A × A → Bool
  free_test d = not (has d.0 s && has d.1 s)

  abbrev answer_test : A → A × A → Bool
  answer_test member d =
      if k.beq d.1 member && not (has d.0 s)
      then any (λ e. has e.0 s && k.beq e.1 d.0) defeats
      else true

  abbrev member_test : A → Bool
  member_test member = not (has (member, member) defeats) && all (answer_test member) defeats

  free_at : all free_test defeats ≡ true → ConflictFree args Hits s
  free_at h a b i j hit = let e = all_at free_test defeats (a, b) h hit.0 in ground arith

  pub is_admissible_at : s ⊆ args → is_admissible s defeats ≡ true → IsAdmissible args Hits s
  unfolding is_admissible
  is_admissible_at within h = record {
    within = within;
    conflict_free = free;
    defended = λ c m a i hit.
        let good : all (answer_test c) defeats ≡ true =
          and-right (not (has (c, c) defeats)) _
            (all_at member_test s c (and-right (all free_test defeats) _ h) m) in
        let answered : answer_test c (a, c) ≡ true =
          all_at (answer_test c) defeats (a, c) good hit.0 in
        let out = false_of_not (λ n. free a c n m hit) in
        let (e, n, t) =
          any_at (λ (e : A × A). has e.0 s && k.beq e.1 a) defeats
            (ground (arith, answered, out, beq_refl c)) in
        let same = (k.beq_iff e.1 a).0 (and-right (has e.0 s) _ t) in
        (e.0, and-left _ _ t, hit_of e.0 a (subst (λ x. (e.0, x) ∈ defeats) same n));
  }
    where
      free : ConflictFree args Hits s
      free = free_at (and-left _ _ h)

  pub is_admissible_of : IsAdmissible args Hits s → is_admissible s defeats ≡ true
  unfolding is_admissible
  is_admissible_of v = and-intro (all_of free_test defeats λ d m. rw (both_out d m)) (
      all_of member_test s
        λ c m. and-intro (no_self c m) (all_of (answer_test c) defeats λ d n. answered c m d n))
    where
      both_out : (d : A × A) → d ∈ defeats → (has d.0 s && has d.1 s) ≡ false
      both_out d m = false_of_not λ e.
          v.conflict_free d.0 d.1 (and-left _ _ e) (and-right (has d.0 s) _ e) (hit_of d.0 d.1 m)

      no_self : (c : A) → c ∈ s → not (has (c, c) defeats) ≡ true
      no_self c m = rw (false_of_not (λ n. v.conflict_free c c m m (hit_of c c n)))

      answered : (c : A) → c ∈ s → (d : A × A) → d ∈ defeats → answer_test c d ≡ true
      answered c m d n = elim (Bool-cases (k.beq d.1 c && not (has d.0 s))) [
        | inr skip ↦ rw skip
        | inl go ↦
            let same = (k.beq_iff d.1 c).0 (and-left _ _ go) in
            let hit = hit_of d.0 d.1 n in
            let (e, j, back) = v.defended d.1 (subst (λ x. x ∈ s) (sym same) m) d.0 hit.1 hit in
            rw go (
              any_of (λ (e : A × A). has e.0 s && k.beq e.1 d.0) defeats (e, d.0) back.0
                (and-intro j (beq_refl d.0)))
      ]

  abbrev reach_test : A → A × A → Bool
  reach_test argument d =
      if k.beq d.1 argument then any (λ member. has (member, d.0) defeats) s else true

  pub mem-characteristic :
      (c : A) → (c ∈ characteristic args defeats s) ↔ (c ∈ args) × Defends args Hits s c
  unfolding characteristic
  mem-characteristic c = (to, from)
    where
      to : c ∈ characteristic args defeats s → (c ∈ args) × Defends args Hits s c
      to h =
          let (m, t) = mem-filter (λ x. all (reach_test x) defeats) args c h in
          (
            m,
            λ a i hit.
                let e = all_at (reach_test c) defeats (a, c) t hit.0 in
                let (d, j, n) =
                  any_at (λ member. has (member, a) defeats) s (ground (arith, e, beq_refl c)) in
                (d, j, hit_of d a n),
          )

      from : (c ∈ args) × Defends args Hits s c → c ∈ characteristic args defeats s
      from (m, f) =
          mem-filter_of (λ x. all (reach_test x) defeats) args c m
            (all_of (reach_test c) defeats λ d n. elim (Bool-cases (k.beq d.1 c)) [
              | inr skip ↦ rw skip
              | inl go ↦
                  let same = (k.beq_iff d.1 c).0 go in
                  let hit = hit_of d.0 d.1 n in
                  let (e, j, back) = f d.0 hit.1 (subst (λ x. Hits d.0 x) same hit) in
                  rw go (any_of (λ member. has (member, d.0) defeats) s e j back.0)
            ])

  abbrev clash_test : A → Bool
  clash_test source = any (λ target. has (source, target) defeats) s

  pub is_stable_at : s ⊆ args → is_stable args defeats s ≡ true → IsStable args Hits s
  unfolding is_stable
  is_stable_at within h = record {
    within = within;
    conflict_free = λ a b i j hit.
        let clash : any clash_test s ≡ true =
          any_of clash_test s a i (any_of (λ target. has (a, target) defeats) s b j hit.0) in
        ground (arith, clash);
    attacks_rest = λ c m n.
        let rest : all (λ x. any (λ source. has (source, x) defeats) s) (diff args s) ≡ true =
          ground arith in
        let hitting = all_at _ (diff args s) c rest (mem-diff_of c args s m (false_of_not n)) in
        let (d, j, p) = any_at (λ source. has (source, c) defeats) s hitting in
        (d, j, hit_of d c p);
  }

  pub is_stable_of : IsStable args Hits s → is_stable args defeats s ≡ true
  unfolding is_stable
  is_stable_of v = rw (false_of_not clash_free) (
      all_of (λ x. any (λ source. has (source, x) defeats) s) (diff args s)
        λ c h.
          let (m, out) = mem-diff c args s h in
          let (d, j, hit) = v.attacks_rest c m (not_of_false out) in
          any_of (λ source. has (source, c) defeats) s d j hit.0)
    where
      clash_free : ¬ (any clash_test s ≡ true)
      clash_free h =
          let (a, i, e) = any_at clash_test s h in
          let (b, j, m) = any_at (λ target. has (a, target) defeats) s e in
          v.conflict_free a b i j (hit_of a b m)
