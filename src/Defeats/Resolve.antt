-- ===== src/Defeats/Resolve.antt =====
-- Which attacks become defeats.
use juris_calculus.Prelude.{
  Key, ◌≡◌, refl, sym, subst, ◌∙◌, ◌↔◌, not, List, [], ◌∷◌, Option, none, some, String,
  if◌then◌else◌, Bool-cases, and-left, and-right, and-intro, false_of_not, not_of_false, is_empty,
  filter, has, ◌∈◌, map, has-sort, mem-dedup, mem_head, mem_tail, mem_cases, not_mem_nil, pair_key,
  string_key, inl, inr, Memᴰ, Elem-filter, Elem-filter_of, ok, >>=-eq-ok, ok-injective,
}
use juris_calculus.Defeats.{
  AttackRecord, priority_policies, strict_preference_closure, is_blocked, blocked_pairs,
  priority_blocked_pairs, resolve_attacks, resolve_defeats,
}
use juris_calculus.Defeats.Through.{Preferred, direct, chain}
use juris_calculus.Defeats.Closure.{IsStrictClosure, strict_preference_closure-IsStrictClosure}
use juris_calculus.Defeats.Admitted.{err_not_ok, Admitted, Blocked, resolve_attacks-IsResolved}
use juris_calculus.Profile.Decides.{Known}

module _ {ℓ} {A : Type ℓ} ⦃k : Key A⦄ where
  module _ (closure : List (A × A)) where
    abbrev pair_of : AttackRecord A → A × A
    pair_of x = (x.attacker, x.target)

    mem-map_pairs :
        (xs : List (AttackRecord A)) (p : A × A)
        → p ∈ map pair_of xs
        → (x : AttackRecord A) × Memᴰ x xs × (p ≡ pair_of x)
    mem-map_pairs [] p m = absurd (not_mem_nil p m)
    mem-map_pairs (x ∷ xs) p m = elim (mem_cases p (pair_of x) (map pair_of xs) m) [
      | inl e ↦ (x, Memᴰ.head refl, e)
      | inr r ↦ let (y, i, e) = mem-map_pairs xs p r in (y, Memᴰ.tail i, e)
    ]

    mem-map_pairs_of :
        (xs : List (AttackRecord A)) (x : AttackRecord A) → Memᴰ x xs → pair_of x ∈ map pair_of xs
    mem-map_pairs_of [] x m = elim m [ ]
    mem-map_pairs_of (y ∷ ys) x (Memᴰ.head e) =
        subst (λ (z : AttackRecord A). pair_of x ∈ (pair_of z ∷ map pair_of ys)) e
          (mem_head (pair_of x) (map pair_of ys))
    mem-map_pairs_of (y ∷ ys) x (Memᴰ.tail r) =
        mem_tail (pair_of x) (pair_of y) (map pair_of ys) (mem-map_pairs_of ys x r)

    -- The computed pairs are those of the blocked rebuts.
    mem-blocked_pairs :
        (edges : List (A × A)) (attacks : List (AttackRecord A)) (a b : A)
        → IsStrictClosure edges closure
        → ((a, b) ∈ blocked_pairs closure attacks) ↔ Blocked attacks edges a b
    unfolding blocked_pairs is_blocked
    mem-blocked_pairs edges attacks a b v = (to, from)
      where
        to : (a, b) ∈ blocked_pairs closure attacks → Blocked attacks edges a b
        to m =
            let (x, i, e) = mem-map_pairs (filter (is_blocked closure) attacks) (a, b) m in
            let (j, t) = Elem-filter (is_blocked closure) attacks x i in
            let f : a ≡ x.attacker = cc in
            let g : b ≡ x.target = cc in
            record {
              rebut = x;
              listed = j;
              is_rebut = (string_key.beq_iff x.kind "rebut").0 (and-left _ _ t);
              from_a = sym f;
              to_b = sym g;
              target_preferred =
                  subst (λ y. Preferred edges b y) (sym f)
                    (subst (λ z. Preferred edges z x.attacker) (sym g)
                      ((v.chains x.target x.attacker).0
                        (and-right (string_key.beq x.kind "rebut") _ t)));
            }

        from : Blocked attacks edges a b → (a, b) ∈ blocked_pairs closure attacks
        from w =
            let pref = (v.chains w.rebut.target w.rebut.attacker).1 (
              subst (λ y. Preferred edges w.rebut.target y) (sym w.from_a)
                (subst (λ z. Preferred edges z a) (sym w.to_b) w.target_preferred)) in
            let kept =
              Elem-filter_of (is_blocked closure) attacks w.rebut w.listed
                (and-intro ((string_key.beq_iff w.rebut.kind "rebut").1 w.is_rebut) pref) in
            subst (λ y. (y, b) ∈ blocked_pairs closure attacks) w.from_a
              (subst (λ z. (w.rebut.attacker, z) ∈ blocked_pairs closure attacks) w.to_b
                (mem-map_pairs_of (filter (is_blocked closure) attacks) w.rebut kept))

  no_preference : {a b : A} → ¬ Preferred [] a b
  no_preference (direct m) = not_mem_nil _ m
  no_preference (chain p q) = no_preference p

  -- The pairs that the two branches of the priority step block.
  Blocked-step :
      (attacks : List (AttackRecord A)) (edges : List (A × A)) (policy : Option String)
      (blocked : List (A × A))
      → (if is_empty edges then ok [] else priority_blocked_pairs attacks edges policy) ≡ ok blocked
      → (a b : A) → ((a, b) ∈ blocked) ↔ Blocked attacks edges a b
  unfolding priority_blocked_pairs
  Blocked-step attacks [] policy blocked h a b =
      let e = ok-injective h in
      (
        λ m. absurd (not_mem_nil (a, b) (subst (λ ps. (a, b) ∈ ps) (sym e) m)),
        λ w. absurd (no_preference w.target_preferred),
      )
  Blocked-step attacks (x ∷ edges) none blocked h a b = cc
  Blocked-step attacks (x ∷ edges) (some policy) blocked h a b =
      elim (Bool-cases (not (has policy priority_policies))) [
        | inl stranger ↦ absurd (err_not_ok (rw stranger at h))
        | inr registered ↦
            let (closure, e, f) =
              >>=-eq-ok (strict_preference_closure (x ∷ edges)) _ (rw registered at h) in
            elim (strict_preference_closure-IsStrictClosure (x ∷ edges)) [
              | inr (node, g, _) ↦ absurd (err_not_ok (sym g ∙ e))
              | inl (r, g, v) ↦
                  let same : r ≡ closure = ok-injective (sym g ∙ e) in
                  subst (λ ps. ((a, b) ∈ ps) ↔ Blocked attacks (x ∷ edges) a b) (ok-injective f)
                    (mem-blocked_pairs closure (x ∷ edges) attacks a b
                      (subst (IsStrictClosure (x ∷ edges)) same v))
            ]
      ]

  -- The defeats of a call that returns are exactly the pairs of an admitted attack that no rebut
  -- between the same two arguments, with a preferred target, blocks; and their endpoints are known.
  pub resolve_defeats-members :
      (arguments : List A) (attacks : List (AttackRecord A)) (allowed : List String)
      (edges : List (A × A)) (policy : Option String) (defeats : List (A × A))
      → resolve_defeats arguments attacks allowed edges policy ≡ ok defeats
      → ((a b : A)
          → ((a, b) ∈ defeats) ↔ Admitted attacks allowed a b × (¬ Blocked attacks edges a b))
        × Known arguments defeats
  unfolding resolve_defeats
  resolve_defeats-members arguments attacks allowed edges policy defeats h =
      elim (Bool-cases (is_empty allowed)) [
        | inl none_allowed ↦ absurd (err_not_ok (rw none_allowed at h))
        | inr some_allowed ↦
            let (blocked, e, rest) =
              >>=-eq-ok
                (if is_empty edges then ok [] else priority_blocked_pairs attacks edges policy) _
                (rw some_allowed at h) in
            let (pairs, f, last) =
              >>=-eq-ok (resolve_attacks arguments allowed blocked attacks) _ rest in
            let v = resolve_attacks-IsResolved arguments allowed blocked attacks pairs f in
            subst
              (λ ds.
                ((a b : A)
                  → ((a, b) ∈ ds) ↔ Admitted attacks allowed a b × (¬ Blocked attacks edges a b))
                × Known arguments ds)
              (ok-injective last)
              (
                λ a b. (
                  λ m.
                      let (w, out) =
                        (v.members a b).0 ((mem-dedup (a, b) pairs).0 (rw has-sort at m)) in
                      (
                        w,
                        λ u.
                            not_of_false out
                              ((Blocked-step attacks edges policy blocked e a b).1 u),
                      ),
                  λ (w, free). rw has-sort (
                      (mem-dedup (a, b) pairs).1 (
                        (v.members a b).1 (
                          w,
                          false_of_not
                              λ m. free ((Blocked-step attacks edges policy blocked e a b).0 m),
                        ))),
                ),
                λ a b m. v.endpoints_known a b ((mem-dedup (a, b) pairs).0 (rw has-sort at m)),
              )
      ]
