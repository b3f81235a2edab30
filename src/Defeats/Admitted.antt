-- ===== src/Defeats/Admitted.antt =====
-- Admitted and blocked attacks, and the loop of `resolve_defeats_v5` over them.
use juris_calculus.Prelude.{
  Key, ◌≡◌, refl, sym, subst, ◌↔◌, true, false, not, ◌||◌, List, [], ◌∷◌, String, arith, Bool-cases,
  not_of_false, has, ◌∈◌, mem_head, mem_tail, mem_cases, not_mem_nil, pair_key, string_key, ◌⊎◌,
  inl, inr, Memᴰ, Result, ok, err, >>=-eq-ok, ok-injective,
}
use mathlib.Core.List.Memᴰ
use juris_calculus.Defeats.{AttackRecord, resolve_attacks}
use juris_calculus.Defeats.Through.{Preferred}
use juris_calculus.Profile.Decides.{Known}

pub err_not_ok {ℓ κ} :
    {E : Type ℓ} {A : Type κ} {e : E} {a : A} → ¬ (◌≡◌ {A = Result E A} (err e) (ok a))
err_not_ok h = cc

module _ {ℓ} {A : Type ℓ} ⦃k : Key A⦄ where
  -- An attack of an admitted kind between two arguments.
  pub record Admitted (attacks : List (AttackRecord A)) (allowed : List String) (a b : A)
      : Type ℓ where
    pub attack : AttackRecord A
    pub listed : Memᴰ attack attacks
    pub kind_allowed : attack.kind ∈ allowed
    pub from_a : attack.attacker ≡ a
    pub to_b : attack.target ≡ b

  -- A rebut between the two whose target is preferred over its attacker.
  pub record Blocked (attacks : List (AttackRecord A)) (edges : List (A × A)) (a b : A)
      : Type ℓ where
    pub rebut : AttackRecord A
    pub listed : Memᴰ rebut attacks
    pub is_rebut : rebut.kind ≡ "rebut"
    pub from_a : rebut.attacker ≡ a
    pub to_b : rebut.target ≡ b
    pub target_preferred : Preferred edges b a

  pub Admitted-tail :
      {attacks : List (AttackRecord A)} {allowed : List String} {a b : A} (x : AttackRecord A)
      → Admitted attacks allowed a b
      → Admitted (x ∷ attacks) allowed a b
  Admitted-tail x w = record {
    attack = w.attack;
    listed = Memᴰ.tail w.listed;
    kind_allowed = w.kind_allowed;
    from_a = w.from_a;
    to_b = w.to_b;
  }

  -- An admitted attack of a longer list is the first one or is in the rest.
  pub Admitted-cases :
      {attacks : List (AttackRecord A)} {allowed : List String} {a b : A} (x : AttackRecord A)
      → Admitted (x ∷ attacks) allowed a b
      → ((x.kind ∈ allowed) × (x.attacker ≡ a) × (x.target ≡ b)) ⊎ Admitted attacks allowed a b
  Admitted-cases {attacks} {allowed} {a} {b} x w =
      go w.attack w.listed w.kind_allowed w.from_a w.to_b
    where
      go :
          (y : AttackRecord A)
          → Memᴰ y (x ∷ attacks)
          → y.kind ∈ allowed
          → y.attacker ≡ a
          → y.target ≡ b
          → ((x.kind ∈ allowed) × (x.attacker ≡ a) × (x.target ≡ b)) ⊎ Admitted attacks allowed a b
      go y (Memᴰ.head e) i f g = inl (
          subst (λ (z : AttackRecord A). (z.kind ∈ allowed) × (z.attacker ≡ a) × (z.target ≡ b)) e
            (i, f, g))
      go y (Memᴰ.tail r) i f g =
          inr (record { attack = y; listed = r; kind_allowed = i; from_a = f; to_b = g })

  module _ (known : List A) (allowed : List String) (blocked : List (A × A)) where
    pub record IsResolved (attacks : List (AttackRecord A)) (pairs : List (A × A)) : Type ℓ where
      pub members :
          (a b : A) → ((a, b) ∈ pairs) ↔ Admitted attacks allowed a b × (has (a, b) blocked ≡ false)
      pub endpoints_known : Known known pairs

    -- An attack that is passed over changes nothing.
    skip :
        {attacks : List (AttackRecord A)} {pairs : List (A × A)} (x : AttackRecord A)
        → IsResolved attacks pairs
        → ((a b : A)
            → x.kind ∈ allowed
            → x.attacker ≡ a
            → x.target ≡ b
            → ¬ (has (a, b) blocked ≡ false))
        → IsResolved (x ∷ attacks) pairs
    skip x v out = record {
      members = λ a b. (
        λ m. let (w, e) = (v.members a b).0 m in (Admitted-tail x w, e),
        λ (w, e). elim (Admitted-cases x w) [
          | inl (i, f, g) ↦ absurd (out a b i f g e)
          | inr u ↦ (v.members a b).1 (u, e)
        ],
      );
      endpoints_known = v.endpoints_known;
    }

    keep :
        {attacks : List (AttackRecord A)} {pairs : List (A × A)} (x : AttackRecord A)
        → IsResolved attacks pairs
        → x.kind ∈ allowed
        → x.attacker ∈ known
        → x.target ∈ known
        → has (x.attacker, x.target) blocked ≡ false
        → IsResolved (x ∷ attacks) ((x.attacker, x.target) ∷ pairs)
    keep {attacks} {pairs} x v i from_known to_known free = record {
      members = λ a b. (to a b, from a b);
      endpoints_known = λ a b m. elim (mem_cases (a, b) (x.attacker, x.target) pairs m) [
        | inl e ↦
            let f : a ≡ x.attacker = cc in
            let g : b ≡ x.target = cc in
            (subst (λ z. z ∈ known) (sym f) from_known, subst (λ z. z ∈ known) (sym g) to_known)
        | inr r ↦ v.endpoints_known a b r
      ];
    }
      where
        to :
            (a b : A)
            → (a, b) ∈ ((x.attacker, x.target) ∷ pairs)
            → Admitted (x ∷ attacks) allowed a b × (has (a, b) blocked ≡ false)
        to a b m = elim (mem_cases (a, b) (x.attacker, x.target) pairs m) [
          | inl e ↦
              let f : a ≡ x.attacker = cc in
              let g : b ≡ x.target = cc in
              (
                record {
                  attack = x;
                  listed = Memᴰ.head refl;
                  kind_allowed = i;
                  from_a = sym f;
                  to_b = sym g;
                },
                subst (λ p. has p blocked ≡ false) (sym e) free,
              )
          | inr r ↦ let (w, e) = (v.members a b).0 r in (Admitted-tail x w, e)
        ]

        from :
            (a b : A)
            → Admitted (x ∷ attacks) allowed a b × (has (a, b) blocked ≡ false)
            → (a, b) ∈ ((x.attacker, x.target) ∷ pairs)
        from a b (w, e) = elim (Admitted-cases x w) [
          | inl (_, f, g) ↦
              subst (λ y. (y, b) ∈ ((x.attacker, x.target) ∷ pairs)) f
                (subst (λ z. (x.attacker, z) ∈ ((x.attacker, x.target) ∷ pairs)) g
                  (mem_head (x.attacker, x.target) pairs))
          | inr u ↦ mem_tail (a, b) (x.attacker, x.target) pairs ((v.members a b).1 (u, e))
        ]

    pub resolve_attacks-IsResolved :
        (attacks : List (AttackRecord A)) (pairs : List (A × A))
        → resolve_attacks known allowed blocked attacks ≡ ok pairs
        → IsResolved attacks pairs
    unfolding resolve_attacks
    resolve_attacks-IsResolved [] pairs h = subst (IsResolved []) (ok-injective h) (record {
      members =
          λ a b. (λ m. absurd (not_mem_nil (a, b) m), λ (w, e). absurd (Memᴰ.not-nil w.listed));
      endpoints_known = λ a b m. absurd (not_mem_nil (a, b) m);
    })
    resolve_attacks-IsResolved (x ∷ rest) pairs h = elim (Bool-cases (has x.kind allowed)) [
      | inr no_kind ↦
          skip x (resolve_attacks-IsResolved rest pairs (rw no_kind at h))
            (λ a b i f g. absurd (not_of_false no_kind i))
      | inl kind_ok ↦ elim (Bool-cases (not (has x.attacker known) || not (has x.target known))) [
        | inl stranger ↦ absurd (err_not_ok (rw (kind_ok, stranger) at h))
        | inr both ↦ elim (Bool-cases (has (x.attacker, x.target) blocked)) [
          | inl shut ↦
              skip x (resolve_attacks-IsResolved rest pairs (rw (kind_ok, both, shut) at h))
                (λ a b i f g e. not_of_false e (
                  subst (λ y. has (y, b) blocked ≡ true) f
                    (subst (λ z. has (x.attacker, z) blocked ≡ true) g shut)))
          | inr free ↦
              let (found, e, f) =
                >>=-eq-ok (resolve_attacks known allowed blocked rest) _
                  (rw (kind_ok, both, free) at h) in
              subst (IsResolved (x ∷ rest)) (ok-injective f) (
                keep x (resolve_attacks-IsResolved rest found e) kind_ok (ground (arith, both))
                  (ground (arith, both)) free)
        ]
      ]
    ]
