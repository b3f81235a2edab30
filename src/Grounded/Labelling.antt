-- ===== src/Grounded/Labelling.antt =====
-- The grounded labels as a labelling in Dung's sense.
use juris_calculus.Prelude.{
  ℕ, Key, ◌≡◌, ◌↔◌, ◌⊎◌, true, List, Option, ◌∈◌, false_of_not, not_of_false, pair_key,
}
use juris_calculus.Grounded.{GroundedResult, grounded_extension}
use juris_calculus.Grounded.Step.{Attacks}
use juris_calculus.Grounded.Result.{accepted-IsGrounded}
use juris_calculus.Grounded.Labels.{grounded_extension_labels}

module _ {ℓ} {A : Type ℓ} ⦃k : Key A⦄ (claims : List A) (attacks : List (A × A)) where
  -- Each attacker of the argument is OUT.
  abbrev pub AllOut : GroundedResult A → A → Type ℓ
  AllOut result c = (a : A) → Attacks claims attacks a c → a ∈ result.rejected

  -- Some attacker of the argument is IN.
  abbrev pub SomeIn : GroundedResult A → A → Type ℓ
  SomeIn result c = (d : A) × (d ∈ result.accepted) × Attacks claims attacks d c

  pub record IsLabelling (result : GroundedResult A) : Type ℓ where
    pub in_iff : (c : A) → (c ∈ result.accepted) ↔ ((c ∈ claims) × AllOut result c)
    pub out_iff : (c : A) → (c ∈ result.rejected) ↔ ((c ∈ claims) × SomeIn result c)
    pub undec_iff :
        (c : A)
        → (c ∈ result.undecided) ↔ ((c ∈ claims) × (¬ AllOut result c) × (¬ SomeIn result c))
    pub covers :
        (c : A)
        → c ∈ claims
        → (c ∈ result.accepted) ⊎ (c ∈ result.rejected) ⊎ (c ∈ result.undecided)
    pub in_not_out : (c : A) → c ∈ result.accepted → ¬ (c ∈ result.rejected)

  module _ (bound : Option ℕ) where
    abbrev result : GroundedResult A
    result = grounded_extension claims attacks bound

    out_lem : (c : A) → (c ∈ result.rejected) ↔ ((c ∈ claims) × SomeIn result c)
    out_lem c = (grounded_extension_labels claims attacks bound c).1

    in_lem :
        (c : A)
        → result.convergent ≡ true
        → (c ∈ result.accepted) ↔ ((c ∈ claims) × AllOut result c)
    in_lem c h =
        let whole = (accepted-IsGrounded claims attacks bound h).complete in
        (
          λ m. (
            whole.admissible.within c m,
            λ a (on, i, j).
                let (d, e, hit) = whole.admissible.defended c m a i (on, i, j) in
                (out_lem a).1 (i, (d, e, hit)),
          ),
          λ (i, all_out). whole.closed c i (λ a j hit. ((out_lem a).0 (all_out a hit)).1),
        )

    -- The labels of a run that converges are a complete labelling: an argument is IN exactly when
    -- all its attackers are OUT, OUT exactly when some attacker is IN, and UNDEC exactly when neither
    -- holds. Every argument has a label, and none is both IN and OUT.
    pub grounded_extension-IsLabelling : result.convergent ≡ true → IsLabelling result
    grounded_extension-IsLabelling h = record {
      in_iff = λ c. in_lem c h;
      out_iff = out_lem;
      undec_iff = λ c.
          let (cover, out, apart, (to, from)) = grounded_extension_labels claims attacks bound c in
          (
            λ m.
                let (i, f, g) = to m in
                (
                  i,
                  (λ all_out. not_of_false f ((in_lem c h).1 (i, all_out))),
                  (λ some_in. not_of_false g (out.1 (i, some_in))),
                ),
            λ (i, f, g).
                from (
                  i,
                  false_of_not (λ m. f ((in_lem c h).0 m).1),
                  false_of_not (λ m. g (out.0 m).1),
                ),
          );
      covers = λ c. (grounded_extension_labels claims attacks bound c).0;
      in_not_out = λ c m r. not_of_false ((grounded_extension_labels claims attacks bound c).2 r) m;
    }
