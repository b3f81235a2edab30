-- ===== src/Reasons/Explained.antt =====
-- The labels with their reasons, for each argument.
use juris_calculus.Prelude.{
  Key, ◌⊎◌, ◌∷◌, ◌≡◌, refl, subst, ◌↔◌, inl, inr, true, false, Bool-cases, Option, some, ℕ, List,
  [], is_empty, nil_of_is_empty, filter, has, ◌∈◌, dedup, mem-dedup, sort, has-sort, not_of_false,
  pair_key, mem_head, not_mem_nil, lookup, lookup-tabulate,
}
use juris_calculus.Grounded.{GroundedResult, attackers_of, grounded_extension}
use juris_calculus.Grounded.Step.{Attacks, mem-attackers_of, mem-attackers_of_of}
use juris_calculus.Grounded.Result.{grounded_extension-IsAdmissible}
use juris_calculus.Reasons.{
  in_label, out_label, undec_label, LabelReason, no_attackers, attackers_defeated, attacked_by_in,
  depends_on_undecided, part_of_cycle, scc_nodes, scc_id_of, scc_of, defenders_of, in_reason,
  out_reason, undec_reason, label_reason, label_reasons, is_cyclic,
}
use juris_calculus.Reasons.Witnesses.{
  mem-defenders_of, mem-chosen, NodesOf, nodes-NodesOf, Cyclic, is_cyclic_lem,
}

module _ {ℓ} {A : Type ℓ} ⦃k : Key A⦄ where
  member_of_not_empty : (xs : List A) → is_empty xs ≡ false → (a : A) × (a ∈ xs)
  member_of_not_empty [] h = cc
  member_of_not_empty (x ∷ rest) h = (x, mem_head x rest)

module _ {ℓ} {A : Type ℓ} ⦃k : Key A⦄ (cids : List A) (attacks : List (A × A)) where
  -- The label, the reason and the witnesses of the argument `c`.
  pub data Explained (sccs : List (List A)) (result : GroundedResult A) (c : A) (r : LabelReason A)
      : Type ℓ where
    in_by :
        c ∈ result.accepted
        → r.label ≡ in_label
        → ((r.reason ≡ no_attackers) × ((a : A) → ¬ Attacks cids attacks a c))
          ⊎ ((r.reason ≡ attackers_defeated) × ((a : A) × Attacks cids attacks a c))
        → ((w : A)
            → (w ∈ r.witnesses) ↔ (
                (w ∈ result.accepted)
                × ((a : A) × Attacks cids attacks a c × Attacks cids attacks w a)))
        → Explained sccs result c r
    out_by :
        has c result.accepted ≡ false
        → c ∈ result.rejected
        → r.label ≡ out_label
        → r.reason ≡ attacked_by_in
        → ((w : A) → (w ∈ r.witnesses) ↔ ((w ∈ result.accepted) × Attacks cids attacks w c))
        → Explained sccs result c r
    undec_in_cycle :
        has c result.accepted ≡ false
        → has c result.rejected ≡ false
        → r.label ≡ undec_label
        → ((id : Option ℕ) × (r.reason ≡ part_of_cycle id) × NodesOf c sccs id r.witnesses)
        → Cyclic attacks r.witnesses
        → Explained sccs result c r
    undec_by :
        has c result.accepted ≡ false
        → has c result.rejected ≡ false
        → r.label ≡ undec_label
        → r.reason ≡ depends_on_undecided
        → ((id : Option ℕ) × (nodes : List A) × NodesOf c sccs id nodes × (¬ Cyclic attacks nodes))
        → ((w : A) → (w ∈ r.witnesses) ↔ ((w ∈ result.undecided) × Attacks cids attacks w c))
        → Explained sccs result c r

  abbrev atk : A → List A
  atk = attackers_of cids attacks

  attack_iff : (a c : A) → (a ∈ atk c) ↔ Attacks cids attacks a c
  attack_iff a c = (mem-attackers_of cids attacks a c, mem-attackers_of_of cids attacks a c)

  chosen_attackers :
      (chosen : List A) (c w : A)
      → (w ∈ sort (filter (λ a. has a chosen) (atk c))) ↔ ((w ∈ chosen) × Attacks cids attacks w c)
  chosen_attackers chosen c w =
      let (to, from) = mem-chosen chosen (atk c) w in
      let (on, back) = attack_iff w c in
      (λ m. let (e, i) = to m in (e, on i), λ (e, i). from (e, back i))

  none_attacks : (c : A) → is_empty (atk c) ≡ true → (a : A) → ¬ Attacks cids attacks a c
  none_attacks c free a on =
      not_mem_nil a (subst (λ xs. a ∈ xs) (nil_of_is_empty (atk c) free) ((attack_iff a c).1 on))

  one_attacks : (c : A) → is_empty (atk c) ≡ false → (a : A) × Attacks cids attacks a c
  one_attacks c attacked =
      let (a, m) = member_of_not_empty (atk c) attacked in (a, (attack_iff a c).0 m)

  in_reason-Explained :
      (sccs : List (List A)) (result : GroundedResult A) (c : A)
      → c ∈ result.accepted
      → Explained sccs result c (in_reason atk result.accepted c)
  unfolding in_reason
  in_reason-Explained sccs result c m = elim (Bool-cases (is_empty (atk c))) [
    | inl free ↦ rw free (
        in_by m refl (inl (refl, none_attacks c free)) (λ w.
          (λ i. absurd (not_mem_nil w i), λ (_, (a, on, _)). absurd (none_attacks c free a on))))
    | inr attacked ↦ rw attacked (
        in_by m refl (inr (refl, one_attacks c attacked)) (λ w.
          let (to, from) = mem-defenders_of atk result.accepted (atk c) w in
          let (out, back) = mem-dedup w (defenders_of atk result.accepted (atk c)) in
          (
            λ i.
                let (e, (a, on, by)) = to (out (rw has-sort at i)) in
                (e, (a, (attack_iff a c).0 on, (attack_iff w a).0 by)),
            λ (e, (a, on, by)).
                rw has-sort (back (from (e, (a, (attack_iff a c).1 on, (attack_iff w a).1 by)))),
          )))
  ]

  undec_reason-Explained :
      (sccs : List (List A)) (result : GroundedResult A) (c : A)
      → has c result.accepted ≡ false
      → has c result.rejected ≡ false
      → Explained sccs result c (undec_reason atk attacks result.undecided c (scc_of 0 c sccs))
  unfolding undec_reason
  undec_reason-Explained sccs result c f g =
      let found = scc_of 0 c sccs in
      let nodes = scc_nodes c found in
      let (cyclic, back) = is_cyclic_lem attacks nodes in
      let of_c = nodes-NodesOf c sccs in
      elim (Bool-cases (is_cyclic attacks nodes)) [
        | inl loop ↦ rw loop (undec_in_cycle f g refl (scc_id_of found, refl, of_c) (cyclic loop))
        | inr free ↦ rw free (
            undec_by f g refl refl (scc_id_of found, nodes, of_c, λ on. not_of_false free (back on))
              (chosen_attackers result.undecided c))
      ]

  label_reason-Explained :
      (sccs : List (List A)) (result : GroundedResult A) (c : A)
      → Explained sccs result c (label_reason atk attacks result sccs c)
  unfolding label_reason out_reason
  label_reason-Explained sccs result c = elim (Bool-cases (has c result.accepted)) [
    | inl now ↦ rw now (in_reason-Explained sccs result c now)
    | inr f ↦ elim (Bool-cases (has c result.rejected)) [
      | inl m ↦ rw (f, m) (out_by f m refl refl (chosen_attackers result.accepted c))
      | inr g ↦ rw (f, g) (undec_reason-Explained sccs result c f g)
    ]
  ]

module _ {ℓ} {A : Type ℓ} ⦃k : Key A⦄ (claims : List A) (attacks : List (A × A))
    (sccs : List (List A)) where
  -- Every argument has a reason, whatever the result and the components. An accepted one is said to
  -- have no attackers exactly when it has none, and otherwise defeated attackers, with the accepted
  -- attackers of its attackers; a rejected one has its accepted attackers. For an undecided one take
  -- the last component with it, or itself alone where no component has it: where those nodes are more
  -- than one, or one that attacks itself, they are the witnesses, with the number of the component;
  -- where not, the witnesses are its undecided attackers.
  pub label_reasons-Explained :
      (result : GroundedResult A) (c : A)
      → c ∈ claims
      → (r : LabelReason A) × (lookup c (label_reasons claims attacks result sccs) ≡ some r)
        × Explained (dedup claims) attacks sccs result c r
  unfolding label_reasons
  label_reasons-Explained result c m =
      let cids = dedup claims in
      let reason = label_reason (attackers_of cids attacks) attacks result sccs in
      (
        reason c,
        lookup-tabulate reason (sort cids) c (rw has-sort ((mem-dedup c claims).1 m)),
        label_reason-Explained cids attacks sccs result c,
      )

  -- In a grounded result, whatever the bound, the witnesses of an accepted argument defend it: each
  -- of its attackers is attacked by one of them.
  pub label_reasons-defends :
      (bound : Option ℕ) (c : A)
      → c ∈ (grounded_extension claims attacks bound).accepted
      → (r : LabelReason A) × (lookup c
            (label_reasons claims attacks (grounded_extension claims attacks bound) sccs)
          ≡ some r)
        × (r.label ≡ in_label)
        × ((a : A)
            → Attacks claims attacks a c
            → (w : A) × (w ∈ r.witnesses) × Attacks claims attacks w a)
  label_reasons-defends bound c m =
      let result = grounded_extension claims attacks bound in
      let fair = (grounded_extension-IsAdmissible claims attacks bound).0 in
      let (r, found, why) = label_reasons-Explained result c (fair.within c m) in
      elim why [
        | in_by _ marked _ lists ↦ (
          r,
          found,
          marked,
          λ a (on, i, j).
              let (d, e, (by, di, ai)) = fair.defended c m a i (on, i, j) in
              (
                d,
                (lists d).1 (e, (a, in_set a c (on, i, j), in_set d a (by, di, ai))),
                (by, di, ai),
              ),
        )
        | out_by f _ _ _ _ ↦ absurd (not_of_false f m)
        | undec_in_cycle f _ _ _ _ ↦ absurd (not_of_false f m)
        | undec_by f _ _ _ _ _ ↦ absurd (not_of_false f m)
      ]
    where
      in_set : (a b : A) → Attacks claims attacks a b → Attacks (dedup claims) attacks a b
      in_set a b (on, i, j) = (on, (mem-dedup a claims).1 i, (mem-dedup b claims).1 j)
