-- ===== src/Horn/Loop.antt =====
-- The worklist loop of `incremental_horn_closure`, against derivability.
use juris_calculus.Prelude.{
  Key, ℕ, zero, suc, ◌+◌, ◌<◌, ◌≡◌, refl, sym, subst, ap, ◌↔◌, false, not, List, [], ◌∷◌, ◌++◌,
  none, some, arith, Bool-cases, not_of_false, length, length-filter-le, has, ◌∈◌, ◌⊆◌, mem_head,
  mem_tail, mem_cases, not_mem_nil, mem-append, mem-append_left, mem-append_right, mem-filter,
  mem-filter_of, all_at, all_fails, dedup, mem-dedup, has-sort, pair_key, list_key, ◌⊎◌, inl, inr,
}
use juris_calculus.Horn.{
  Rule, Work, Metrics, evaluate_new, evaluate_premises, premise_rules, work_step, work_loop,
  start_work, metrics_of, incremental_horn_closure,
}
use juris_calculus.Horn.Full.{Derives, fact, rule, ClosedUnder, Sound, derives_within, body_known}
use juris_calculus.Horn.Handles.{
  Enqueued, load, Waits, Waits-after, Waits-grow, Extends-refl, evaluate_new-Handles,
  evaluate_premises-Waits,
}

module _ {ℓ} {A : Type ℓ} ⦃k : Key A⦄ (facts : List A) (rules : List (Rule A)) where
  record Inv (w : Work A) : Type ℓ where
    sound : Sound facts rules w.known
    facts_known : facts ⊆ w.known
    enqueued : Enqueued facts rules w
    new_inside : (r : Rule A) → r ∈ w.new_rules → r ∈ rules
    waits : (r : Rule A) → r ∈ rules → Waits facts rules r w ⊎ (r ∈ w.new_rules)

  abbrev measure : Work A → ℕ
  measure w = length w.new_rules + load facts rules w

  -- What a round does: the loop ends on an empty worklist, or it goes on with less to do.
  abbrev Round : Work A → Type ℓ
  Round w =
      ((work_step rules w ≡ none) × ClosedUnder rules w.known)
      ⊎ ((w' : Work A) × (work_step rules w ≡ some w') × Inv w' × (measure w' < measure w))

  new_rule_round :
      (w : Work A) (r : Rule A) (rest : List (Rule A))
      → w.new_rules ≡ r ∷ rest
      → Inv w
      → let w' = evaluate_new r (record w { new_rules = rest }) in Inv w' × (measure w' < measure w)
  new_rule_round w r rest e v =
      let u : Work A = record w { new_rules = rest } in
      let w' = evaluate_new r u in
      let inside : (x : Rule A) → x ∈ (r ∷ rest) → x ∈ rules =
        λ x m. v.new_inside x (subst (λ ns. x ∈ ns) (sym e) m) in
      let h = evaluate_new-Handles facts rules r u (inside r (mem_head r rest)) v.enqueued in
      let ext = h.extends in
      (
        record {
          sound = ext.sound v.sound;
          facts_known = λ a m. ext.grows a (v.facts_known a m);
          enqueued = ext.enqueued;
          new_inside = λ x m. inside x (mem_tail x r rest (subst (λ ns. x ∈ ns) ext.pending m));
          waits = λ x m. elim (v.waits x m) [
            | inl waiting ↦ inl (Waits-grow facts rules x u w' ext waiting)
            | inr new ↦ elim (mem_cases x r rest (subst (λ ns. x ∈ ns) e new)) [
              | inl g ↦ inl (
                  subst (λ y. Waits facts rules y w') (sym g)
                    (Waits-after facts rules r u w' w' h
                      (Extends-refl facts rules w' ext.enqueued)))
              | inr i ↦ inr (subst (λ ns. x ∈ ns) (sym ext.pending) i)
            ]
          ];
        },
        omega (arith, ext.bounded, ap length ext.pending, ap length e),
      )

  atom_round :
      (w : Work A) (atom : A) (rest : List A)
      → w.new_rules ≡ []
      → w.queue ≡ atom ∷ rest
      → Inv w
      → let w' = evaluate_premises (premise_rules rules atom) (record w { queue = rest }) in
        Inv w' × (measure w' < measure w)
  unfolding premise_rules
  atom_round w atom rest none_new e v =
      let u : Work A = record w { queue = rest } in
      let rs = premise_rules rules atom in
      let w' = evaluate_premises rs u in
      let test = λ (r : Rule A). has atom r.1 in
      let (ext, indexed) =
        evaluate_premises-Waits facts rules rs u (λ r m. (mem-filter test rules r m).0)
          v.enqueued in
      (
        record {
          sound = ext.sound v.sound;
          facts_known = λ a m. ext.grows a (v.facts_known a m);
          enqueued = ext.enqueued;
          new_inside = λ x m. v.new_inside x (subst (λ ns. x ∈ ns) ext.pending m);
          waits = λ x m. elim (Bool-cases (has atom x.1)) [
            | inl uses ↦ inl (indexed x (mem-filter_of test rules x m uses))
            | inr unused ↦ elim (v.waits x m) [
              | inr new ↦ absurd (not_mem_nil x (subst (λ ns. x ∈ ns) none_new new))
              | inl waiting ↦ inl (Waits-grow facts rules x u w' ext (still x unused waiting))
            ]
          ];
        },
        omega (arith, ext.bounded, ap length ext.pending, ap length e),
      )
    where
      still :
          (x : Rule A)
          → has atom x.1 ≡ false
          → Waits facts rules x w
          → Waits facts rules x (record w { queue = rest })
      still x unused waiting below = elim (waiting below) [
        | inl m ↦ inl m
        | inr (y, i, q) ↦ elim (mem_cases y atom rest (subst (λ qs. y ∈ qs) e q)) [
          | inl g ↦ absurd (not_of_false unused (subst (λ z. z ∈ x.1) g i))
          | inr j ↦ inr (y, i, j)
        ]
      ]

  closed_at_end : (w : Work A) → w.new_rules ≡ [] → w.queue ≡ [] → Inv w → ClosedUnder rules w.known
  closed_at_end w none_new none_queued v h body m below = elim (v.waits (h, body) m) [
    | inr new ↦ absurd (not_mem_nil (h, body) (subst (λ ns. (h, body) ∈ ns) none_new new))
    | inl waiting ↦ elim (waiting below) [
      | inl known ↦ known
      | inr (x, _, q) ↦ absurd (not_mem_nil x (subst (λ qs. x ∈ qs) none_queued q))
    ]
  ]

  List-cases {κ} :
      {B : Type κ} (xs : List B) → (xs ≡ []) ⊎ ((x : B) × (rest : List B) × (xs ≡ x ∷ rest))
  List-cases [] = inl refl
  List-cases (x ∷ xs) = inr (x, xs, refl)

  round : (w : Work A) → Inv w → Round w
  unfolding work_step
  round w v = elim (List-cases w.new_rules) [
    | inr (r, rest, e) ↦
        let (inv, less) = new_rule_round w r rest e v in
        inr (evaluate_new r (record w { new_rules = rest }), rw (e, work_step), inv, less)
    | inl none_new ↦ elim (List-cases w.queue) [
      | inl none_queued ↦
          inl (rw (none_new, none_queued, work_step), closed_at_end w none_new none_queued v)
      | inr (atom, rest, e) ↦
          let (inv, less) = atom_round w atom rest none_new e v in
          inr (
            evaluate_premises (premise_rules rules atom) (record w { queue = rest }),
            simp (none_new, e, work_step),
            inv,
            less,
          )
    ]
  ]

  work_loop_ends :
      (fuel : ℕ) (w : Work A)
      → Inv w
      → measure w < fuel
      → (w' : Work A) × (work_loop rules fuel w ≡ some w') × Inv w' × ClosedUnder rules w'.known
  unfolding work_loop
  work_loop_ends zero w v h = absurd (omega arith)
  work_loop_ends (suc fuel) w v h = elim (round w v) [
    | inl (e, closed) ↦ (w, rw (e, work_loop), v, closed)
    | inr (u, e, inv, less) ↦
        let (w', f, last, closed) = work_loop_ends fuel u inv (omega arith) in
        (w', rw (e, work_loop) f, last, closed)
  ]

module _ {ℓ} {A : Type ℓ} ⦃k : Key A⦄ (parent_facts : List A) (parent_rules : List (Rule A))
    (parent_closure added_facts : List A) (added_rules : List (Rule A)) where
  abbrev all_facts : List A
  all_facts = parent_facts ++ added_facts

  abbrev all_rules : List (Rule A)
  all_rules = parent_rules ++ added_rules

  Derives-extend : {a : A} → Derives parent_facts parent_rules a → Derives all_facts all_rules a
  Derives-extend (fact m) = fact (mem-append_left _ parent_facts added_facts m)
  Derives-extend (rule body m f) =
      rule body (mem-append_left _ parent_rules added_rules m) (λ x i. Derives-extend (f x i))

  start-Inv :
      ((a : A) → (a ∈ parent_closure) ↔ Derives parent_facts parent_rules a)
      → Inv all_facts all_rules (start_work parent_closure added_rules added_facts)
  unfolding start_work
  start-Inv exact = record {
    sound = λ a m. elim (split a m) [
      | inl old ↦ Derives-extend ((exact a).0 old)
      | inr new ↦ fact (mem-append_right a parent_facts added_facts new)
    ];
    facts_known = λ a m. elim (mem-append a parent_facts added_facts m) [
      | inl old ↦ from_parent a ((exact a).1 (fact old))
      | inr new ↦ from_added a new
    ];
    enqueued = λ a m. from_added a ((mem-dedup a added_facts).0 m);
    new_inside = λ r m. mem-append_right r parent_rules added_rules m;
    waits = λ r m. elim (mem-append r parent_rules added_rules m) [
      | inr new ↦ inr new
      | inl old ↦ inl (λ below. elim (Bool-cases (body_known parent_closure r.1)) [
        | inl ready ↦ inl (
            from_parent r.0 (
              (exact r.0).1 (
                rule r.1 old
                  (λ x i. (exact x).0 (all_at (λ a. has a parent_closure) r.1 x ready i)))))
        | inr waiting ↦
            let (x, i, out) = all_fails (λ a. has a parent_closure) r.1 waiting in
            inr (
              x,
              i,
              elim (split x (below x i)) [
                | inl j ↦ absurd (not_of_false out j)
                | inr j ↦ rw has-sort ((mem-dedup x added_facts).1 j)
              ],
            )
      ])
    ];
  }
    where
      known : List A
      known = dedup (parent_closure ++ added_facts)

      split : (a : A) → a ∈ known → (a ∈ parent_closure) ⊎ (a ∈ added_facts)
      split a m = mem-append a parent_closure added_facts ((mem-dedup a _).0 m)

      from_parent : (a : A) → a ∈ parent_closure → a ∈ known
      from_parent a m = (mem-dedup a _).1 (mem-append_left a parent_closure added_facts m)

      from_added : (a : A) → a ∈ added_facts → a ∈ known
      from_added a m = (mem-dedup a _).1 (mem-append_right a parent_closure added_facts m)

  -- From an exact parent closure the worklist loop ends within its fuel, and the extended closure
  -- holds exactly what the facts and rules of the extended subject derive.
  pub incremental_horn_closure-Derives :
      ((a : A) → (a ∈ parent_closure) ↔ Derives parent_facts parent_rules a)
      → (t : List A) × (metrics : Metrics) × (incremental_horn_closure parent_closure parent_rules
            added_facts added_rules
          ≡ some (t, metrics))
        × ((a : A)
            → (a ∈ t) ↔ Derives (parent_facts ++ added_facts) (parent_rules ++ added_rules) a)
  unfolding incremental_horn_closure start_work
  incremental_horn_closure-Derives exact =
      let start = start_work parent_closure added_rules added_facts in
      let fuel = length added_rules + length start.queue + length all_rules + 1 in
      let v = start-Inv exact in
      let bound = length-filter-le (λ r. not (has r.0 start.known)) all_rules in
      let (w, e, inv, closed) =
        work_loop_ends all_facts all_rules fuel start v (omega (arith, bound)) in
      (
        w.known,
        metrics_of w (dedup (parent_closure ++ added_facts)),
        rw (e, incremental_horn_closure),
        λ a. (inv.sound a, derives_within all_facts all_rules w.known inv.facts_known closed),
      )
