-- ===== src/Horn/Handles.antt =====
-- What the evaluation of one rule does to the worklist.
use juris_calculus.Prelude.{
  Key, ℕ, ◌+◌, ◌≤◌, ◌≡◌, refl, sym, subst, ◌∙◌, true, false, List, [], ◌∷◌, arith, Bool-cases,
  false_of_not, not_of_false, length, length-append, has, ◌∈◌, ◌⊆◌, add, mem_head, mem_tail,
  mem_cases, not_mem_nil, mem-add, mem-add_self, mem-add_of, mem-append_left, mem-append_right,
  all_at, all_of, all_fails, pair_key, list_key, ◌⊎◌, inl, inr,
}
use juris_calculus.Horn.{
  Rule, Work, derive, count_evaluation, evaluate_new, evaluate_premise, evaluate_premises,
}
use juris_calculus.Horn.Full.{Derives, rule, body_known, Sound, missing, missing_strict}

module _ {ℓ} {A : Type ℓ} ⦃k : Key A⦄ (facts : List A) (rules : List (Rule A)) where
  abbrev pub Enqueued : Work A → Type ℓ
  Enqueued w = w.enqueued ⊆ w.known

  -- The atoms that may still be queued: those in the queue, and the missing heads.
  abbrev pub load : Work A → ℕ
  load w = length w.queue + missing facts rules w.known

  pub record Extends (w w' : Work A) : Type ℓ where
    pub sound : Sound facts rules w.known → Sound facts rules w'.known
    pub grows : w.known ⊆ w'.known
    pub queue_grows : w.queue ⊆ w'.queue
    pub new_queued : (a : A) → a ∈ w'.known → (a ∈ w.known) ⊎ (a ∈ w'.queue)
    pub enqueued : Enqueued w'
    pub pending : w'.new_rules ≡ w.new_rules
    pub bounded : load w' ≤ load w

  pub Extends-refl : (w : Work A) → Enqueued w → Extends w w
  Extends-refl w e = record {
    sound = λ f. f;
    grows = λ a m. m;
    queue_grows = λ a m. m;
    new_queued = λ a m. inl m;
    enqueued = e;
    pending = refl;
    bounded = omega arith;
  }

  pub Extends-trans : (u v w : Work A) → Extends u v → Extends v w → Extends u w
  Extends-trans u v w p q = record {
    sound = λ f. q.sound (p.sound f);
    grows = λ a m. q.grows a (p.grows a m);
    queue_grows = λ a m. q.queue_grows a (p.queue_grows a m);
    new_queued = λ a m. elim (q.new_queued a m) [
      | inr j ↦ inr j
      | inl i ↦ elim (p.new_queued a i) [ inl j ↦ inl j | inr j ↦ inr (q.queue_grows a j) ]
    ];
    enqueued = q.enqueued;
    pending = q.pending ∙ p.pending;
    bounded = omega (arith, p.bounded, q.bounded);
  }

  derive-Extends :
      (h : A) (body : List A) (w : Work A)
      → (h, body) ∈ rules
      → has h w.known ≡ false
      → body_known w.known body ≡ true
      → Enqueued w
      → Extends w (derive h (count_evaluation w))
  unfolding derive count_evaluation
  derive-Extends h body w m new ready e =
      let unseen : has h w.enqueued ≡ false = false_of_not (λ i. not_of_false new (e h i)) in
      rw unseen (record {
        sound = λ f a i. elim (mem-add h a w.known i) [
          | inl g ↦
              subst (Derives facts rules) (sym g)
                (rule body m (λ x j. f x (all_at (λ atom. has atom w.known) body x ready j)))
          | inr j ↦ f a j
        ];
        grows = λ a i. mem-add_of h a w.known i;
        queue_grows = λ a i. mem-append_left a w.queue (h ∷ []) i;
        new_queued = λ a i. elim (mem-add h a w.known i) [
          | inl g ↦
              inr
                (mem-append_right a w.queue (h ∷ []) (subst (λ y. a ∈ (y ∷ [])) g (mem_head a [])))
          | inr j ↦ inl j
        ];
        enqueued = λ a i. elim (mem_cases a h w.enqueued i) [
          | inl g ↦ subst (λ y. y ∈ add h w.known) (sym g) (mem-add_self h w.known)
          | inr j ↦ mem-add_of h a w.known (e a j)
        ];
        pending = refl;
        bounded = omega (
          arith,
          length-append w.queue (h ∷ []),
          missing_strict facts rules w.known (add h w.known) (h, body)
              (λ a i. mem-add_of h a w.known i) m new (mem-add_self h w.known),
        );
      })

  -- The outcome for the rule itself: once its body is known, its head is.
  pub record Handles (r : Rule A) (w w' : Work A) : Type ℓ where
    pub extends : Extends w w'
    pub handled : r.1 ⊆ w.known → r.0 ∈ w'.known

  ready_of : (known body : List A) → body_known known body ≡ false → ¬ (body ⊆ known)
  ready_of known body h below = not_of_false h (all_of (λ atom. has atom known) body below)

  counted_Extends : (w : Work A) → Enqueued w → Extends w (count_evaluation w)
  unfolding count_evaluation
  counted_Extends w e = record {
    sound = λ f. f;
    grows = λ a m. m;
    queue_grows = λ a m. m;
    new_queued = λ a m. inl m;
    enqueued = e;
    pending = refl;
    bounded = omega arith;
  }

  derived : (h : A) (w : Work A) → h ∈ (derive h (count_evaluation w)).known
  unfolding derive count_evaluation
  derived h w = mem-add_self h w.known

  pub evaluate_new-Handles :
      (r : Rule A) (w : Work A) → r ∈ rules → Enqueued w → Handles r w (evaluate_new r w)
  unfolding evaluate_new
  evaluate_new-Handles (h, body) w m e = elim (Bool-cases (has h w.known)) [
    | inl old ↦
        rw old (record {
          extends = counted_Extends w e;
          handled = λ _. (counted_Extends w e).grows h old;
        })
    | inr new ↦ elim (Bool-cases (body_known w.known body)) [
      | inl ready ↦
          rw (new, ready)
            (record { extends = derive-Extends h body w m new ready e; handled = λ _. derived h w })
      | inr waiting ↦
          rw (new, waiting)
            (record {
              extends = counted_Extends w e;
              handled = λ below. absurd (ready_of w.known body waiting below);
            })
    ]
  ]

  evaluate_premise-Handles :
      (r : Rule A) (w : Work A) → r ∈ rules → Enqueued w → Handles r w (evaluate_premise r w)
  unfolding evaluate_premise
  evaluate_premise-Handles (h, body) w m e = elim (Bool-cases (has h w.known)) [
    | inl old ↦ rw old (record { extends = Extends-refl w e; handled = λ _. old })
    | inr new ↦ elim (Bool-cases (body_known w.known body)) [
      | inl ready ↦
          rw (new, ready)
            (record { extends = derive-Extends h body w m new ready e; handled = λ _. derived h w })
      | inr waiting ↦
          rw (new, waiting)
            (record {
              extends = counted_Extends w e;
              handled = λ below. absurd (ready_of w.known body waiting below);
            })
    ]
  ]

  -- After the loop over the premise index every rule of it is either satisfied or waits for an
  -- atom that is in the queue.
  abbrev pub Waits : Rule A → Work A → Type ℓ
  Waits r w = r.1 ⊆ w.known → (r.0 ∈ w.known) ⊎ ((x : A) × (x ∈ r.1) × (x ∈ w.queue))

  -- A rule whose body is known later than it was is waited for by an atom of the queue.
  late :
      (r : Rule A) (u w : Work A)
      → Extends u w
      → body_known u.known r.1 ≡ false
      → r.1 ⊆ w.known
      → (x : A) × (x ∈ r.1) × (x ∈ w.queue)
  late r u w ext waiting below =
      let (x, m, out) = all_fails (λ atom. has atom u.known) r.1 waiting in
      (
        x,
        m,
        elim (ext.new_queued x (below x m)) [
          | inl old ↦ absurd (not_of_false out old)
          | inr queued ↦ queued
        ],
      )

  body_of : (r : Rule A) (u : Work A) → body_known u.known r.1 ≡ true → r.1 ⊆ u.known
  body_of r u ready x m = all_at (λ atom. has atom u.known) r.1 x ready m

  pub Waits-after : (r : Rule A) (u v w : Work A) → Handles r u v → Extends v w → Waits r w
  Waits-after r u v w h ext below = elim (Bool-cases (body_known u.known r.1)) [
    | inl ready ↦ inl (ext.grows r.0 (h.handled (body_of r u ready)))
    | inr waiting ↦ inr (late r u w (Extends-trans u v w h.extends ext) waiting below)
  ]

  pub Waits-grow : (r : Rule A) (u w : Work A) → Extends u w → Waits r u → Waits r w
  Waits-grow r u w ext waits below = elim (Bool-cases (body_known u.known r.1)) [
    | inr waiting ↦ inr (late r u w ext waiting below)
    | inl ready ↦ elim (waits (body_of r u ready)) [
      | inl m ↦ inl (ext.grows r.0 m)
      | inr (x, m, q) ↦ inr (x, m, ext.queue_grows x q)
    ]
  ]

  pub evaluate_premises-Waits :
      (rs : List (Rule A)) (w : Work A)
      → ((r : Rule A) → r ∈ rs → r ∈ rules)
      → Enqueued w
      → Extends w (evaluate_premises rs w)
        × ((r : Rule A) → r ∈ rs → Waits r (evaluate_premises rs w))
  unfolding evaluate_premises
  evaluate_premises-Waits [] w inside e = (Extends-refl w e, λ r m. absurd (not_mem_nil r m))
  evaluate_premises-Waits (r ∷ rest) w inside e =
      let h = evaluate_premise-Handles r w (inside r (mem_head r rest)) e in
      let v = evaluate_premise r w in
      let (ext, waits) =
        evaluate_premises-Waits rest v (λ x m. inside x (mem_tail x r rest m)) h.extends.enqueued in
      let last = evaluate_premises rest v in
      (
        Extends-trans w v last h.extends ext,
        λ x m. elim (mem_cases x r rest m) [
          | inl g ↦ subst (λ y. Waits y last) (sym g) (Waits-after r w v last h ext)
          | inr i ↦ waits x i
        ],
      )
