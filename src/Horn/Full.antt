-- ===== src/Horn/Full.antt =====
-- `horn_closure`, against derivability.
use juris_calculus.Prelude.{
  Key, ℕ, zero, suc, ◌+◌, ◌≤◌, ◌<◌, ◌≡◌, refl, sym, subst, ◌↔◌, Bool, true, false, not, List, [],
  ◌∷◌, some, arith, Bool-cases, false_of_not, not_of_false, length, filter, all, has, ◌∈◌, ◌⊆◌, add,
  dedup, mem-dedup, mem_head, mem_tail, mem_cases, not_mem_nil, mem-add, mem-add_self, mem-add_of,
  all_at, all_of, length-filter-le, length-filter_mono, length-filter_strict, pair_key, list_key,
  ◌⊎◌, inl, inr,
}
use juris_calculus.Horn.{Rule, HornSubject, fire, scan, closure_loop, horn_closure}

true_not_false : ¬ (◌≡◌ {A = Bool} true false)
true_not_false h = cc

module _ {ℓ} {A : Type ℓ} ⦃k : Key A⦄ where
  -- What the facts and rules derive.
  pub data Derives (facts : List A) (rules : List (Rule A)) : A → Type ℓ where
    fact : {a : A} → a ∈ facts → Derives facts rules a
    rule :
        {h : A} (body : List A)
        → (h, body) ∈ rules
        → ((x : A) → x ∈ body → Derives facts rules x)
        → Derives facts rules h

  abbrev pub body_known : List A → List A → Bool
  body_known known body = all (λ atom. has atom known) body

  -- A set that holds the head of each rule whose body it holds.
  abbrev pub ClosedUnder : List (Rule A) → List A → Type ℓ
  ClosedUnder rules s = (h : A) (body : List A) → (h, body) ∈ rules → body ⊆ s → h ∈ s

  pub derives_within :
      (facts : List A) (rules : List (Rule A)) (s : List A) {a : A}
      → facts ⊆ s
      → ClosedUnder rules s
      → Derives facts rules a
      → a ∈ s
  derives_within facts rules s below closed (fact m) = below _ m
  derives_within facts rules s below closed (rule body m f) =
      closed _ _ m (λ x i. derives_within facts rules s below closed (f x i))

  module _ (facts : List A) (rules : List (Rule A)) where
    abbrev pub Sound : List A → Type ℓ
    Sound s = (a : A) → a ∈ s → Derives facts rules a

    -- The rules whose head is still missing.
    abbrev pub missing : List A → ℕ
    missing s = length (filter (λ r. not (has r.0 s)) rules)

    pub missing_mono : (s t : List A) → s ⊆ t → missing t ≤ missing s
    missing_mono s t f =
        length-filter_mono (λ (r : Rule A). not (has r.0 t)) (λ r. not (has r.0 s)) rules
          (λ r _ e. ground (arith, e, f r.0))

    pub missing_strict :
        (s t : List A) (r : Rule A)
        → s ⊆ t
        → r ∈ rules
        → has r.0 s ≡ false
        → r.0 ∈ t
        → missing t < missing s
    missing_strict s t r f m out on =
        length-filter_strict (λ (r : Rule A). not (has r.0 t)) (λ r. not (has r.0 s)) rules r
          (λ x _ e. ground (arith, e, f x.0)) m (rw out) (rw on)

    -- One pass over some of the rules, from `s` to `t`.
    record Pass (rs : List (Rule A)) (s : List A) (c : Bool) (t : List A) (d : Bool) : Type ℓ where
      sound : Sound s → Sound t
      grows : s ⊆ t
      flag_kept : c ≡ true → d ≡ true
      unchanged : d ≡ false → (t ⊆ s) × ClosedUnder rs t
      progress : d ≡ true → (c ≡ true) ⊎ (missing t < missing s)

    fire-Pass :
        (r : Rule A) (s : List A) (c : Bool)
        → r ∈ rules
        → Pass (r ∷ []) s c (fire r (s, c)).0 (fire r (s, c)).1
    unfolding fire
    fire-Pass (h, body) s c m = elim (Bool-cases (has h s)) [
      | inl old ↦ rw old (record {
        sound = λ f. f;
        grows = λ a i. i;
        flag_kept = λ e. e;
        unchanged = λ _. (
          λ a i. i,
          λ x b i _. elim (mem_cases (x, b) (h, body) [] i) [
            | inl e ↦ let same : x ≡ h = cc in subst (λ y. y ∈ s) (sym same) old
            | inr n ↦ absurd (not_mem_nil (x, b) n)
          ],
        );
        progress = inl;
      })
      | inr new ↦ elim (Bool-cases (body_known s body)) [
        | inl ready ↦
            rw (new, ready)
              (record {
                sound = λ f a i. elim (mem-add h a s i) [
                  | inl e ↦
                      subst (Derives facts rules) (sym e)
                        (rule body m (λ x j. f x (all_at (λ atom. has atom s) body x ready j)))
                  | inr j ↦ f a j
                ];
                grows = λ a i. mem-add_of h a s i;
                flag_kept = λ _. refl;
                unchanged = λ e. absurd (true_not_false e);
                progress = λ _. inr (
                    missing_strict s (add h s) (h, body) (λ a i. mem-add_of h a s i) m new
                      (mem-add_self h s));
              })
        | inr waiting ↦
            rw (new, waiting)
              (record {
                sound = λ f. f;
                grows = λ a i. i;
                flag_kept = λ e. e;
                unchanged = λ _. (
                  λ a i. i,
                  λ x b i below. elim (mem_cases (x, b) (h, body) [] i) [
                    | inl e ↦
                        let same : b ≡ body = cc in
                        absurd (
                          not_of_false waiting (
                            all_of (λ atom. has atom s) body
                              (λ y j. below y (subst (λ z. y ∈ z) (sym same) j))))
                    | inr n ↦ absurd (not_mem_nil (x, b) n)
                  ],
                );
                progress = inl;
              })
      ]
    ]

    -- Two passes in a row.
    Pass-trans :
        (rs ts : List (Rule A)) (s t u : List A) (c d e : Bool)
        → Pass rs s c t d
        → Pass ts t d u e
        → ((r : Rule A) → r ∈ ts → r ∈ rules)
        → (all_rs : List (Rule A)) → ((r : Rule A) → r ∈ all_rs → (r ∈ rs) ⊎ (r ∈ ts))
        → Pass all_rs s c u e
    Pass-trans rs ts s t u c d e p q _ all_rs split = record {
      sound = λ f. q.sound (p.sound f);
      grows = λ a i. q.grows a (p.grows a i);
      flag_kept = λ f. q.flag_kept (p.flag_kept f);
      unchanged = λ quiet.
          let (back, closed) = q.unchanged quiet in
          let d_false : d ≡ false = false_of_not (λ f. not_of_false quiet (q.flag_kept f)) in
          let (back', closed') = p.unchanged d_false in
          (
            λ a i. back' a (back a i),
            λ h body i below. elim (split (h, body) i) [
              | inl j ↦ q.grows h (closed' h body j (λ x m. back x (below x m)))
              | inr j ↦ closed h body j below
            ],
          );
      progress = λ f. elim (q.progress f) [
        | inl g ↦ elim (p.progress g) [
          | inl h ↦ inl h
          | inr h ↦ inr (omega (arith, missing_mono t u q.grows))
        ]
        | inr h ↦ inr (omega (arith, missing_mono s t p.grows))
      ];
    }

    scan-Pass :
        (rs : List (Rule A)) (s : List A) (c : Bool)
        → ((r : Rule A) → r ∈ rs → r ∈ rules)
        → Pass rs s c (scan rs (s, c)).0 (scan rs (s, c)).1
    unfolding scan
    scan-Pass [] s c m = record {
      sound = λ f. f;
      grows = λ a i. i;
      flag_kept = λ e. e;
      unchanged = λ _. (λ a i. i, λ h body i. absurd (not_mem_nil (h, body) i));
      progress = inl;
    }
    scan-Pass (r ∷ rest) s c m =
        let after = fire r (s, c) in
        Pass-trans (r ∷ []) rest s after.0 (scan rest after).0 c after.1 (scan rest after).1
          (fire-Pass r s c (m r (mem_head r rest)))
          (scan-Pass rest after.0 after.1 (λ x i. m x (mem_tail x r rest i)))
          (λ x i. m x (mem_tail x r rest i)) (r ∷ rest)
          (λ x i. elim (mem_cases x r rest i) [
            | inl e ↦ inl (subst (λ y. y ∈ (r ∷ [])) (sym e) (mem_head r []))
            | inr j ↦ inr j
          ])

    closure_loop_ends :
        (fuel : ℕ) (s : List A)
        → missing s < fuel
        → Sound s
        → (t : List A) × (closure_loop rules fuel s ≡ some t)
          × Sound t
          × (s ⊆ t)
          × ClosedUnder rules t
    unfolding closure_loop
    closure_loop_ends zero s h f = absurd (omega arith)
    closure_loop_ends (suc fuel) s h f =
        let after = scan rules (s, false) in
        let p = scan-Pass rules s false (λ r m. m) in
        elim (Bool-cases after.1) [
          | inr quiet ↦ (after.0, rw quiet, p.sound f, p.grows, (p.unchanged quiet).1)
          | inl more ↦
              let fewer : missing after.0 < missing s = elim (p.progress more) [
                | inl e ↦ absurd (true_not_false (sym e))
                | inr g ↦ g
              ] in
              let (t, e, sound, grows, closed) =
                closure_loop_ends fuel after.0 (omega arith) (p.sound f) in
              (t, rw more e, sound, λ a i. grows a (p.grows a i), closed)
        ]

-- The full closure returns within its fuel, and it holds exactly the derivable atoms.
pub horn_closure-Derives {ℓ} :
    {A : Type ℓ} ⦃k : Key A⦄ (subject : HornSubject A)
    → (t : List A) × (horn_closure subject ≡ some t)
      × ((a : A) → (a ∈ t) ↔ Derives subject.facts subject.rules a)
unfolding horn_closure
horn_closure-Derives subject =
    let bound = length-filter-le (λ r. not (has r.0 (dedup subject.facts))) subject.rules in
    let (t, e, sound, grows, closed) =
      closure_loop_ends subject.facts subject.rules (length subject.rules + 1) (dedup subject.facts)
        (omega (arith, bound)) (λ a m. fact ((mem-dedup a subject.facts).0 m)) in
    (
      t,
      e,
      λ a. (
        sound a,
        derives_within subject.facts subject.rules t
            (λ x m. grows x ((mem-dedup x subject.facts).1 m)) closed,
      ),
    )
