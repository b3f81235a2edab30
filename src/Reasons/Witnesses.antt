-- ===== src/Reasons/Witnesses.antt =====
-- What a reason's witnesses are.
use juris_calculus.Prelude.{
  none, refl, sym, ap, true, false, Option, ◌++◌, length, suc, arith, Memᴰ, Key, ◌≡◌, subst, ◌∙◌,
  ◌↔◌, inl, inr, Bool-cases, some, Option-cases, ℕ, ◌+◌, List, [], ◌∷◌, filter, has, ◌∈◌, sort,
  has-sort, pair_key, mem_head, mem_tail, mem_cases, not_mem_nil, mem-filter, mem-filter_of,
  mem-append, mem-append_left, mem-append_right,
}
use juris_calculus.Reasons.{scc_of, scc_nodes, scc_id_of, is_cyclic, defenders_of}

plus_zero : (n : ℕ) → n ≡ n + 0
plus_zero n = omega arith

module _ {ℓ} {A : Type ℓ} ⦃k : Key A⦄ where
  pub mem-defenders_of :
      (atk : A → List A) (accepted bs : List A) (d : A)
      → (d ∈ defenders_of atk accepted bs) ↔ ((d ∈ accepted) × ((a : A) × (a ∈ bs) × (d ∈ atk a)))
  unfolding defenders_of
  mem-defenders_of atk accepted [] d =
      (λ m. absurd (not_mem_nil d m), λ (_, (a, i, _)). absurd (not_mem_nil a i))
  mem-defenders_of atk accepted (a ∷ rest) d =
      let (to, from) = mem-defenders_of atk accepted rest d in
      let now = filter (λ x. has x accepted) (atk a) in
      (
        λ m. elim (mem-append d now (defenders_of atk accepted rest) m) [
          | inl i ↦
              let (on, e) = mem-filter (λ x. has x accepted) (atk a) d i in
              (e, (a, mem_head a rest, on))
          | inr j ↦ let (e, (b, i, on)) = to j in (e, (b, mem_tail b a rest i, on))
        ],
        λ (e, (b, i, on)). elim (mem_cases b a rest i) [
          | inl same ↦
              mem-append_left d now (defenders_of atk accepted rest)
                (mem-filter_of (λ x. has x accepted) (atk a) d (subst (λ x. d ∈ atk x) same on) e)
          | inr later ↦
              mem-append_right d now (defenders_of atk accepted rest) (from (e, (b, later, on)))
        ],
      )

  pub mem-chosen :
      (chosen found : List A) (w : A)
      → (w ∈ sort (filter (λ a. has a chosen) found)) ↔ ((w ∈ chosen) × (w ∈ found))
  mem-chosen chosen found w = (
    λ m. let (i, e) = mem-filter (λ a. has a chosen) found w (rw has-sort at m) in (e, i),
    λ (e, i). rw has-sort (mem-filter_of (λ a. has a chosen) found w i e),
  )

  -- `scc_map` holds for an argument the last component with it, and its index.
  pub record LastWith (c : A) (sccs : List (List A)) (index : ℕ) (nodes : List A) : Type ℓ where
    pub before : List (List A)
    pub after : List (List A)
    pub split : sccs ≡ before ++ (nodes ∷ after)
    pub index_is : index ≡ length before
    pub holds : c ∈ nodes
    pub not_after : (s : List A) → Memᴰ s after → has c s ≡ false

  -- The nodes that stand for an argument: those of its last component, or itself where no component
  -- has it.
  pub data NodesOf (c : A) (sccs : List (List A)) : Option ℕ → List A → Type ℓ where
    component :
        (index : ℕ) (nodes : List A)
        → LastWith c sccs index nodes
        → NodesOf c sccs (some index) nodes
    alone : ((s : List A) → Memᴰ s sccs → has c s ≡ false) → NodesOf c sccs none (c ∷ [])

  -- More than one node, or one that attacks itself.
  pub data Cyclic (attacks : List (A × A)) : List A → Type ℓ where
    several : (v w : A) (rest : List A) → Cyclic attacks (v ∷ w ∷ rest)
    self_attack : (v : A) → (v, v) ∈ attacks → Cyclic attacks (v ∷ [])

  pub is_cyclic_lem :
      (attacks : List (A × A)) (nodes : List A)
      → (is_cyclic attacks nodes ≡ true) ↔ Cyclic attacks nodes
  unfolding is_cyclic
  is_cyclic_lem attacks [] = (λ h. cc, λ v. elim v [ ])
  is_cyclic_lem attacks (v ∷ []) = (λ h. self_attack v h, λ u. elim u [ self_attack _ h ↦ h ])
  is_cyclic_lem attacks (v ∷ w ∷ rest) = (λ h. several v w rest, λ u. refl)

  -- From the component numbered `n` on.
  scc_of-none :
      (n : ℕ) (c : A) (sccs : List (List A))
      → scc_of n c sccs ≡ none
      → (s : List A) → Memᴰ s sccs
      → has c s ≡ false
  unfolding scc_of
  scc_of-none n c [] h s m = elim m [ ]
  scc_of-none n c (scc ∷ rest) h s m = elim (Option-cases (scc_of (n + 1) c rest)) [
    | inl missing ↦ elim (Bool-cases (has c scc)) [
      | inl here ↦ cc (rw (missing, here) at h)
      | inr elsewhere ↦ elim m [
        | Memᴰ.head e ↦ subst (λ xs. has c xs ≡ false) (sym e) elsewhere
        | Memᴰ.tail r ↦ scc_of-none (n + 1) c rest missing s r
      ]
    ]
    | inr (found, e) ↦ cc (rw e at h)
  ]

  scc_of-some :
      (n : ℕ) (c : A) (sccs : List (List A)) (index : ℕ) (nodes : List A)
      → scc_of n c sccs ≡ some (index, nodes)
      → (i : ℕ) × (index ≡ n + i) × LastWith c sccs i nodes
  unfolding scc_of
  scc_of-some n c [] index nodes h = cc
  scc_of-some n c (scc ∷ rest) index nodes h = elim (Option-cases (scc_of (n + 1) c rest)) [
    | inl missing ↦ elim (Bool-cases (has c scc)) [
      | inl here ↦
          let same : some (n, scc) ≡ some (index, nodes) = rw (missing, here) at h in
          let at_n : n ≡ index = cc same in
          let nodes_are : scc ≡ nodes = cc same in
          (
            0,
            sym at_n ∙ plus_zero n,
            record {
              before = [];
              after = rest;
              split = ap (λ x. x ∷ rest) nodes_are;
              index_is = refl;
              holds = subst (λ x. c ∈ x) nodes_are here;
              not_after = scc_of-none (n + 1) c rest missing;
            },
          )
      | inr elsewhere ↦ cc (rw (missing, elsewhere) at h)
    ]
    | inr (found, e) ↦
        let (i, is, last) = scc_of-some (n + 1) c rest index nodes (e ∙ (rw e at h)) in
        (
          suc i,
          omega (arith, is),
          record {
            before = scc ∷ last.before;
            after = last.after;
            split = ap (λ x. scc ∷ x) last.split;
            index_is = ap suc last.index_is;
            holds = last.holds;
            not_after = last.not_after;
          },
        )
  ]

  pub nodes-NodesOf :
      (c : A) (sccs : List (List A))
      → NodesOf c sccs (scc_id_of (scc_of 0 c sccs)) (scc_nodes c (scc_of 0 c sccs))
  unfolding scc_nodes scc_id_of
  nodes-NodesOf c sccs = elim (Option-cases (scc_of 0 c sccs)) [
    | inl missing ↦ rw missing (alone (scc_of-none 0 c sccs missing))
    | inr ((index, nodes), e) ↦
        let (i, is, last) = scc_of-some 0 c sccs index nodes e in
        rw e (component index nodes (subst (λ j. LastWith c sccs j nodes) (omega (arith, is)) last))
  ]
