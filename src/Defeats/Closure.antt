-- ===== src/Defeats/Closure.antt =====
-- `_strict_preference_closure_v5`, against chains of preferences.
use juris_calculus.Prelude.{
  Key, ◌≡◌, sym, subst, ◌↔◌, false, List, [], ◌∷◌, none, some, Bool-cases, Option-cases,
  not_of_false, has, ◌∈◌, has-sort, mem-dedup, mem_head, mem_tail, mem_cases, not_mem_nil, pair_key,
  ◌⊎◌, inl, inr, ok, err,
}
use juris_calculus.Defeats.{
  priority_cycle_unresolved, endpoints, close_all, find_loop, priority_nodes,
  strict_preference_closure,
}
use juris_calculus.Defeats.Through.{Preferred, direct, chain, Inv, close_all-closed}

module _ {ℓ} {A : Type ℓ} ⦃k : Key A⦄ where
  mem-endpoints :
      (edges : List (A × A)) (a b : A)
      → (a, b) ∈ edges
      → (a ∈ endpoints edges) × (b ∈ endpoints edges)
  unfolding endpoints
  mem-endpoints [] a b h = absurd (not_mem_nil (a, b) h)
  mem-endpoints ((x, y) ∷ rest) a b h = elim (mem_cases (a, b) (x, y) rest h) [
    | inl e ↦
        let first : a ≡ x = cc in
        let second : b ≡ y = cc in
        (
          subst (λ z. a ∈ (z ∷ y ∷ endpoints rest)) first (mem_head a _),
          mem_tail b x _ (subst (λ z. b ∈ (z ∷ endpoints rest)) second (mem_head b _)),
        )
    | inr r ↦
        let (i, j) = mem-endpoints rest a b r in
        (mem_tail a x _ (mem_tail a y _ i), mem_tail b x _ (mem_tail b y _ j))
  ]

  abbrev closure : List (A × A) → List (A × A)
  closure edges = close_all (priority_nodes edges) (priority_nodes edges) edges

  start-Inv : (edges : List (A × A)) → Inv edges edges (priority_nodes edges)
  unfolding priority_nodes
  start-Inv edges = record {
    keeps = λ a b h. h;
    sound = λ a b h. direct h;
    inside = λ a b h.
        let (i, j) = mem-endpoints edges a b h in
        (rw has-sort ((mem-dedup a _).1 i), rw has-sort ((mem-dedup b _).1 j));
  }

  -- Membership in the computed relation is being preferred along a chain.
  mem-closure : (edges : List (A × A)) (a b : A) → ((a, b) ∈ closure edges) ↔ Preferred edges a b
  mem-closure edges a b = (v.sound a b, to)
    where
      both :
          Inv edges (closure edges) (priority_nodes edges)
          × ((x : A)
              → (x ∈ priority_nodes edges) ⊎ (x ∈ [])
              → (c d : A) → (c, x) ∈ closure edges
              → (x, d) ∈ closure edges
              → (c, d) ∈ closure edges)
      both =
          close_all-closed edges (priority_nodes edges) (priority_nodes edges) [] edges
            (start-Inv edges) (λ c x d m. absurd (not_mem_nil x m))

      v : Inv edges (closure edges) (priority_nodes edges)
      v = both.0

      to : {c d : A} → Preferred edges c d → (c, d) ∈ closure edges
      to (direct h) = v.keeps _ _ h
      to (chain p q) = let f = to p in let g = to q in both.1 _ (inl (v.inside _ _ f).1) _ _ f g

  some_not_none : {a : A} → ¬ (some a ≡ none)
  some_not_none h = cc

  find_loop-none :
      (nodes : List A) (reach : List (A × A)) (a : A)
      → find_loop nodes reach ≡ none
      → a ∈ nodes
      → has (a, a) reach ≡ false
  unfolding find_loop
  find_loop-none [] reach a h m = absurd (not_mem_nil a m)
  find_loop-none (x ∷ xs) reach a h m = elim (Bool-cases (has (x, x) reach)) [
    | inl on ↦ absurd (some_not_none (rw on at h))
    | inr out ↦ elim (mem_cases a x xs m) [
      | inl e ↦ subst (λ y. has (y, y) reach ≡ false) (sym e) out
      | inr r ↦ find_loop-none xs reach a (rw out at h) r
    ]
  ]

  find_loop_some :
      (nodes : List A) (reach : List (A × A)) (a : A)
      → find_loop nodes reach ≡ some a
      → (a, a) ∈ reach
  unfolding find_loop
  find_loop_some [] reach a h = cc
  find_loop_some (x ∷ xs) reach a h = elim (Bool-cases (has (x, x) reach)) [
    | inl on ↦
        let whole : some x ≡ some a = rw on at h in
        let same : x ≡ a = cc whole in subst (λ y. (y, y) ∈ reach) same on
    | inr out ↦ find_loop_some xs reach a (rw out at h)
  ]

  module _ (edges : List (A × A)) where
    pub record IsStrictClosure (closure : List (A × A)) : Type ℓ where
      pub chains : (a b : A) → ((a, b) ∈ closure) ↔ Preferred edges a b
      pub strict : (a : A) → ¬ Preferred edges a a

    closure-none :
        find_loop (priority_nodes edges) (closure edges) ≡ none → IsStrictClosure (closure edges)
    closure-none e = record {
      chains = mem-closure edges;
      strict = λ a p.
          let m = (mem-closure edges a a).1 p in
          let inside =
            (close_all-closed edges (priority_nodes edges) (priority_nodes edges) [] edges
                (start-Inv edges) (λ c x d i. absurd (not_mem_nil x i))).0.inside
              a a m in
          not_of_false (find_loop-none (priority_nodes edges) (closure edges) a e inside.0) m;
    }

    -- The call returns the strict preference of the edges, or it fails with an argument that a
    -- preference cycle runs through.
    pub strict_preference_closure-IsStrictClosure :
        ((r : List (A × A)) × (strict_preference_closure edges ≡ ok r) × IsStrictClosure r)
        ⊎ ((node : A) × (strict_preference_closure edges ≡ err (priority_cycle_unresolved node))
            × Preferred edges node node)
    unfolding strict_preference_closure
    strict_preference_closure-IsStrictClosure =
        elim (Option-cases (find_loop (priority_nodes edges) (closure edges))) [
          | inl e ↦ inl (closure edges, rw (e, strict_preference_closure), closure-none e)
          | inr (node, e) ↦ inr (
            node,
            rw (e, strict_preference_closure),
            (mem-closure edges node node).0
                (find_loop_some (priority_nodes edges) (closure edges) node e),
          )
        ]
