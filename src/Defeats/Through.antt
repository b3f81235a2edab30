-- ===== src/Defeats/Through.antt =====
-- One `middle` of the closure loop, against chains of preferences.
use juris_calculus.Prelude.{
  Key, ◌≡◌, sym, subst, List, [], ◌∷◌, if◌then◌else◌, Bool-cases, filter, has, ◌∈◌, map, concat_map,
  mem_head, mem_tail, mem_cases, not_mem_nil, mem-append, mem-append_left, mem-append_right,
  mem-filter, mem-filter_of, pair_key, ◌⊎◌, inl, inr, ⊎_elim,
}
use juris_calculus.Defeats.{close_through, close_all}

module _ {ℓ} {A : Type ℓ} ⦃k : Key A⦄ where
  -- One argument is preferred over another along a chain of edges.
  pub data Preferred (edges : List (A × A)) : A → A → Type ℓ where
    direct : {a b : A} → (a, b) ∈ edges → Preferred edges a b
    chain : {a b c : A} → Preferred edges a b → Preferred edges b c → Preferred edges a c

  module _ (start : A) where
    abbrev pairs_from : List A → List (A × A)
    pairs_from ends = map (λ end. (start, end)) ends

    mem-pairs : (ends : List A) (a b : A) → (a, b) ∈ pairs_from ends → (a ≡ start) × (b ∈ ends)
    mem-pairs [] a b h = absurd (not_mem_nil (a, b) h)
    mem-pairs (x ∷ xs) a b h = elim (mem_cases (a, b) (start, x) _ h) [
      | inl e ↦ let same : b ≡ x = cc in (cc, subst (λ y. y ∈ (x ∷ xs)) (sym same) (mem_head x xs))
      | inr r ↦ let (e, m) = mem-pairs xs a b r in (e, mem_tail b x xs m)
    ]

    mem-pairs_of : (ends : List A) (b : A) → b ∈ ends → (start, b) ∈ pairs_from ends
    mem-pairs_of [] b h = absurd (not_mem_nil b h)
    mem-pairs_of (x ∷ xs) b h = elim (mem_cases b x xs h) [
      | inl e ↦ subst (λ y. (start, b) ∈ ((start, y) ∷ pairs_from xs)) e (mem_head (start, b) _)
      | inr r ↦ mem_tail (start, b) (start, x) _ (mem-pairs_of xs b r)
    ]

  module _ (reach : List (A × A)) (nodes : List A) (middle : A) where
    abbrev row : A → List (A × A)
    row start =
        if has (start, middle) reach
        then map (λ end. (start, end)) (filter (λ end. has (middle, end) reach) nodes)
        else []

    mem-rows :
        (starts : List A) (a b : A)
        → (a, b) ∈ concat_map row starts
        → ((a, middle) ∈ reach) × ((middle, b) ∈ reach)
    unfolding concat_map
    mem-rows [] a b h = absurd (not_mem_nil (a, b) h)
    mem-rows (s ∷ rest) a b h = elim (mem-append (a, b) (row s) (concat_map row rest) h) [
      | inr r ↦ mem-rows rest a b r
      | inl here ↦ elim (Bool-cases (has (s, middle) reach)) [
        | inr out ↦ absurd (not_mem_nil (a, b) (rw out at here))
        | inl on ↦
            let (e, m) =
              mem-pairs s (filter (λ end. has (middle, end) reach) nodes) a b (rw on at here) in
            let (_, f) = mem-filter (λ end. has (middle, end) reach) nodes b m in
            (subst (λ x. (x, middle) ∈ reach) (sym e) on, f)
      ]
    ]

    mem-rows_of :
        (starts : List A) (a b : A)
        → a ∈ starts
        → b ∈ nodes
        → (a, middle) ∈ reach
        → (middle, b) ∈ reach
        → (a, b) ∈ concat_map row starts
    unfolding concat_map
    mem-rows_of [] a b i j f g = absurd (not_mem_nil a i)
    mem-rows_of (s ∷ rest) a b i j f g = elim (mem_cases a s rest i) [
      | inr r ↦ mem-append_right (a, b) (row s) (concat_map row rest) (mem-rows_of rest a b r j f g)
      | inl e ↦
          mem-append_left (a, b) (row s) (concat_map row rest)
            (subst (λ x. (a, b) ∈ row x) e
              (rw f (
                mem-pairs_of a (filter (λ end. has (middle, end) reach) nodes) b
                  (mem-filter_of (λ end. has (middle, end) reach) nodes b j g))))
    ]

    pub mem-close_through :
        (a b : A)
        → (a, b) ∈ close_through nodes middle reach
        → ((a, b) ∈ reach) ⊎ ((a, middle) ∈ reach) × ((middle, b) ∈ reach)
    unfolding close_through
    mem-close_through a b h = elim (mem-append (a, b) reach (concat_map row nodes) h) [
      | inl old ↦ inl old
      | inr new ↦ inr (mem-rows nodes a b new)
    ]

    pub mem-close_through_old :
        (a b : A) → (a, b) ∈ reach → (a, b) ∈ close_through nodes middle reach
    unfolding close_through
    mem-close_through_old a b h = mem-append_left (a, b) reach (concat_map row nodes) h

    pub mem-close_through_new :
        (a b : A)
        → a ∈ nodes
        → b ∈ nodes
        → (a, middle) ∈ reach
        → (middle, b) ∈ reach
        → (a, b) ∈ close_through nodes middle reach
    unfolding close_through
    mem-close_through_new a b i j f g =
        mem-append_right (a, b) reach (concat_map row nodes) (mem-rows_of nodes a b i j f g)

  -- Chains through the middles handled so far are already edges of `reach`.
  abbrev pub ClosedThrough : List (A × A) → List A → Type ℓ
  ClosedThrough reach done =
      (a x b : A) → x ∈ done → (a, x) ∈ reach → (x, b) ∈ reach → (a, b) ∈ reach

  pub record Inv (edges reach : List (A × A)) (nodes : List A) : Type ℓ where
    pub keeps : (a b : A) → (a, b) ∈ edges → (a, b) ∈ reach
    pub sound : (a b : A) → (a, b) ∈ reach → Preferred edges a b
    pub inside : (a b : A) → (a, b) ∈ reach → (a ∈ nodes) × (b ∈ nodes)

  module _ (edges reach : List (A × A)) (nodes : List A) (middle : A) where
    abbrev next : List (A × A)
    next = close_through nodes middle reach

    Inv-close_through : Inv edges reach nodes → Inv edges next nodes
    Inv-close_through v = record {
      keeps = λ a b h. mem-close_through_old reach nodes middle a b (v.keeps a b h);
      sound = λ a b h. elim (mem-close_through reach nodes middle a b h) [
        | inl old ↦ v.sound a b old
        | inr (f, g) ↦ chain (v.sound a middle f) (v.sound middle b g)
      ];
      inside = λ a b h. elim (mem-close_through reach nodes middle a b h) [
        | inl old ↦ v.inside a b old
        | inr (f, g) ↦ ((v.inside a middle f).0, (v.inside middle b g).1)
      ];
    }

    -- An edge of the next relation into or out of the middle is an old one.
    into_middle : (a : A) → (a, middle) ∈ next → (a, middle) ∈ reach
    into_middle a h = elim (mem-close_through reach nodes middle a middle h) [
      | inl old ↦ old
      | inr (f, g) ↦ f
    ]

    from_middle : (b : A) → (middle, b) ∈ next → (middle, b) ∈ reach
    from_middle b h = elim (mem-close_through reach nodes middle middle b h) [
      | inl old ↦ old
      | inr (f, g) ↦ g
    ]

    join :
        Inv edges reach nodes
        → (a b : A) → (a, middle) ∈ reach
        → (middle, b) ∈ reach
        → (a, b) ∈ next
    join v a b f g =
        mem-close_through_new reach nodes middle a b (v.inside a middle f).0 (v.inside middle b g).1
          f g

    ClosedThrough-close_through :
        (done : List A)
        → Inv edges reach nodes
        → ClosedThrough reach done
        → ClosedThrough next (middle ∷ done)
    ClosedThrough-close_through done v closed a x b m p q = elim (mem_cases x middle done m) [
      | inl e ↦
          join v a b (into_middle a (subst (λ y. (a, y) ∈ next) e p))
            (from_middle b (subst (λ y. (y, b) ∈ next) e q))
      | inr r ↦ elim (mem-close_through reach nodes middle a x p) [
        | inl f ↦ elim (mem-close_through reach nodes middle x b q) [
          | inl g ↦ mem-close_through_old reach nodes middle a b (closed a x b r f g)
          | inr (g, h) ↦ join v a b (closed a x middle r f g) h
        ]
        | inr (f, g) ↦ elim (mem-close_through reach nodes middle x b q) [
          | inl h ↦ join v a b f (closed middle x b r g h)
          | inr (_, h) ↦ join v a b f h
        ]
      ]
    ]

  pub close_all-closed :
      (edges : List (A × A)) (nodes rest done : List A) (reach : List (A × A))
      → Inv edges reach nodes
      → ClosedThrough reach done
      → Inv edges (close_all nodes rest reach) nodes
        × ((x : A)
            → (x ∈ rest) ⊎ (x ∈ done)
            → (a b : A) → (a, x) ∈ close_all nodes rest reach
            → (x, b) ∈ close_all nodes rest reach
            → (a, b) ∈ close_all nodes rest reach)
  unfolding close_all
  close_all-closed edges nodes [] done reach v closed =
      (v, λ x m a b. closed a x b (⊎_elim (λ h. absurd (not_mem_nil x h)) (λ h. h) m))
  close_all-closed edges nodes (middle ∷ rest) done reach v closed =
      let (w, all_closed) =
        close_all-closed edges nodes rest (middle ∷ done) (close_through nodes middle reach)
          (Inv-close_through edges reach nodes middle v)
          (ClosedThrough-close_through edges reach nodes middle done v closed) in
      (
        w,
        λ x m. all_closed x (
            ⊎_elim
              (λ h.
                ⊎_elim (λ e. inr (subst (λ y. x ∈ (y ∷ done)) e (mem_head x done))) inl
                  (mem_cases x middle rest h))
              (λ h. inr (mem_tail x middle done h)) m),
      )
