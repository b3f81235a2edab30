-- ===== src/Companions/Outcome.antt =====
-- When `order_deadline_rules` returns an order, and when it fails.
use juris_calculus.Prelude.{
  Key, ◌⊎◌, ◌≡◌, refl, sym, subst, inl, inr, List, [], ◌∷◌, ◌++◌, none, some, ◌∈◌, ◌⊆◌, lookup,
  mem-append, mem-append_left, mem_cases, not_mem_nil, not_of_false, Result, ok, err,
}
use juris_calculus.Calendar.{DeadlineError, companion_unknown, companion_cycle}
use juris_calculus.Companions.{order_deadline_rules}
use juris_calculus.Companions.Order.{
  CompanionsFirst, none_yet, after_companions, order_deadline_rules-CompanionsFirst,
}
use juris_calculus.Companions.Ends.{
  Leads, requires, onwards, Reaches, Ended, returns, unknown_key, cyclic_key,
  order_deadline_rules-Ended,
}

module _ {ℓ} {K : Type ℓ} ⦃k : Key K⦄ (registry : List (K × List K)) where
  -- Some requested key reaches a key that the registry lacks.
  abbrev pub SomeUnknown : List K → Type ℓ
  SomeUnknown requested =
      (a : K) × (b : K) × (a ∈ requested) × Reaches registry a b × (lookup b registry ≡ none)

  -- Some requested key reaches a key that leads back to itself.
  abbrev pub SomeCycle : List K → Type ℓ
  SomeCycle requested =
      (a : K) × (b : K) × (a ∈ requested) × Reaches registry a b × Leads registry b b

  pub data Outcome (requested : List K) : Result DeadlineError (List K) → Type ℓ where
    in_order :
        (ordered : List K)
        → ¬ SomeUnknown requested
        → ¬ SomeCycle requested
        → Outcome requested (ok ordered)
    unknown_companion : SomeUnknown requested → Outcome requested (err companion_unknown)
    cyclic_companion : SomeCycle requested → Outcome requested (err companion_cycle)

  last_or_before : (a key : K) (xs : List K) → a ∈ (xs ++ key ∷ []) → (a ∈ xs) ⊎ (a ≡ key)
  last_or_before a key xs m = elim (mem-append a xs (key ∷ []) m) [
    | inl before ↦ inl before
    | inr at_end ↦ elim (mem_cases a key [] at_end) [
      | inl same ↦ inr same
      | inr gone ↦ absurd (not_mem_nil a gone)
    ]
  ]

  -- An ordered key is in the registry, and its companions are ordered.
  companions_in :
      (ordered : List K)
      → CompanionsFirst registry ordered
      → (a : K) → a ∈ ordered
      → (cs : List K) × (lookup a registry ≡ some cs) × (cs ⊆ ordered)
  companions_in _ none_yet a m = absurd (not_mem_nil a m)
  companions_in _ (after_companions xs key companions first e before _) a m =
      elim (last_or_before a key xs m) [
        | inl i ↦
            let (cs, f, inside) = companions_in xs first a i in
            (cs, f, λ b j. mem-append_left b xs (key ∷ []) (inside b j))
        | inr same ↦ (
          companions,
          subst (λ x. lookup x registry ≡ some companions) (sym same) e,
          λ b j. mem-append_left b xs (key ∷ []) (before b j),
        )
      ]

  -- A companion of an ordered key is ordered.
  companion_in :
      (ordered : List K)
      → CompanionsFirst registry ordered
      → (a b : K) (companions : List K) → a ∈ ordered
      → lookup a registry ≡ some companions
      → b ∈ companions
      → b ∈ ordered
  companion_in ordered first a b companions m e i =
      let (cs, f, inside) = companions_in ordered first a m in
      let same : companions ≡ cs = cc in inside b (subst (λ xs. b ∈ xs) same i)

  led_in :
      (ordered : List K)
      → CompanionsFirst registry ordered
      → (a b : K) → a ∈ ordered
      → Leads registry a b
      → b ∈ ordered
  led_in ordered first a b m (requires _ _ companions e i) =
      companion_in ordered first a b companions m e i
  led_in ordered first a b m (onwards _ c _ companions e i more) =
      led_in ordered first c b (companion_in ordered first a c companions m e i) more

  reached_in :
      (ordered : List K)
      → CompanionsFirst registry ordered
      → (a b : K) → a ∈ ordered
      → Reaches registry a b
      → b ∈ ordered
  reached_in ordered first a b m (inl same) = subst (λ x. x ∈ ordered) same m
  reached_in ordered first a b m (inr more) = led_in ordered first a b m more

  -- What the key after all its companions leads to stands before it.
  led_before :
      (xs : List K) (key b : K) (companions : List K)
      → CompanionsFirst registry xs
      → lookup key registry ≡ some companions
      → companions ⊆ xs
      → Leads registry key b
      → b ∈ xs
  led_before xs key b companions first e before (requires _ _ cs f i) =
      let same : cs ≡ companions = cc in before b (subst (λ x. b ∈ x) same i)
  led_before xs key b companions first e before (onwards _ c _ cs f i more) =
      let same : cs ≡ companions = cc in
      led_in xs first c b (before c (subst (λ x. c ∈ x) same i)) more

  no_cycle :
      (ordered : List K)
      → CompanionsFirst registry ordered
      → (a : K) → a ∈ ordered
      → ¬ Leads registry a a
  no_cycle _ none_yet a m loop = not_mem_nil a m
  no_cycle _ (after_companions xs key companions first e before fresh) a m loop =
      elim (last_or_before a key xs m) [
        | inl i ↦ no_cycle xs first a i loop
        | inr same ↦
            let at_key = subst (λ x. Leads registry x x) same loop in
            not_of_false fresh (led_before xs key key companions first e before at_key)
      ]

  -- The order of the requested keys always ends within its fuel. It is an order exactly where every
  -- key that a requested one reaches over companions is in the registry and leads to itself over none;
  -- it fails for an unknown companion only where such a key is missing from the registry, and for a
  -- companion cycle only where such a key leads back to itself.
  pub order_deadline_rules-Outcome :
      (requested : List K) → Outcome requested (order_deadline_rules registry requested)
  order_deadline_rules-Outcome requested =
      decided (order_deadline_rules registry requested) refl
        (order_deadline_rules-Ended registry requested)
    where
      decided :
          (r : Result DeadlineError (List K))
          → order_deadline_rules registry requested ≡ r
          → Ended registry requested r
          → Outcome requested r
      decided _ h (returns ordered) =
          let (first, all_in) = order_deadline_rules-CompanionsFirst registry requested ordered h in
          in_order ordered
            (λ (a, b, m, to, gone).
              let (cs, f, _) =
                companions_in ordered first b (reached_in ordered first a b (all_in a m) to) in
              cc)
            (λ (a, b, m, to, loop).
              no_cycle ordered first b (reached_in ordered first a b (all_in a m) to) loop)
      decided _ h (unknown_key a b m to gone) = unknown_companion (a, b, m, to, gone)
      decided _ h (cyclic_key a b m to loop) = cyclic_companion (a, b, m, to, loop)
