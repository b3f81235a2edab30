-- ===== src/Companions/Ends.antt =====
-- The recursion of `order_deadline_rules` against its fuel.
use juris_calculus.Prelude.{
  ok, none, some, ◌>>=◌, ◌⊎◌, refl, sym, subst, mem_cases, not_mem_nil, Key, ℕ, zero, suc, ◌+◌, ◌<◌,
  ◌≡◌, inl, inr, false, not, List, [], ◌∷◌, Option-cases, Bool-cases, has, ◌∈◌, lookup, keys,
  filter, length, length-filter-le, length-filter_strict, mem_of_lookup_some, mem_head, mem_tail,
  Result, err, arith, false_of_not, not_of_false,
}
use juris_calculus.Calendar.{DeadlineError, companion_unknown, companion_cycle}
use juris_calculus.Companions.{Visits, visit_each, visit, visited_after, order_deadline_rules}

module _ {ℓ} {K : Type ℓ} ⦃k : Key K⦄ (registry : List (K × List K)) where
  -- The keys that are not on the path down.
  abbrev room : List K → ℕ
  room visiting = length (filter (λ x. not (has x visiting)) (keys registry))

  room-shrinks :
      (key : K) (visiting : List K)
      → key ∈ keys registry
      → has key visiting ≡ false
      → room (key ∷ visiting) < room visiting
  room-shrinks key visiting m free =
      length-filter_strict (λ x. not (has x (key ∷ visiting))) (λ x. not (has x visiting))
        (keys registry) key
        (λ a _ e.
          rw (false_of_not (λ i. not_of_false (ground (arith, e)) (mem_tail a key visiting i))))
        m (rw free) (rw (mem_head key visiting))

  -- One rule requires another, in one step or more.
  pub data Leads : K → K → Type ℓ where
    requires :
        (a b : K) (companions : List K)
        → lookup a registry ≡ some companions
        → b ∈ companions
        → Leads a b
    onwards :
        (a b c : K) (companions : List K)
        → lookup a registry ≡ some companions
        → b ∈ companions
        → Leads b c
        → Leads a c

  -- The key is the rule, or one that it leads to.
  abbrev pub Reaches : K → K → Type ℓ
  Reaches a b = (a ≡ b) ⊎ Leads a b

  -- A call ends with a result, at a key reached from one of the keys that is not in the registry, or
  -- at one that leads back to itself.
  pub data Ended {κ} {X : Type κ} (from : List K) : Result DeadlineError X → Type (ℓ ⊔ κ) where
    returns : (x : X) → Ended from (ok x)
    unknown_key :
        (a b : K)
        → a ∈ from
        → Reaches a b
        → lookup b registry ≡ none
        → Ended from (err companion_unknown)
    cyclic_key : (a b : K) → a ∈ from → Reaches a b → Leads b b → Ended from (err companion_cycle)

  Leads-step :
      (a b c : K) (companions : List K)
      → Leads a b
      → lookup b registry ≡ some companions
      → c ∈ companions
      → Leads a c
  Leads-step a b c cs (requires _ _ companions e m) f i =
      onwards a b c companions e m (requires b c cs f i)
  Leads-step a b c cs (onwards _ d _ companions e m more) f i =
      onwards a d c companions e m (Leads-step d b c cs more f i)

  -- What a companion reaches, its rule leads to.
  Reaches-Leads :
      (a b c : K) (companions : List K)
      → lookup a registry ≡ some companions
      → b ∈ companions
      → Reaches b c
      → Leads a c
  Reaches-Leads a b c cs e m (inl same) = subst (λ x. Leads a x) same (requires a b cs e m)
  Reaches-Leads a b c cs e m (inr more) = onwards a b c cs e m more

  Ended-wider :
      {X : Type ℓ} {from wide : List K} {r : Result DeadlineError X}
      → ((a : K) → a ∈ from → a ∈ wide)
      → Ended from r
      → Ended wide r
  Ended-wider f (returns x) = returns x
  Ended-wider f (unknown_key a b m to e) = unknown_key a b (f a m) to e
  Ended-wider f (cyclic_key a b m to loop) = cyclic_key a b (f a m) to loop

  Ended-then :
      {X Y : Type ℓ} {from : List K} (r : Result DeadlineError X)
      (next : X → Result DeadlineError Y)
      → Ended from r
      → ((x : X) → Ended from (next x))
      → Ended from (r >>= next)
  Ended-then _ next (returns x) f = f x
  Ended-then _ next (unknown_key a b m to e) f = unknown_key a b m to e
  Ended-then _ next (cyclic_key a b m to loop) f = cyclic_key a b m to loop

  -- A call over the companions, seen from their rule.
  Ended-from :
      {X : Type ℓ} {r : Result DeadlineError X} (key : K) (companions : List K)
      → lookup key registry ≡ some companions
      → Ended companions r
      → Ended (key ∷ []) r
  Ended-from key cs e (returns x) = returns x
  Ended-from key cs e (unknown_key a b m to gone) =
      unknown_key key b (mem_head key []) (inr (Reaches-Leads key a b cs e m to)) gone
  Ended-from key cs e (cyclic_key a b m to loop) =
      cyclic_key key b (mem_head key []) (inr (Reaches-Leads key a b cs e m to)) loop

  -- The path down to a companion of its last key.
  longer :
      (visiting : List K) (key c : K) (companions : List K)
      → lookup key registry ≡ some companions
      → c ∈ companions
      → ((v : K) → v ∈ visiting → Leads v key)
      → (v : K) → v ∈ (key ∷ visiting)
      → Leads v c
  longer visiting key c cs e m path v i = elim (mem_cases v key visiting i) [
    | inl same ↦ subst (λ x. Leads x c) (sym same) (requires key c cs e m)
    | inr above ↦ Leads-step v key c cs (path v above) e m
  ]

  visit_each-Ended :
      (f : K → Visits K → Result DeadlineError (Visits K)) (ks : List K)
      → ((key : K) → key ∈ ks → (state : Visits K) → Ended (key ∷ []) (f key state))
      → (state : Visits K) → Ended ks (visit_each f ks state)
  unfolding visit_each
  visit_each-Ended f [] good state = returns state
  visit_each-Ended f (x ∷ ks) good state =
      Ended-then (f x state) (λ after. visit_each f ks after)
        (Ended-wider (λ a m. only a x ks m) (good x (mem_head x ks) state))
        (λ after.
          Ended-wider (λ a m. mem_tail a x ks m)
            (visit_each-Ended f ks (λ key m s. good key (mem_tail key x ks m) s) after))
    where
      only : (a x : K) (ks : List K) → a ∈ (x ∷ []) → a ∈ (x ∷ ks)
      only a x ks m = elim (mem_cases a x [] m) [
        | inl same ↦ subst (λ y. y ∈ (x ∷ ks)) (sym same) (mem_head x ks)
        | inr gone ↦ absurd (not_mem_nil a gone)
      ]

  visit-Ended :
      (fuel : ℕ) (visiting : List K) (key : K)
      → room visiting < fuel
      → ((v : K) → v ∈ visiting → Leads v key)
      → (state : Visits K) → Ended (key ∷ []) (visit registry fuel visiting key state)
  unfolding visit
  visit-Ended zero visiting key lt path state = absurd (omega arith)
  visit-Ended (suc fuel) visiting key lt path state = elim (Option-cases (lookup key registry)) [
    | inl missing ↦ rw (missing, visit) (unknown_key key key (mem_head key []) (inl refl) missing)
    | inr (companions, e) ↦ elim (Bool-cases (has key visiting)) [
      | inl loop ↦
          rw (e, visit, loop) (cyclic_key key key (mem_head key []) (inl refl) (path key loop))
      | inr free ↦ elim (Bool-cases (has key state.visited)) [
        | inl done ↦ rw (e, visit, free, done) (returns state)
        | inr new ↦
            let less =
              room-shrinks key visiting (mem_of_lookup_some key companions registry e) free in
            let each = visit registry fuel (key ∷ visiting) in
            rw (e, visit, free, new)
              (Ended-then (visit_each each companions state) (λ after. ok (visited_after key after))
                (Ended-from key companions e (
                  visit_each-Ended each companions
                    (λ c m.
                      visit-Ended fuel (key ∷ visiting) c (omega (arith, less))
                        (λ v i. longer visiting key c companions e m path v i))
                    state))
                (λ after. returns (visited_after key after)))
      ]
    ]
  ]

  pub order_deadline_rules-Ended :
      (requested : List K) → Ended requested (order_deadline_rules registry requested)
  unfolding order_deadline_rules
  order_deadline_rules-Ended requested =
      let each = visit registry (length (keys registry) + 2) [] in
      Ended-then (visit_each each requested (record { visited = []; ordered = [] }))
        (λ state. ok state.ordered)
        (visit_each-Ended each requested
          (λ key m.
            visit-Ended (length (keys registry) + 2) [] key
              (omega (arith, length-filter-le (λ x. not (has x [])) (keys registry)))
              (λ v i. absurd (not_mem_nil v i)))
          (record { visited = []; ordered = [] }))
        (λ state. returns state.ordered)
