-- ===== src/Companions/Order.antt =====
-- The order that `order_deadline_rules` returns.
use juris_calculus.Prelude.{
  Key, ℕ, zero, suc, ◌≡◌, sym, subst, ◌↔◌, inl, inr, false, List, [], ◌∷◌, ◌++◌, some, Option-cases,
  Bool-cases, has, add, ◌∈◌, ◌⊆◌, lookup, mem-add, mem-add_self, mem-add_of, mem-append,
  mem-append_left, mem-append_right, mem_head, mem_cases, mem_tail, not_mem_nil, Result, ok,
  ok-injective, >>=-eq-ok, ◌+◌, false_of_not, not_of_false, length, keys,
}
use juris_calculus.Calendar.{DeadlineError}
use juris_calculus.Companions.{Visits, visit_each, visited_after, visit, order_deadline_rules}

module _ {ℓ} {K : Type ℓ} ⦃k : Key K⦄ (registry : List (K × List K)) where
  -- Every key stands once, after all its companions.
  pub data CompanionsFirst : List K → Type ℓ where
    none_yet : CompanionsFirst []
    after_companions :
        (xs : List K) (key : K) (companions : List K)
        → CompanionsFirst xs
        → lookup key registry ≡ some companions
        → companions ⊆ xs
        → has key xs ≡ false
        → CompanionsFirst (xs ++ key ∷ [])

  record Inv (state : Visits K) : Type ℓ where
    first : CompanionsFirst state.ordered
    same : (a : K) → (a ∈ state.visited) ↔ (a ∈ state.ordered)

  -- What a call adds: it keeps the invariant and everything ordered before, and it visits nothing
  -- on the path down to it.
  record Extends (visiting : List K) (state after : Visits K) : Type ℓ where
    inv : Inv after
    apart : (a : K) → a ∈ visiting → a ∈ after.visited → a ∈ state.visited
    keeps : state.ordered ⊆ after.ordered

  abbrev Visitor : List K → (K → Visits K → Result DeadlineError (Visits K)) → Type ℓ
  Visitor visiting f =
      (key : K) (state after : Visits K)
      → Inv state
      → f key state ≡ ok after
      → Extends visiting state after × (key ∈ after.ordered)

  visit_each-Extends :
      (visiting : List K) (f : K → Visits K → Result DeadlineError (Visits K))
      → Visitor visiting f
      → (ks : List K) (state after : Visits K) → Inv state
      → visit_each f ks state ≡ ok after
      → Extends visiting state after × (ks ⊆ after.ordered)
  unfolding visit_each
  visit_each-Extends visiting f good [] state after v h =
      let e = ok-injective h in
      (
        record {
          inv = subst Inv e v;
          apart = λ a _ m. subst (λ (s : Visits K). a ∈ s.visited) (sym e) m;
          keeps = λ a m. subst (λ (s : Visits K). a ∈ s.ordered) e m;
        },
        λ a m. absurd (not_mem_nil a m),
      )
  visit_each-Extends visiting f good (x ∷ ks) state after v h =
      let (mid, e, rest) = >>=-eq-ok (f x state) _ h in
      let (ext, here) = good x state mid v e in
      let (ext', there) = visit_each-Extends visiting f good ks mid after ext.inv rest in
      (
        record {
          inv = ext'.inv;
          apart = λ a i m. ext.apart a i (ext'.apart a i m);
          keeps = λ a m. ext'.keeps a (ext.keeps a m);
        },
        λ a m. elim (mem_cases a x ks m) [
          | inl s ↦ subst (λ b. b ∈ after.ordered) (sym s) (ext'.keeps x here)
          | inr r ↦ there a r
        ],
      )

  finish-Extends :
      (visiting : List K) (key : K) (companions : List K) (state mid : Visits K)
      → lookup key registry ≡ some companions
      → has key state.visited ≡ false
      → has key visiting ≡ false
      → Extends (key ∷ visiting) state mid
      → companions ⊆ mid.ordered
      → Extends visiting state (visited_after key mid) × (key ∈ (visited_after key mid).ordered)
  unfolding visited_after
  finish-Extends visiting key companions state mid e new free ext all_in =
      let fresh = false_of_not (λ m. not_of_false new (ext.apart key (mem_head key visiting) m)) in
      let not_ordered = false_of_not (λ m. not_of_false fresh ((ext.inv.same key).1 m)) in
      (
        record {
          inv = record {
            first = after_companions mid.ordered key companions ext.inv.first e all_in not_ordered;
            same = λ a. (
              λ m. elim (mem-add key a mid.visited m) [
                | inl s ↦
                    subst (λ b. b ∈ (mid.ordered ++ key ∷ [])) (sym s)
                      (mem-append_right key mid.ordered (key ∷ []) (mem_head key []))
                | inr r ↦ mem-append_left a mid.ordered (key ∷ []) ((ext.inv.same a).0 r)
              ],
              λ m. elim (mem-append a mid.ordered (key ∷ []) m) [
                | inl i ↦ mem-add_of key a mid.visited ((ext.inv.same a).1 i)
                | inr j ↦ elim (mem_cases a key [] j) [
                  | inl s ↦
                      subst (λ b. b ∈ add key mid.visited) (sym s) (mem-add_self key mid.visited)
                  | inr n ↦ absurd (not_mem_nil a n)
                ]
              ],
            );
          };
          apart = λ a i m. elim (mem-add key a mid.visited m) [
            | inl s ↦ absurd (not_of_false free (subst (λ b. b ∈ visiting) s i))
            | inr r ↦ ext.apart a (mem_tail a key visiting i) r
          ];
          keeps = λ a m. mem-append_left a mid.ordered (key ∷ []) (ext.keeps a m);
        },
        mem-append_right key mid.ordered (key ∷ []) (mem_head key []),
      )

  visit-Visitor : (fuel : ℕ) (visiting : List K) → Visitor visiting (visit registry fuel visiting)
  unfolding visit
  visit-Visitor zero visiting key state after v h = cc
  visit-Visitor (suc fuel) visiting key state after v h =
      elim (Option-cases (lookup key registry)) [
        | inl missing ↦ cc (rw (missing, visit) at h)
        | inr (companions, e) ↦ elim (Bool-cases (has key visiting)) [
          | inl loop ↦ cc (rw (e, visit, loop) at h)
          | inr free ↦ elim (Bool-cases (has key state.visited)) [
            | inl done ↦
                let same = ok-injective (rw (e, visit, free, done) at h) in
                (
                  record {
                    inv = subst Inv same v;
                    apart = λ a _ m. subst (λ (s : Visits K). a ∈ s.visited) (sym same) m;
                    keeps = λ a m. subst (λ (s : Visits K). a ∈ s.ordered) same m;
                  },
                  subst (λ (s : Visits K). key ∈ s.ordered) same ((v.same key).0 done),
                )
            | inr new ↦
                let (mid, f, last) =
                  >>=-eq-ok (visit_each (visit registry fuel (key ∷ visiting)) companions state) _
                    (rw (e, visit, free, new) at h) in
                let (ext, all_in) =
                  visit_each-Extends (key ∷ visiting) (visit registry fuel (key ∷ visiting))
                    (visit-Visitor fuel (key ∷ visiting)) companions state mid v f in
                let done = finish-Extends visiting key companions state mid e new free ext all_in in
                subst (λ s. Extends visiting state s × (key ∈ s.ordered)) (ok-injective last) done
          ]
        ]
      ]

  -- An order that is returned holds every requested key, and each of its keys stands in it once,
  -- after all its companions.
  pub order_deadline_rules-CompanionsFirst :
      (requested ordered : List K)
      → order_deadline_rules registry requested ≡ ok ordered
      → CompanionsFirst ordered × (requested ⊆ ordered)
  unfolding order_deadline_rules
  order_deadline_rules-CompanionsFirst requested ordered h =
      let fuel = length (keys registry) + 2 in
      let start : Visits K = record { visited = []; ordered = [] } in
      let (state, e, last) = >>=-eq-ok (visit_each (visit registry fuel []) requested start) _ h in
      let (ext, all_in) =
        visit_each-Extends [] (visit registry fuel []) (visit-Visitor fuel []) requested start state
          (record { first = none_yet; same = λ a. (λ m. m, λ m. m) }) e in
      subst (λ xs. CompanionsFirst xs × (requested ⊆ xs)) (ok-injective last)
        (ext.inv.first, all_in)
