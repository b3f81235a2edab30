-- ===== src/Companions.antt =====
-- `order_deadline_rules` of compiler_core/deadlines.py. A registry maps the key of a rule to the
-- keys of its required companions; the shape of a companion entry is that of its type. The set
-- `visiting` holds the keys on the path down, which is an argument of the recursion.
use juris_calculus.Prelude.{
  Key, ℕ, zero, suc, ◌+◌, Bool, true, false, List, [], ◌∷◌, ◌++◌, Option, none, some, has, add,
  length, lookup, keys, Result, ok, err, ◌>>=◌, if◌then◌else◌,
}
use juris_calculus.Calendar.{DeadlineError, companion_unknown, companion_cycle, stuck}
pub mod Order
pub mod Ends
pub mod Outcome

pub record Visits {ℓ} (K : Type ℓ) : Type ℓ where
  pub visited : List K
  pub ordered : List K

module _ {ℓ} {K : Type ℓ} where
  -- The loop over companions, and over the requested keys.
  unfoldable pub visit_each :
      (K → Visits K → Result DeadlineError (Visits K))
      → List K
      → Visits K
      → Result DeadlineError (Visits K)
  visit_each visit [] state = ok state
  visit_each visit (key ∷ rest) state = visit key state >>= λ after. visit_each visit rest after

module _ {ℓ} {K : Type ℓ} ⦃k : Key K⦄ where
  -- The end of `visit`, after the companions.
  unfoldable pub visited_after : K → Visits K → Visits K
  visited_after key after = record {
    visited = add key after.visited;
    ordered = after.ordered ++ key ∷ [];
  }

module _ {ℓ} {K : Type ℓ} ⦃k : Key K⦄ (registry : List (K × List K)) where
  unfoldable pub visit : ℕ → List K → K → Visits K → Result DeadlineError (Visits K)
  visit zero visiting key state = err stuck
  visit (suc fuel) visiting key state = elim (lookup key registry) [
    | none ↦ err companion_unknown
    | some companions ↦
        if has key visiting
        then err companion_cycle
        else if has key state.visited
        then ok state
        else (visit_each (visit fuel (key ∷ visiting)) companions state >>= λ after.
            ok (visited_after key after))
  ]

  -- No path down is longer than the registry.
  unfoldable pub order_deadline_rules : List K → Result DeadlineError (List K)
  order_deadline_rules requested =
      visit_each (visit (length (keys registry) + 2) []) requested
        (record { visited = []; ordered = [] })
      >>= λ state. ok state.ordered
