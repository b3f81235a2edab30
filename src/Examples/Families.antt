-- ===== src/Examples/Families.antt =====
-- Runs of the profiles and of the defeat resolution.
use juris_calculus.Prelude.{
  ◌≡◌, ◌≢◌, refl, ◌↔◌, ◌⊎◌, true, false, List, [], ◌∷◌, none, some, String, string_key, pair_key,
  ◌∈◌, runs, ok, err,
}
use juris_calculus.Profile.{
  Arrange, stable, preferred, unknown_profile, ProfileEvaluation, extensions_found, bit,
  subset_from, subsets, is_stable, family_of, claims_complete_family, enumerate_profile,
  evaluate_known, evaluate_profile,
}
use juris_calculus.Profile.Decides.{Known}
use juris_calculus.Profile.Family.{Enumerates}
use juris_calculus.Profile.Evaluate.{
  IsExtension, Budgeted, evaluate_profile-Enumerates, evaluate_profile_budget,
}
use juris_calculus.Defeats.{
  AttackRecord, priority_cycle_unresolved, endpoints, close_through, close_all, find_loop,
  priority_nodes, strict_preference_closure, is_blocked, blocked_pairs, priority_blocked_pairs,
  resolve_attacks, resolve_defeats,
}
use juris_calculus.Defeats.Through.{Preferred}
use juris_calculus.Defeats.Closure.{IsStrictClosure, strict_preference_closure-IsStrictClosure}
use juris_calculus.Defeats.Admitted.{Admitted, Blocked}
use juris_calculus.Defeats.Resolve.{resolve_defeats-members}

abbrev arguments : List String
arguments = "a" ∷ "b" ∷ "c" ∷ []

abbrev defeats : List (String × String)
defeats = ("a", "b") ∷ ("b", "a") ∷ ("b", "c") ∷ []

-- A `sorted` that leaves the family as it is.
abbrev kept_order : Arrange String
kept_order = record { arrange = λ family. family; arrange_mem = λ s family. (λ m. m, λ m. m) }

abbrev stable_result : ProfileEvaluation String
stable_result = record {
  profile = stable;
  kind = extensions_found;
  extensions = ("b" ∷ []) ∷ ("a" ∷ "c" ∷ []) ∷ [];
  open_obligations = [];
}

stable_run : evaluate_profile kept_order stable arguments defeats 16 65536 ≡ ok stable_result
unfolding evaluate_profile evaluate_known enumerate_profile family_of subsets subset_from bit
    is_stable runs
stable_run = refl

abbrev attacks : List (AttackRecord String)
attacks =
    record { attack_id = "1"; attacker = "a"; target = "b"; kind = "rebut"; witness = "w" }
    ∷ record { attack_id = "2"; attacker = "b"; target = "a"; kind = "rebut"; witness = "w" }
    ∷ record { attack_id = "3"; attacker = "b"; target = "c"; kind = "undercut"; witness = "w" }
    ∷ []

abbrev resolved : List (String × String)
resolved = ("a", "b") ∷ ("b", "a") ∷ ("b", "c") ∷ []

resolve_run : resolve_defeats arguments attacks ("rebut" ∷ "undercut" ∷ []) [] none ≡ ok resolved
unfolding resolve_defeats resolve_attacks runs
resolve_run = refl

-- With b preferred over a the attack of a on b is blocked.
resolve_preferred :
    resolve_defeats arguments attacks
      ("rebut" ∷ "undercut" ∷ [])
      (("b", "a") ∷ [])
      (some "target-preferred-rebut/1")
    ≡ ok (("b", "a") ∷ ("b", "c") ∷ [])
unfolding resolve_defeats resolve_attacks priority_blocked_pairs blocked_pairs is_blocked
    strict_preference_closure priority_nodes endpoints close_all close_through find_loop runs
resolve_preferred = refl

abbrev cycle_edges : List (String × String)
cycle_edges = ("a", "b") ∷ ("b", "c") ∷ ("c", "a") ∷ []

abbrev chain_edges : List (String × String)
chain_edges = ("a", "b") ∷ ("b", "c") ∷ []

abbrev preferred_edges : List (String × String)
preferred_edges = ("b", "a") ∷ []

abbrev preferred_defeats : List (String × String)
preferred_defeats = ("b", "a") ∷ ("b", "c") ∷ []

preference_cycle : strict_preference_closure cycle_edges ≡ err (priority_cycle_unresolved "a")
unfolding strict_preference_closure priority_nodes endpoints close_all close_through find_loop runs
preference_cycle = refl

resolve_defeats-members_example :
    ((a b : String)
      → ((a, b) ∈ preferred_defeats)
        ↔ Admitted attacks ("rebut" ∷ "undercut" ∷ []) a b
          × (¬ Blocked attacks preferred_edges a b))
    × Known arguments preferred_defeats
resolve_defeats-members_example =
    resolve_defeats-members arguments attacks ("rebut" ∷ "undercut" ∷ []) preferred_edges
      (some "target-preferred-rebut/1") preferred_defeats resolve_preferred

strict_preference_closure-IsStrictClosure_example :
    ((r : List (String × String)) × (strict_preference_closure chain_edges ≡ ok r)
      × IsStrictClosure chain_edges r)
    ⊎ ((node : String) × (strict_preference_closure chain_edges
          ≡ err (priority_cycle_unresolved node))
        × Preferred chain_edges node node)
strict_preference_closure-IsStrictClosure_example =
    strict_preference_closure-IsStrictClosure chain_edges

known_defeats : Known arguments resolved
known_defeats =
    (resolve_defeats-members arguments attacks ("rebut" ∷ "undercut" ∷ []) [] none resolved
      resolve_run).1

evaluate_profile-Enumerates_example :
    Enumerates (IsExtension stable arguments defeats) (("b" ∷ []) ∷ ("a" ∷ "c" ∷ []) ∷ [])
unfolding claims_complete_family
evaluate_profile-Enumerates_example =
    evaluate_profile-Enumerates kept_order arguments defeats known_defeats stable 16 65536
      stable_result stable_run refl

not_unknown : (name : String) → preferred ≢ unknown_profile name
not_unknown name e = cc

evaluate_profile_budget_example :
    (ev : ProfileEvaluation String) × (evaluate_profile kept_order preferred arguments defeats 16
        65536
      ≡ ok ev)
    × ((claims_complete_family ev ≡ true)
        ↔ Budgeted kept_order arguments defeats known_defeats preferred 16 65536)
    × (claims_complete_family ev ≡ false → ev.extensions ≡ [])
evaluate_profile_budget_example =
    evaluate_profile_budget kept_order arguments defeats known_defeats preferred 16 65536
      not_unknown
