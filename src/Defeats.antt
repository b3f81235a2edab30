-- ===== src/Defeats.antt =====
-- Typed attacks, strict preferences and their resolution into defeats:
-- compiler_core/argumentation.py, `resolve_defeats_v5` and its helpers. A typed group of strings is
-- compared by the instance `Key String`; argument identifiers are of any type with a `Key`.
pub mod Through
pub mod Closure
pub mod Admitted
pub mod Resolve
use juris_calculus.Prelude.{
  Key, ℕ, zero, suc, Bool, true, false, not, ◌&&◌, ◌||◌, List, [], ◌∷◌, ◌++◌, Option, none, some,
  String, map, if◌then◌else◌, is_empty, filter, any, has, dedup, sort, meets, concat_map, pair_key,
  string_key, Result, ok, err, ◌>>=◌, ◌>>◌, reject_if,
}

pub record AttackRecord {ℓ} (A : Type ℓ) : Type ℓ where
  pub attack_id : String
  pub attacker : A
  pub target : A
  pub kind : String
  pub witness : String

pub data DefeatError {ℓ} (A : Type ℓ) : Type ℓ where
  defeat_input_field : String → DefeatError A
  defeat_policy_empty : DefeatError A
  defeat_endpoint_unknown : String → DefeatError A
  priority_endpoint_unknown : DefeatError A
  priority_policy_required : DefeatError A
  priority_policy_unknown : String → DefeatError A
  priority_cycle_unresolved : A → DefeatError A

-- `AttackRecordV5.__post_init__`, over string identifiers: the first empty field is reported.
unfoldable pub admit_attack :
    AttackRecord String → Result (DefeatError String) (AttackRecord String)
admit_attack a = do
  reject_if (string_key.beq a.attack_id "") (defeat_input_field "attack_id")
  reject_if (string_key.beq a.attacker "") (defeat_input_field "attacker")
  reject_if (string_key.beq a.target "") (defeat_input_field "target")
  reject_if (string_key.beq a.kind "") (defeat_input_field "kind")
  reject_if (string_key.beq a.witness "") (defeat_input_field "witness")
  ok a

-- The keys of `PRIORITY_POLICIES_V5`.
abbrev pub priority_policies : List String
priority_policies = "target-preferred-rebut/1" ∷ []

module _ {ℓ} {A : Type ℓ} where
  unfoldable pub endpoints : List (A × A) → List A
  endpoints [] = []
  endpoints ((a, b) ∷ edges) = a ∷ b ∷ endpoints edges

module _ {ℓ} {A : Type ℓ} ⦃k : Key A⦄ where
  -- The body of `for middle in nodes`: the comprehension reads the old `reach`.
  unfoldable pub close_through : List A → A → List (A × A) → List (A × A)
  close_through nodes middle reach =
      reach
      ++ concat_map
          (λ start.
            if has (start, middle) reach
            then map (λ end. (start, end)) (filter (λ end. has (middle, end) reach) nodes)
            else [])
          nodes

  unfoldable pub close_all : List A → List A → List (A × A) → List (A × A)
  close_all nodes [] reach = reach
  close_all nodes (middle ∷ rest) reach = close_all nodes rest (close_through nodes middle reach)

  unfoldable pub find_loop : List A → List (A × A) → Option A
  find_loop [] reach = none
  find_loop (node ∷ rest) reach = if has (node, node) reach then some node else find_loop rest reach

  unfoldable pub priority_nodes : List (A × A) → List A
  priority_nodes edges = sort (dedup (endpoints edges))

  unfoldable pub strict_preference_closure : List (A × A) → Result (DefeatError A) (List (A × A))
  strict_preference_closure edges =
      let nodes = priority_nodes edges in
      let reach = close_all nodes nodes edges in
      elim (find_loop nodes reach) [
        | some node ↦ err (priority_cycle_unresolved node)
        | none ↦ ok reach
      ]

  unfoldable pub is_blocked : List (A × A) → AttackRecord A → Bool
  is_blocked closure attack =
      string_key.beq attack.kind "rebut" && has (attack.target, attack.attacker) closure

  unfoldable pub blocked_pairs : List (A × A) → List (AttackRecord A) → List (A × A)
  blocked_pairs closure attacks =
      map (λ attack. (attack.attacker, attack.target)) (filter (is_blocked closure) attacks)

  unfoldable pub priority_blocked_pairs :
      List (AttackRecord A) → List (A × A) → Option String → Result (DefeatError A) (List (A × A))
  priority_blocked_pairs attacks edges none = err priority_policy_required
  priority_blocked_pairs attacks edges (some policy) = do
    reject_if (not (has policy priority_policies)) (priority_policy_unknown policy)
    closure ← strict_preference_closure edges
    ok (blocked_pairs closure attacks)

  -- The loop over the attacks: a kind that is not allowed is skipped before its endpoints are read.
  unfoldable pub resolve_attacks :
      List A
      → List String
      → List (A × A)
      → List (AttackRecord A)
      → Result (DefeatError A) (List (A × A))
  resolve_attacks known allowed blocked [] = ok []
  resolve_attacks known allowed blocked (attack ∷ rest) =
      let resolved = resolve_attacks known allowed blocked rest in
      if not (has attack.kind allowed)
      then resolved
      else if not (has attack.attacker known) || not (has attack.target known)
      then err (defeat_endpoint_unknown attack.attack_id)
      else if has (attack.attacker, attack.target) blocked
      then resolved
      else (resolved >>= λ pairs. ok ((attack.attacker, attack.target) ∷ pairs))

  unfoldable pub resolve_defeats :
      List A
      → List (AttackRecord A)
      → List String
      → List (A × A)
      → Option String
      → Result (DefeatError A) (List (A × A))
  resolve_defeats arguments attacks allowed_kinds priority_edges policy = do
    reject_if (is_empty allowed_kinds) defeat_policy_empty
    blocked ←
        (if is_empty priority_edges
          then ok []
          else priority_blocked_pairs attacks priority_edges policy)
    resolved ← resolve_attacks arguments allowed_kinds blocked attacks
    ok (sort (dedup resolved))

pub data Disposition : Type 0 where
  blocked_attack participates_in_closure_block no_applicable_conflict : Disposition

pub record EdgeDecision {ℓ} (A : Type ℓ) : Type ℓ where
  pub preferred : A
  pub defeated : A
  pub policy : Option String
  pub disposition : Disposition
  pub directly_blocked_attacks : List String
  pub closure_blocked_attacks : List String

module _ {ℓ} {A : Type ℓ} ⦃k : Key A⦄ where
  unfoldable pub direct_blocks : A → A → List (AttackRecord A) → List String
  direct_blocks preferred defeated attacks = sort (
      map (λ attack. attack.attack_id)
        (filter
          (λ attack.
            string_key.beq attack.kind "rebut"
            && k.beq attack.target preferred
            && k.beq attack.attacker defeated)
          attacks))

  unfoldable pub closure_blocks : List (A × A) → A → A → List (AttackRecord A) → List String
  closure_blocks closure preferred defeated attacks = sort (
      map (λ attack. attack.attack_id)
        (filter
          (λ attack.
            is_blocked closure attack
            && meets (attack.attacker ∷ attack.target ∷ []) (preferred ∷ defeated ∷ []))
          attacks))

  unfoldable pub edge_decision :
      List (A × A) → List (AttackRecord A) → Option String → A × A → EdgeDecision A
  edge_decision closure attacks policy (preferred, defeated) =
      let direct = direct_blocks preferred defeated attacks in
      let through = closure_blocks closure preferred defeated attacks in
      record {
        preferred = preferred;
        defeated = defeated;
        policy = policy;
        disposition =
            if not (is_empty direct)
            then blocked_attack
            else if not (is_empty through)
            then participates_in_closure_block
            else no_applicable_conflict;
        directly_blocked_attacks = direct;
        closure_blocked_attacks = through;
      }

  unfoldable pub decide_edges :
      List A
      → List (A × A)
      → List (AttackRecord A)
      → Option String
      → List (A × A)
      → Result (DefeatError A) (List (EdgeDecision A))
  decide_edges known closure attacks policy [] = ok []
  decide_edges known closure attacks policy ((preferred, defeated) ∷ rest) =
      let later = decide_edges known closure attacks policy rest in
      if not (has preferred known) || not (has defeated known)
      then err priority_endpoint_unknown
      else (later >>= λ decisions.
          ok (edge_decision closure attacks policy (preferred, defeated) ∷ decisions))

  unfoldable pub priority_edge_decisions :
      List A
      → List (AttackRecord A)
      → List (A × A)
      → Option String
      → Result (DefeatError A) (List (EdgeDecision A))
  priority_edge_decisions arguments attacks priority_edges policy =
      if is_empty priority_edges
      then ok []
      else (strict_preference_closure priority_edges >>= λ closure.
          decide_edges arguments closure attacks policy (sort priority_edges))
