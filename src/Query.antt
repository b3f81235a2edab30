-- ===== src/Query.antt =====
-- The status of a claim over the branches of an evaluated family: compiler_core/query_semantics.py.
-- Arguments and claims are identifiers of two types, so that one is never compared with the other.
-- The claim map is a dictionary; a branch gate's index is the position of its gate.
use juris_calculus.Prelude.{
  Key, ℕ, Bool, true, false, not, ◌&&◌, ◌||◌, List, [], ◌∷◌, ◌++◌, Option, none, some, String,
  string_key, is_empty, length, filter, any, has, add, dedup, sort, lookup, Result, ok, err,
  reject_if, ◌>>=◌, ◌>>◌, if◌then◌else◌, ◌==◌, ◌+◌,
}
use juris_calculus.Profile.{
  Profile, grounded, stable, complete, preferred, unknown_profile, FamilyKind, incomplete,
  no_extension, extensions_found, ProfileEvaluation,
}
pub mod Branches
pub mod Loop
pub mod Status
pub mod Keys

pub data QueryError : Type 0 where
  query_field : String → QueryError
  refutation_irreflexive gate_count : QueryError
  gate_state : String → QueryError

pub record QueryRefutation {κ} (C : Type κ) : Type κ where
  pub refuter : C
  pub target : C

-- `QueryRefutationV5.__post_init__`.
unfoldable pub admit_refutation :
    QueryRefutation String → Result QueryError (QueryRefutation String)
admit_refutation r = do
  reject_if (string_key.beq r.refuter "") (query_field "refuter")
  reject_if (string_key.beq r.target "") (query_field "target")
  reject_if (string_key.beq r.refuter r.target) refutation_irreflexive
  ok r

pub data Gate : Type 0 where
  enterable excluded gate_incomplete : Gate

pub record GateState : Type 0 where
  pub branch_index : ℕ
  pub state : Gate
  pub reason : String

-- `GateStateV5.__post_init__`, from the string of the state.
unfoldable pub admit_gate : ℕ → String → String → Result QueryError GateState
admit_gate branch_index state reason =
    let gate : Gate → GateState =
      λ s. record { branch_index = branch_index; state = s; reason = reason } in
    if string_key.beq state "enterable"
    then ok (gate enterable)
    else if string_key.beq state "excluded"
    then (if string_key.beq reason "" then err (gate_state reason) else ok (gate excluded))
    else if string_key.beq state "incomplete"
    then ok (gate gate_incomplete)
    else err (gate_state state)

unfoldable pub is_enterable : Gate → Bool
is_enterable enterable = true
is_enterable _ = false

unfoldable pub is_excluded : Gate → Bool
is_excluded excluded = true
is_excluded _ = false

unfoldable pub is_gate_incomplete : Gate → Bool
is_gate_incomplete gate_incomplete = true
is_gate_incomplete _ = false

pub record QueryInput {ℓ κ} (A : Type ℓ) (C : Type κ) : Type (ℓ ⊔ κ) where
  pub query_id : String
  pub claim : C
  pub profile : Profile
  pub evaluation : ProfileEvaluation A
  pub argument_claims : List (A × C)
  pub refutations : List (QueryRefutation C)
  pub gates : List GateState

unfoldable pub same_profile : Profile → Profile → Bool
same_profile grounded grounded = true
same_profile stable stable = true
same_profile complete complete = true
same_profile preferred preferred = true
same_profile _ _ = false

unfoldable pub is_query_profile : Profile → Bool
is_query_profile (unknown_profile name) = false
is_query_profile _ = true

-- `QueryInputV5.__post_init__`, over string claims.
unfoldable pub admit_query {ℓ} :
    {A : Type ℓ} → QueryInput A String → Result QueryError (QueryInput A String)
admit_query q = do
  reject_if (string_key.beq q.query_id "") (query_field "query_id")
  reject_if (string_key.beq q.claim "") (query_field "claim")
  reject_if (not (is_query_profile q.profile)) (query_field "profile")
  reject_if (not (same_profile q.evaluation.profile q.profile)) (query_field "evaluation")
  reject_if (is_empty q.argument_claims) (query_field "argument_claims")
  ok q

pub record QueryStatus {ℓ} (A : Type ℓ) : Type ℓ where
  pub query_id : String
  pub profile : Profile
  pub common : Bool
  pub possible : Bool
  pub common_refuted : Bool
  pub possibly_refuted : Bool
  pub undecided_some : Bool
  pub inconsistent_some : Bool
  pub is_excluded_query : Bool
  pub gate : Gate
  pub acceptance_witnesses : List A
  pub refutation_witnesses : List A

-- The variables of the loop over the enterable branches.
pub record Tally {ℓ} (A : Type ℓ) : Type ℓ where
  pub accepting : List A
  pub refuting : List A
  pub common : Bool
  pub common_refuted : Bool
  pub undecided_some : Bool
  pub inconsistent_some : Bool

module _ {ℓ} {A : Type ℓ} where
  -- The gates that stand for a missing gate list.
  unfoldable pub default_gates : ℕ → List (List A) → List GateState
  default_gates index [] = []
  default_gates index (extension ∷ rest) =
      record { branch_index = index; state = enterable; reason = "" }
      ∷ default_gates (index + 1) rest

  -- The extensions at the positions of the enterable gates.
  unfoldable pub enterable_extensions : List GateState → List (List A) → List (List A)
  enterable_extensions [] extensions = []
  enterable_extensions (gate ∷ gates) [] = []
  enterable_extensions (gate ∷ gates) (extension ∷ extensions) =
      let rest = enterable_extensions gates extensions in
      if is_enterable gate.state then extension ∷ rest else rest

  unfoldable pub start_tally : Tally A
  start_tally = record {
    accepting = [];
    refuting = [];
    common = true;
    common_refuted = true;
    undecided_some = false;
    inconsistent_some = false;
  }

  -- A status without an enterable branch.
  unfoldable pub unwitnessed : String → Profile → Bool → Gate → QueryStatus A
  unwitnessed query_id profile is_excluded_query gate = record {
    query_id = query_id;
    profile = profile;
    common = false;
    possible = false;
    common_refuted = false;
    possibly_refuted = false;
    undecided_some = false;
    inconsistent_some = false;
    is_excluded_query = is_excluded_query;
    gate = gate;
    acceptance_witnesses = [];
    refutation_witnesses = [];
  }

  -- The three returns without an enterable branch.
  unfoldable pub unentered_status : FamilyKind → String → Profile → Bool → QueryStatus A
  unentered_status no_extension query_id profile all_excluded =
      unwitnessed query_id profile false enterable
  unentered_status _ query_id profile all_excluded =
      if all_excluded
      then unwitnessed query_id profile true excluded
      else unwitnessed query_id profile false gate_incomplete

-- The two tests after the loop.
unfoldable pub is_partial : FamilyKind → Bool → Bool
is_partial incomplete gate_missing = true
is_partial _ gate_missing = gate_missing

unfoldable pub is_vacuous : FamilyKind → Bool → Bool
is_vacuous no_extension gate_missing = not gate_missing
is_vacuous _ gate_missing = false

unfoldable pub witnessed_gate : FamilyKind → Gate
witnessed_gate incomplete = gate_incomplete
witnessed_gate _ = enterable

module _ {κ} {C : Type κ} ⦃c : Key C⦄ where
  -- `refuted_by.get(claim, ())`.
  unfoldable pub refuters_of : List (QueryRefutation C) → C → List C
  refuters_of [] claim = []
  refuters_of (pair ∷ rest) claim =
      let more = refuters_of rest claim in
      if c.beq pair.target claim then add pair.refuter more else more

module _ {ℓ κ} {A : Type ℓ} {C : Type κ} ⦃k : Key A⦄ ⦃c : Key C⦄ where
  -- `query.argument_claims.get(argument) == query.claim`.
  unfoldable pub supports : QueryInput A C → A → Bool
  supports q argument = elim (lookup argument q.argument_claims) [
    | none ↦ false
    | some conclusion ↦ c.beq conclusion q.claim
  ]

  unfoldable pub argument_refutes : QueryInput A C → A → Bool
  argument_refutes q argument = elim (lookup argument q.argument_claims) [
    | none ↦ false
    | some conclusion ↦ has conclusion (refuters_of q.refutations q.claim)
  ]

  -- One enterable branch.
  unfoldable pub tally_branch : QueryInput A C → List A → Tally A → Tally A
  tally_branch q extension t =
      let claim_arguments = filter (supports q) (sort extension) in
      let refuters = filter (argument_refutes q) (sort extension) in
      let accepts = not (is_empty claim_arguments) in
      let refutes = not (is_empty refuters) in
      record {
        accepting = t.accepting ++ claim_arguments;
        refuting = t.refuting ++ refuters;
        common = t.common && accepts;
        common_refuted = t.common_refuted && refutes;
        undecided_some = t.undecided_some || (not accepts && not refutes);
        inconsistent_some = t.inconsistent_some || (accepts && refutes);
      }

  unfoldable pub tally_branches : QueryInput A C → List (List A) → Tally A → Tally A
  tally_branches q [] t = t
  tally_branches q (extension ∷ rest) t = tally_branches q rest (tally_branch q extension t)

  -- The answer when some branch is enterable.
  unfoldable pub witnessed : QueryInput A C → List (List A) → Bool → QueryStatus A
  witnessed q branches gate_missing =
      let t = tally_branches q branches start_tally in
      let kind = q.evaluation.kind in
      let partial = is_partial kind gate_missing in
      let vacuous = is_vacuous kind gate_missing in
      record {
        query_id = q.query_id;
        profile = q.profile;
        common = if partial then false else if vacuous then false else t.common;
        possible = if vacuous then false else any (λ s. any (supports q) s) branches;
        common_refuted = if partial then false else if vacuous then false else t.common_refuted;
        possibly_refuted =
            if vacuous then false else any (λ s. any (argument_refutes q) s) branches;
        undecided_some = if vacuous then false else t.undecided_some;
        inconsistent_some = if vacuous then false else t.inconsistent_some;
        is_excluded_query = false;
        gate = witnessed_gate kind;
        acceptance_witnesses = sort (dedup t.accepting);
        refutation_witnesses = sort (dedup t.refuting);
      }

  unfoldable pub unentered : QueryInput A C → List GateState → QueryStatus A
  unentered q gates =
      let some_excluded = any (λ g. is_excluded g.state) gates in
      let some_incomplete = any (λ g. is_gate_incomplete g.state) gates in
      unentered_status q.evaluation.kind q.query_id q.profile (some_excluded && not some_incomplete)

  -- `list(query.gates)`, or an enterable gate for each extension.
  unfoldable pub gates_of : QueryInput A C → List GateState
  gates_of q = if is_empty q.gates then default_gates 0 q.evaluation.extensions else q.gates

  -- The failure after the gates are sorted out needs a gate in none of the three states.
  unfoldable pub evaluate_query : QueryInput A C → Result QueryError (QueryStatus A)
  evaluate_query q =
      let gates = gates_of q in
      let branches = enterable_extensions gates q.evaluation.extensions in
      if not (is_empty q.gates) && not (length q.gates == length q.evaluation.extensions)
      then err gate_count
      else if is_empty branches
      then ok (unentered q gates)
      else ok (witnessed q branches (any (λ g. is_gate_incomplete g.state) gates))

-- `BranchIdentityV5`, as `compose_branch_key_v5` returns its fields.
pub record BranchIdentity {ℓ} (A : Type ℓ) : Type ℓ where
  pub scenario_id : String
  pub assumptions : List A
  pub profile : Profile
  pub extension : List A

unfoldable pub compose_branch_key {ℓ} :
    {A : Type ℓ} ⦃k : Key A⦄
    → String
    → List A
    → Profile
    → List A
    → Result QueryError (BranchIdentity A)
compose_branch_key scenario_id assumptions profile extension = do
  reject_if (not (is_query_profile profile)) (query_field "profile")
  ok (record {
    scenario_id = scenario_id;
    assumptions = sort (dedup assumptions);
    profile = profile;
    extension = sort extension;
  })
