-- ===== src/Reasons.antt =====
-- The reasons for the labels: `label_reasons` and `find_cycles` of compiler_core/argumentation.py. The
-- strongly connected components are an argument, in the order of `scc_decomposition`. A dictionary of
-- reasons is the association list in the order of its keys.
use juris_calculus.Prelude.{
  Key, ℕ, ◌+◌, Bool, true, false, List, [], ◌∷◌, ◌++◌, Option, none, some, is_empty, filter, has,
  dedup, sort, tabulate, pair_key, if◌then◌else◌,
}
use juris_calculus.Grounded.{GroundedResult, attackers_of}
pub mod Witnesses
pub mod Explained
pub mod Trace

pub data ArgumentLabel : Type 0 where
  in_label out_label undec_label : ArgumentLabel

-- The text of the reason, and the index of the component for a cycle.
pub data Reason : Type 0 where
  no_attackers attackers_defeated attacked_by_in depends_on_undecided : Reason
  part_of_cycle : Option ℕ → Reason

pub record LabelReason {ℓ} (A : Type ℓ) : Type ℓ where
  pub label : ArgumentLabel
  pub reason : Reason
  pub witnesses : List A

module _ {ℓ} {A : Type ℓ} where
  -- The nodes of the component, or the argument alone.
  unfoldable pub scc_nodes : A → Option (ℕ × List A) → List A
  scc_nodes cid none = cid ∷ []
  scc_nodes cid (some (scc_id, nodes)) = nodes

  unfoldable pub scc_id_of : Option (ℕ × List A) → Option ℕ
  scc_id_of none = none
  scc_id_of (some (scc_id, nodes)) = some scc_id

module _ {ℓ} {A : Type ℓ} ⦃k : Key A⦄ where
  -- A component of more than one node, or of one that attacks itself.
  unfoldable pub is_cyclic : List (A × A) → List A → Bool
  is_cyclic attacks [] = false
  is_cyclic attacks (v ∷ []) = has (v, v) attacks
  is_cyclic attacks (v ∷ w ∷ rest) = true

  unfoldable pub find_cycles : List (A × A) → List (List A) → List (List A)
  find_cycles attacks sccs = filter (is_cyclic attacks) sccs

  -- `scc_map.get(cid)` with its component; a later component overwrites an earlier one.
  unfoldable pub scc_of : ℕ → A → List (List A) → Option (ℕ × List A)
  scc_of index cid [] = none
  scc_of index cid (scc ∷ rest) = elim (scc_of (index + 1) cid rest) [
    | some found ↦ some found
    | none ↦ if has cid scc then some (index, scc) else none
  ]

  -- The accepted attackers of the attackers.
  unfoldable pub defenders_of : (A → List A) → List A → List A → List A
  defenders_of atk accepted [] = []
  defenders_of atk accepted (a ∷ rest) =
      filter (λ d. has d accepted) (atk a) ++ defenders_of atk accepted rest

  unfoldable pub in_reason : (A → List A) → List A → A → LabelReason A
  in_reason atk accepted cid =
      if is_empty (atk cid)
      then record { label = in_label; reason = no_attackers; witnesses = [] }
      else record {
        label = in_label;
        reason = attackers_defeated;
        witnesses = sort (dedup (defenders_of atk accepted (atk cid)));
      }

  unfoldable pub out_reason : (A → List A) → List A → A → LabelReason A
  out_reason atk accepted cid = record {
    label = out_label;
    reason = attacked_by_in;
    witnesses = sort (filter (λ a. has a accepted) (atk cid));
  }

  unfoldable pub undec_reason :
      (A → List A) → List (A × A) → List A → A → Option (ℕ × List A) → LabelReason A
  undec_reason atk attacks undecided cid component =
      if is_cyclic attacks (scc_nodes cid component)
      then record {
        label = undec_label;
        reason = part_of_cycle (scc_id_of component);
        witnesses = scc_nodes cid component;
      }
      else record {
        label = undec_label;
        reason = depends_on_undecided;
        witnesses = sort (filter (λ a. has a undecided) (atk cid));
      }

  unfoldable pub label_reason :
      (A → List A) → List (A × A) → GroundedResult A → List (List A) → A → LabelReason A
  label_reason atk attacks result sccs cid =
      if has cid result.accepted
      then in_reason atk result.accepted cid
      else if has cid result.rejected
      then out_reason atk result.accepted cid
      else undec_reason atk attacks result.undecided cid (scc_of 0 cid sccs)

  unfoldable pub label_reasons :
      List A → List (A × A) → GroundedResult A → List (List A) → List (A × LabelReason A)
  label_reasons claims attacks result sccs =
      let cids = dedup claims in
      tabulate (label_reason (attackers_of cids attacks) attacks result sccs) (sort cids)
