-- ===== src/Checker.antt =====
-- The second implementation of the grounded labelling and the comparison with claimed labels:
-- compiler_core/independent_grounded_checker.py. It shares no definition with `Grounded`.
-- `json.loads` is not modelled: the argument is what it returns, `none` for a decoding error; a
-- claim entry is its "id", `none` where the key is missing, which makes the recomputation raise.
pub mod Agree
pub mod Sound
pub mod Verdict
use juris_calculus.Prelude.{
  Key, ℕ, zero, suc, ◌+◌, Bool, true, false, ◌&&◌, List, [], ◌∷◌, ◌++◌, Option, none, some, String,
  map, if◌then◌else◌, length, is_empty, filter, has, add, dedup, set_eq, meets, diff, sort, lookup,
  keys, concat_map, tabulate, string_key,
}

-- The recomputed labels, and any other text that a caller may claim.
pub data Label : Type 0 where
  accepted_label rejected_label undecided_label : Label
  other_label : String → Label

unfoldable pub label_eq : Label → Label → Bool
label_eq accepted_label accepted_label = true
label_eq rejected_label rejected_label = true
label_eq undecided_label undecided_label = true
label_eq (other_label s) (other_label t) = string_key.beq s t
label_eq _ _ = false

module _ {ℓ} {A : Type ℓ} ⦃k : Key A⦄ where
  unfoldable pub index_attackers : List A → List (A × A) → A → List A
  index_attackers cids [] t = []
  index_attackers cids ((src, tgt) ∷ rest) t =
      let earlier = index_attackers cids rest t in
      if has src cids && has tgt cids && k.beq tgt t then add src earlier else earlier

  -- `for a in atts: if not (a_atts & accepted): all_defeated = False; break`.
  unfoldable pub all_defeated : (A → List A) → List A → List A → Bool
  all_defeated index accepted [] = true
  all_defeated index accepted (a ∷ rest) =
      let later = all_defeated index accepted rest in
      if meets (index a) accepted then later else false

  unfoldable pub recompute_round : (A → List A) → List A → List A → List A
  recompute_round index cids accepted = filter (λ cid. all_defeated index accepted (index cid)) cids

  unfoldable pub recompute_loop : (A → List A) → List A → ℕ → List A → List A
  recompute_loop index cids zero accepted = accepted
  recompute_loop index cids (suc rounds) accepted =
      let defended = recompute_round index cids accepted in
      let rest = recompute_loop index cids rounds defended in
      if set_eq defended accepted then accepted else rest

  unfoldable pub assign_label : (A → List A) → List A → A → Label
  assign_label index accepted cid =
      if has cid accepted
      then accepted_label
      else if meets (index cid) accepted
      then rejected_label
      else undecided_label

  unfoldable pub recompute_grounded : List A → List (A × A) → List (A × Label)
  recompute_grounded claims attacks =
      let cids = dedup claims in
      let index = index_attackers cids attacks in
      tabulate (assign_label index (recompute_loop index cids (length cids + 1) [])) cids

pub data AttackEntry {ℓ} (A : Type ℓ) : Type ℓ where
  edge : A → A → AttackEntry A
  malformed : AttackEntry A

-- The decoded object; a field is `none` where it holds something other than a list.
pub record SerializedAaf {ℓ} (A : Type ℓ) : Type ℓ where
  pub claims : Option (List (Option A))
  pub attacks : Option (List (AttackEntry A))

pub data Violation {ℓ} (A : Type ℓ) : Type ℓ where
  no_theorem_refs invalid_json claims_not_list attacks_not_list : Violation A
  malformed_attack recomputation_failed : Violation A
  no_claimed_label : A → Violation A
  not_in_claim_set : A → Label → Violation A
  label_mismatch : A → Label → Label → Violation A
  missing_from_labels : A → Violation A

pub record CheckResult {ℓ} (A : Type ℓ) : Type ℓ where
  pub valid : Bool
  pub violations : List (Violation A)

module _ {ℓ} {A : Type ℓ} where
  unfoldable pub attack_pairs : List (AttackEntry A) → List (A × A)
  attack_pairs [] = []
  attack_pairs (edge a b ∷ rest) = (a, b) ∷ attack_pairs rest
  attack_pairs (malformed ∷ rest) = attack_pairs rest

  unfoldable pub malformed_entries : List (AttackEntry A) → List (Violation A)
  malformed_entries [] = []
  malformed_entries (edge a b ∷ rest) = malformed_entries rest
  malformed_entries (malformed ∷ rest) = malformed_attack ∷ malformed_entries rest

  -- `{c["id"] for c in claims}`, which raises on an entry with no "id".
  unfoldable pub claim_ids : List (Option A) → Option (List A)
  claim_ids [] = some []
  claim_ids (none ∷ rest) = none
  claim_ids (some c ∷ rest) = elim (claim_ids rest) [ none ↦ none | some cs ↦ some (c ∷ cs) ]

  unfoldable pub compare_label : A → Option Label → Option Label → List (Violation A)
  compare_label a none actual = no_claimed_label a ∷ []
  compare_label a (some expected) none = not_in_claim_set a expected ∷ []
  compare_label a (some expected) (some actual) =
      if label_eq expected actual then [] else label_mismatch a expected actual ∷ []

module _ {ℓ} {A : Type ℓ} ⦃k : Key A⦄ where
  -- The two comparison loops, over all identifiers and over the claims without a label.
  unfoldable pub compare_labels : List A → List (A × A) → List (A × Label) → List (Violation A)
  compare_labels claims attacks claimed =
      let recomputed = recompute_grounded claims attacks in
      concat_map (λ a. compare_label a (lookup a claimed) (lookup a recomputed))
        (sort (dedup (claims ++ keys claimed)))
      ++ map missing_from_labels (sort (diff (dedup claims) (dedup (keys claimed))))

  unfoldable pub finish_check : List (Violation A) → CheckResult A
  finish_check violations = record { valid = is_empty violations; violations = violations }

  -- An early `return {"valid": False, ...}`.
  unfoldable pub reject_check : List (Violation A) → CheckResult A
  reject_check violations = record { valid = false; violations = violations }

  -- From the `try` on: the recomputation raises where a claim has no "id".
  unfoldable pub check_recomputed :
      List (Violation A) → Option (List A) → List (A × A) → List (A × Label) → CheckResult A
  check_recomputed found none attacks claimed = reject_check (found ++ recomputation_failed ∷ [])
  check_recomputed found (some claims) attacks claimed =
      finish_check (found ++ compare_labels claims attacks claimed)

  unfoldable pub check_grounded :
      Option (SerializedAaf A) → List (A × Label) → List String → CheckResult A
  check_grounded serialized claimed theorem_refs =
      let start = if is_empty theorem_refs then no_theorem_refs ∷ [] else [] in
      elim serialized [
        | none ↦ reject_check (start ++ invalid_json ∷ [])
        | some aaf ↦ elim aaf.claims [
          | none ↦ reject_check (start ++ claims_not_list ∷ [])
          | some claims_raw ↦ elim aaf.attacks [
            | none ↦ reject_check (start ++ attacks_not_list ∷ [])
            | some attacks_raw ↦
                let found = start ++ malformed_entries attacks_raw in
                check_recomputed found (claim_ids claims_raw) (attack_pairs attacks_raw) claimed
          ]
        ]
      ]
