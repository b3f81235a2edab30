-- ===== src/Taint.antt =====
-- The boundary taints of compiler_core/taint.py. A `frozenset` of labels is a list of them; `str.lower`
-- is a parameter.
use juris_calculus.Prelude.{
  Bool, true, false, ◌||◌, List, [], ◌∷◌, ◌++◌, map, String, string_key, has, dedup, sort,
  if◌then◌else◌,
}
pub mod Propagation

pub data TaintLabel : Type 0 where
  assumption disputed unknown_taint conditional : TaintLabel

unfoldable pub value : TaintLabel → String
value assumption = "assumption"
value disputed = "disputed"
value unknown_taint = "unknown"
value conditional = "conditional"

pub record TaintSet : Type 0 where
  pub labels : List TaintLabel

-- `TaintSet.add`.
unfoldable pub add_labels : TaintSet → List TaintLabel → TaintSet
add_labels t labels = record { labels = t.labels ++ labels }

unfoldable pub merge_labels : List TaintLabel → List TaintSet → List TaintLabel
merge_labels merged [] = merged
merge_labels merged (other ∷ others) = merge_labels (merged ++ other.labels) others

-- `TaintSet.union`.
unfoldable pub union : TaintSet → List TaintSet → TaintSet
union t others = record { labels = merge_labels t.labels others }

unfoldable pub to_list : TaintSet → List String
to_list t = sort (dedup (map value t.labels))

unfoldable pub propagate_taint : List TaintSet → TaintSet
propagate_taint upstream = union (record { labels = [] }) upstream

abbrev pub assumption_statuses : List String
assumption_statuses = "user_assumed" ∷ "hypothetical_result" ∷ "hypothetical" ∷ []

abbrev pub disputed_statuses : List String
disputed_statuses = "disputed" ∷ "review_only_result" ∷ "degraded_to_auxiliary" ∷ []

abbrev pub unknown_statuses : List String
unknown_statuses = "unknown" ∷ "missing_required_fact" ∷ []

abbrev pub conditional_statuses : List String
conditional_statuses = "deterministic_conditional" ∷ "conditional" ∷ []

unfoldable pub label_when : List String → TaintLabel → String → List TaintLabel
label_when statuses label normalized = if has normalized statuses then label ∷ [] else []

-- The labels of one status.
unfoldable pub status_labels : String → List TaintLabel
status_labels normalized =
    label_when assumption_statuses assumption normalized
    ++ label_when disputed_statuses disputed normalized
    ++ label_when unknown_statuses unknown_taint normalized
    ++ label_when conditional_statuses conditional normalized

module _ (lower : String → String) where
  unfoldable pub labels_of : List String → List TaintLabel
  labels_of [] = []
  labels_of (status ∷ statuses) = status_labels (lower status) ++ labels_of statuses

  unfoldable pub taint_from_statuses : List String → TaintSet
  taint_from_statuses statuses = record { labels = labels_of statuses }
