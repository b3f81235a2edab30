-- ===== src/Taint/Propagation.antt =====
-- Which taints a derived fact carries.
use juris_calculus.Prelude.{
  Bool-cases, mem_head, mem_tail, mem_cases, string_key, ◌≡◌, refl, subst, ◌↔◌, ◌⊎◌, inl, inr, List,
  [], ◌∷◌, ◌++◌, map, Memᴰ, String, string_key, has, ◌∈◌, arith, not_mem_nil, mem-dedup, has-sort,
}
use juris_calculus.Taint.{
  label_when, assumption, disputed, unknown_taint, conditional, assumption_statuses,
  disputed_statuses, unknown_statuses, conditional_statuses, TaintLabel, TaintSet, value,
  merge_labels, union, to_list, propagate_taint, labels_of, status_labels, taint_from_statuses,
}

-- The value is among those of the labels.
abbrev pub Shows : List TaintLabel → String → Type 0
Shows labels v = v ∈ map value labels

mem-to_list : (t : TaintSet) (v : String) → (v ∈ to_list t) ↔ Shows t.labels v
unfolding to_list
mem-to_list t v = (
  λ m. (mem-dedup v (map value t.labels)).0 (rw has-sort at m),
  λ m. rw has-sort ((mem-dedup v (map value t.labels)).1 m),
)

Shows-append :
    (xs ys : List TaintLabel) (v : String) → Shows (xs ++ ys) v ↔ (Shows xs v ⊎ Shows ys v)
unfolding has
Shows-append [] ys v = (λ m. inr m, λ d. elim d [ inl m ↦ cc | inr m ↦ m ])
Shows-append (x ∷ xs) ys v = ground (arith, Shows-append xs ys v)

merge_labels-Shows :
    (merged : List TaintLabel) (others : List TaintSet) (v : String)
    → Shows (merge_labels merged others) v
      ↔ (Shows merged v ⊎ ((t : TaintSet) × Memᴰ t others × Shows t.labels v))
unfolding merge_labels
merge_labels-Shows merged [] v =
    (λ m. inl m, λ d. elim d [ inl m ↦ m | inr (t, i, _) ↦ elim i [ ] ])
merge_labels-Shows merged (other ∷ others) v =
    let (to, from) = merge_labels-Shows (merged ++ other.labels) others v in
    (
      λ m. elim (to m) [
        | inl n ↦ elim ((Shows-append merged other.labels v).0 n) [
          | inl a ↦ inl a
          | inr b ↦ inr (other, Memᴰ.head refl, b)
        ]
        | inr (t, i, n) ↦ inr (t, Memᴰ.tail i, n)
      ],
      λ d. elim d [
        | inl a ↦ from (inl ((Shows-append merged other.labels v).1 (inl a)))
        | inr (t, i, n) ↦ elim i [
          | Memᴰ.head e ↦ from (
              inl (
                (Shows-append merged other.labels v).1
                  (inr (subst (λ (s : TaintSet). Shows s.labels v) e n))))
          | Memᴰ.tail j ↦ from (inr (t, j, n))
        ]
      ],
    )

-- A derived fact carries exactly the taints of the facts that it is derived from.
pub propagate_taint_iff :
    (upstream : List TaintSet) (v : String)
    → (v ∈ to_list (propagate_taint upstream))
      ↔ ((t : TaintSet) × Memᴰ t upstream × (v ∈ to_list t))
unfolding propagate_taint union
propagate_taint_iff upstream v =
    let (to, from) = merge_labels-Shows [] upstream v in
    let (show, list) = mem-to_list (propagate_taint upstream) v in
    (
      λ m. elim (to (show m)) [
        | inl n ↦ absurd (not_mem_nil v n)
        | inr (t, i, n) ↦ (t, i, (mem-to_list t v).1 n)
      ],
      λ (t, i, n). list (from (inr (t, i, (mem-to_list t v).0 n))),
    )

-- The boundary taint that a status gives, with its written form.
abbrev pub Gives : String → String → Type 0
Gives status v =
    ((v ≡ "assumption")
      × ((status ≡ "user_assumed") ⊎ (status ≡ "hypothetical_result") ⊎ (status ≡ "hypothetical")))
    ⊎ ((v ≡ "disputed")
        × ((status ≡ "disputed")
            ⊎ (status ≡ "review_only_result")
            ⊎ (status ≡ "degraded_to_auxiliary")))
    ⊎ ((v ≡ "unknown") × ((status ≡ "unknown") ⊎ (status ≡ "missing_required_fact")))
    ⊎ ((v ≡ "conditional") × ((status ≡ "deterministic_conditional") ⊎ (status ≡ "conditional")))

label_when-Shows :
    (statuses : List String) (label : TaintLabel) (status v : String)
    → Shows (label_when statuses label status) v ↔ ((v ≡ value label) × (status ∈ statuses))
unfolding label_when has
label_when-Shows statuses label status v = elim (Bool-cases (has status statuses)) [
  | inl here ↦ rw here (ground (arith, string_key.beq_iff v (value label)))
  | inr absent_here ↦ rw absent_here (ground arith)
]

in_two : (s a b : String) → (s ∈ (a ∷ b ∷ [])) ↔ ((s ≡ a) ⊎ (s ≡ b))
unfolding has
in_two s a b = ground (arith, string_key.beq_iff s a, string_key.beq_iff s b)

in_three : (s a b c : String) → (s ∈ (a ∷ b ∷ c ∷ [])) ↔ ((s ≡ a) ⊎ (s ≡ b) ⊎ (s ≡ c))
unfolding has
in_three s a b c =
    ground (arith, string_key.beq_iff s a, string_key.beq_iff s b, string_key.beq_iff s c)

status_labels-Gives : (status v : String) → Shows (status_labels status) v ↔ Gives status v
unfolding status_labels value
status_labels-Gives status v =
    let a = label_when assumption_statuses assumption status in
    let b = label_when disputed_statuses disputed status in
    let c = label_when unknown_statuses unknown_taint status in
    let d = label_when conditional_statuses conditional status in
    ground (
      arith,
      Shows-append (a ++ b ++ c) d v,
      Shows-append (a ++ b) c v,
      Shows-append a b v,
      label_when-Shows assumption_statuses assumption status v,
      label_when-Shows disputed_statuses disputed status v,
      label_when-Shows unknown_statuses unknown_taint status v,
      label_when-Shows conditional_statuses conditional status v,
      in_three status "user_assumed" "hypothetical_result" "hypothetical",
      in_three status "disputed" "review_only_result" "degraded_to_auxiliary",
      in_two status "unknown" "missing_required_fact",
      in_two status "deterministic_conditional" "conditional",
    )

module _ (lower : String → String) where
  labels_of-Shows :
      (statuses : List String) (v : String)
      → Shows (labels_of lower statuses) v
        ↔ ((status : String) × (status ∈ statuses) × Gives (lower status) v)
  unfolding labels_of
  labels_of-Shows [] v = (λ m. absurd (not_mem_nil v m), λ (s, i, _). absurd (not_mem_nil s i))
  labels_of-Shows (x ∷ xs) v =
      let (split, join) = Shows-append (status_labels (lower x)) (labels_of lower xs) v in
      let (gives, shows) = status_labels-Gives (lower x) v in
      let (to, from) = labels_of-Shows xs v in
      (
        λ m. elim (split m) [
          | inl now ↦ (x, mem_head x xs, gives now)
          | inr later ↦ let (s, i, g) = to later in (s, mem_tail s x xs i, g)
        ],
        λ (s, i, g). elim (mem_cases s x xs i) [
          | inl same ↦ join (inl (shows (subst (λ y. Gives (lower y) v) same g)))
          | inr later ↦ join (inr (from (s, later, g)))
        ],
      )

  -- A list of statuses carries exactly the taints that its statuses give, in lower case.
  pub taint_from_statuses_iff :
      (statuses : List String) (v : String)
      → (v ∈ to_list (taint_from_statuses lower statuses))
        ↔ ((status : String) × (status ∈ statuses) × Gives (lower status) v)
  unfolding taint_from_statuses
  taint_from_statuses_iff statuses v =
      let (show, list) = mem-to_list (taint_from_statuses lower statuses) v in
      let (to, from) = labels_of-Shows statuses v in (λ m. to (show m), λ g. list (from g))
