-- ===== src/Query/Status.antt =====
-- The status that `evaluate_query_v5` returns.
use juris_calculus.Prelude.{
  Key, ◌≡◌, ◌≢◌, refl, sym, subst, ◌∙◌, ◌↔◌, ◌⊎◌, inl, inr, Bool, true, false, not, ◌&&◌, List, [],
  ◌∷◌, Bool-cases, and-left, and-right, and-intro, arith, is_empty, nil_of_is_empty, any, all, ◌∈◌,
  sort, has-sort, mem-dedup, dedup, not_mem_nil, length, ◌==◌, Memᴰ, any_of_Elem, Elem_of_any,
  all_at_Elem, all_of_Elem, if◌then◌else◌, ok, ok-injective, not_of_false, false_of_not,
}
use mathlib.Core.List.Memᴰ
use juris_calculus.Profile.{FamilyKind, incomplete, no_extension, extensions_found}
use juris_calculus.Query.{
  QueryInput, QueryStatus, GateState, Gate, enterable, excluded, gate_incomplete, supports,
  argument_refutes, tally_branches, start_tally, witnessed, unentered, unentered_status,
  unwitnessed, gates_of, evaluate_query, enterable_extensions, is_partial, is_vacuous,
  is_gate_incomplete,
}
use juris_calculus.Query.Branches.{
  Supports, Opposes, Accepts, Refutes, accepts, refutes, supports_lem, opposes_lem, accepts_lem,
  refutes_lem,
}
use juris_calculus.Query.Loop.{
  tally-common, tally-common_refuted, tally-undecided, tally-inconsistent, undecides, clashes, From,
  mem-accepting, mem-refuting,
}

enterable_extensions-nil {ℓ} :
    {A : Type ℓ} (gates : List GateState) → enterable_extensions {A = A} gates [] ≡ []
unfolding enterable_extensions
enterable_extensions-nil [] = refl
enterable_extensions-nil (g ∷ gates) = refl

not_vacuous :
    (kind : FamilyKind) (missing : Bool) → kind ≢ no_extension → is_vacuous kind missing ≡ false
unfolding is_vacuous
not_vacuous incomplete missing h = refl
not_vacuous no_extension missing h = absurd (h refl)
not_vacuous extensions_found missing h = refl

whole_iff :
    (kind : FamilyKind) (missing : Bool)
    → kind ≢ no_extension
    → (is_partial kind missing ≡ false) ↔ ((kind ≡ extensions_found) × (missing ≡ false))
unfolding is_partial
whole_iff incomplete missing h = (λ e. cc, λ (e, _). cc)
whole_iff no_extension missing h = absurd (h refl)
whole_iff extensions_found missing h = (λ e. (refl, e), λ (_, e). e)

module _ {ℓ κ} {A : Type ℓ} {C : Type κ} ⦃k : Key A⦄ ⦃c : Key C⦄ (q : QueryInput A C) where
  abbrev pub branches : List (List A)
  branches = enterable_extensions (gates_of q) q.evaluation.extensions

  -- Some gate of the query is incomplete.
  abbrev pub gate_missing : Bool
  gate_missing = any (λ (g : GateState). is_gate_incomplete g.state) (gates_of q)

  -- What a status says of the enterable branches.
  pub record IsStatus (st : QueryStatus A) : Type (ℓ ⊔ κ) where
    pub possible_iff : (st.possible ≡ true) ↔ ((s : List A) × Memᴰ s branches × Accepts q s)
    pub refuted_iff : (st.possibly_refuted ≡ true) ↔ ((s : List A) × Memᴰ s branches × Refutes q s)
    pub common_iff : (st.common ≡ true) ↔ (
        (q.evaluation.kind ≡ extensions_found)
        × (gate_missing ≡ false)
        × (branches ≢ [])
        × ((s : List A) → Memᴰ s branches → Accepts q s))
    pub common_refuted_iff : (st.common_refuted ≡ true) ↔ (
        (q.evaluation.kind ≡ extensions_found)
        × (gate_missing ≡ false)
        × (branches ≢ [])
        × ((s : List A) → Memᴰ s branches → Refutes q s))
    pub undecided_iff :
        (st.undecided_some ≡ true)
        ↔ ((s : List A) × Memᴰ s branches × ((¬ Accepts q s) × (¬ Refutes q s)))
    pub inconsistent_iff :
        (st.inconsistent_some ≡ true)
        ↔ ((s : List A) × Memᴰ s branches × (Accepts q s × Refutes q s))
    pub accepting_iff :
        (a : A)
        → (a ∈ st.acceptance_witnesses) ↔ ((s : List A) × Memᴰ s branches × (a ∈ s) × Supports q a)
    pub refuting_iff :
        (a : A)
        → (a ∈ st.refutation_witnesses) ↔ ((s : List A) × Memᴰ s branches × (a ∈ s) × Opposes q a)

  any_branch :
      (P : List A → Type (ℓ ⊔ κ)) (p : List A → Bool)
      → ((s : List A) → (p s ≡ true) ↔ P s)
      → (bs : List (List A)) → (any p bs ≡ true) ↔ ((s : List A) × Memᴰ s bs × P s)
  any_branch P p decides bs = (
    λ h. let (s, i, e) = Elem_of_any p bs h in (s, i, (decides s).0 e),
    λ (s, i, v). any_of_Elem p bs s i ((decides s).1 v),
  )

  all_branches :
      (P : List A → Type (ℓ ⊔ κ)) (p : List A → Bool)
      → ((s : List A) → (p s ≡ true) ↔ P s)
      → (bs : List (List A)) → (all p bs ≡ true) ↔ ((s : List A) → Memᴰ s bs → P s)
  all_branches P p decides bs = (
    λ h s i. (decides s).0 (all_at_Elem p bs s h i),
    λ f. all_of_Elem p bs (λ s i. (decides s).1 (f s i)),
  )

  undecides_lem : (s : List A) → (undecides q s ≡ true) ↔ ((¬ Accepts q s) × (¬ Refutes q s))
  undecides_lem s = (
    λ h. (
      λ v. let e = (accepts_lem q s).1 v in not_of_false (ground (arith, h)) e,
      λ v. let e = (refutes_lem q s).1 v in not_of_false (ground (arith, h)) e,
    ),
    λ (f, g).
        rw
          (
            false_of_not (λ e. f ((accepts_lem q s).0 e)),
            false_of_not (λ e. g ((refutes_lem q s).0 e)),
          )
          refl,
  )

  clashes_lem : (s : List A) → (clashes q s ≡ true) ↔ (Accepts q s × Refutes q s)
  clashes_lem s = (
    λ h. ((accepts_lem q s).0 (and-left _ _ h), (refutes_lem q s).0 (and-right (accepts q s) _ h)),
    λ (v, w). and-intro ((accepts_lem q s).1 v) ((refutes_lem q s).1 w),
  )

  -- The three returns without an enterable branch say so.
  unwitnessed-IsStatus :
      (b : Bool) (g : Gate) → branches ≡ [] → IsStatus (unwitnessed q.query_id q.profile b g)
  unfolding unwitnessed
  unwitnessed-IsStatus b g empty = record {
    possible_iff = (λ h. cc, λ (s, i, _). cc (nowhere s i));
    refuted_iff = (λ h. cc, λ (s, i, _). cc (nowhere s i));
    common_iff = (λ h. cc, λ (_, _, some_left, _). absurd (some_left empty));
    common_refuted_iff = (λ h. cc, λ (_, _, some_left, _). absurd (some_left empty));
    undecided_iff = (λ h. cc, λ (s, i, _). cc (nowhere s i));
    inconsistent_iff = (λ h. cc, λ (s, i, _). cc (nowhere s i));
    accepting_iff = λ a. (λ h. absurd (not_mem_nil a h), λ (s, i, _, _). cc (nowhere s i));
    refuting_iff = λ a. (λ h. absurd (not_mem_nil a h), λ (s, i, _, _). cc (nowhere s i));
  }
    where
      nowhere : (s : List A) → Memᴰ s branches → true ≡ false
      nowhere s i = absurd (Memᴰ.not-nil (subst (λ bs. Memᴰ s bs) empty i))

  shut-IsStatus :
      (b : Bool)
      → branches ≡ []
      → IsStatus (
          if b
          then unwitnessed q.query_id q.profile true excluded
          else unwitnessed q.query_id q.profile false gate_incomplete)
  shut-IsStatus true empty = unwitnessed-IsStatus true excluded empty
  shut-IsStatus false empty = unwitnessed-IsStatus false gate_incomplete empty

  unentered_status-IsStatus :
      (kind : FamilyKind) (b : Bool)
      → branches ≡ []
      → IsStatus (unentered_status kind q.query_id q.profile b)
  unfolding unentered_status
  unentered_status-IsStatus incomplete b empty = shut-IsStatus b empty
  unentered_status-IsStatus no_extension b empty = unwitnessed-IsStatus false enterable empty
  unentered_status-IsStatus extensions_found b empty = shut-IsStatus b empty

  universal :
      (P : List A → Type (ℓ ⊔ κ)) (p : List A → Bool) (flag : Bool)
      → ((s : List A) → (p s ≡ true) ↔ P s)
      → flag ≡ all p branches
      → q.evaluation.kind ≢ no_extension
      → branches ≢ []
      → ((if is_partial q.evaluation.kind gate_missing
            then false
            else if is_vacuous q.evaluation.kind gate_missing
            then false
            else flag)
          ≡ true)
        ↔ ((q.evaluation.kind ≡ extensions_found)
            × (gate_missing ≡ false)
            × (branches ≢ [])
            × ((s : List A) → Memᴰ s branches → P s))
  universal P p flag decides same proper some_left =
      let keep = not_vacuous q.evaluation.kind gate_missing proper in
      let whole = whole_iff q.evaluation.kind gate_missing proper in
      (
        λ h. elim (Bool-cases (is_partial q.evaluation.kind gate_missing)) [
          | inl part ↦ cc (rw part at h)
          | inr w ↦
              let (found, open_gates) = whole.0 w in
              let set : flag ≡ true = rw (w, keep) at h in
              (found, open_gates, some_left, (all_branches P p decides branches).0 (sym same ∙ set))
        ],
        λ (found, open_gates, _, f).
            rw (whole.1 (found, open_gates), keep) (same ∙ (all_branches P p decides branches).1 f),
      )

  witnesses :
      (p : A → Bool) (P : A → Type κ)
      → ((a : A) → (p a ≡ true) ↔ P a)
      → (found : List A) → ((a : A) → (a ∈ found) ↔ ((a ∈ []) ⊎ From q p branches a))
      → (a : A) → (a ∈ sort (dedup found)) ↔ ((s : List A) × Memᴰ s branches × (a ∈ s) × P a)
  witnesses p P decides found lists a = (
    λ m. elim ((lists a).0 ((mem-dedup a found).0 (rw has-sort at m))) [
      | inl n ↦ absurd (not_mem_nil a n)
      | inr (s, i, n, e) ↦ (s, i, n, (decides a).0 e)
    ],
    λ (s, i, n, v).
        rw has-sort ((mem-dedup a found).1 ((lists a).1 (inr (s, i, n, (decides a).1 v)))),
  )

  -- The loop's result, with the universal flags kept only for a whole family.
  witnessed-IsStatus :
      q.evaluation.kind ≢ no_extension
      → branches ≢ []
      → IsStatus (witnessed q branches gate_missing)
  unfolding witnessed start_tally
  witnessed-IsStatus proper some_left =
      let keep = not_vacuous q.evaluation.kind gate_missing proper in
      let whole = whole_iff q.evaluation.kind gate_missing proper in
      record {
        possible_iff = rw keep (any_branch (Accepts q) (accepts q) (accepts_lem q) branches);
        refuted_iff = rw keep (any_branch (Refutes q) (refutes q) (refutes_lem q) branches);
        common_iff =
            universal (Accepts q) (accepts q) _ (accepts_lem q)
              (tally-common q branches start_tally) proper some_left;
        common_refuted_iff =
            universal (Refutes q) (refutes q) _ (refutes_lem q)
              (tally-common_refuted q branches start_tally) proper some_left;
        undecided_iff =
            rw (keep, tally-undecided q branches start_tally)
              (any_branch _ (undecides q) undecides_lem branches);
        inconsistent_iff =
            rw (keep, tally-inconsistent q branches start_tally)
              (any_branch _ (clashes q) clashes_lem branches);
        accepting_iff = λ a.
            witnesses (supports q) (Supports q) (supports_lem q)
              (tally_branches q branches start_tally).accepting
              (mem-accepting q branches start_tally) a;
        refuting_iff = λ a.
            witnesses (argument_refutes q) (Opposes q) (opposes_lem q)
              (tally_branches q branches start_tally).refuting (mem-refuting q branches start_tally)
              a;
      }

  -- For an evaluation that finds no extension only where there is none, a query that returns has
  -- the status that the enterable branches give it: a claim is possible, refuted, undecided or
  -- inconsistent by a branch that shows it, its witnesses are the arguments of those branches, and
  -- it is common only in a whole family with a branch, every branch of which accepts it.
  pub evaluate_query-IsStatus :
      (st : QueryStatus A)
      → (q.evaluation.kind ≡ no_extension → q.evaluation.extensions ≡ [])
      → evaluate_query q ≡ ok st
      → IsStatus st
  unfolding evaluate_query unentered
  evaluate_query-IsStatus st proper h =
      elim (Bool-cases
        (not (is_empty q.gates) && not (length q.gates == length q.evaluation.extensions))) [
          | inl bad ↦ cc (rw bad at h)
          | inr fine ↦ elim (Bool-cases (is_empty branches)) [
            | inl none_left ↦
                subst IsStatus (ok-injective (rw (fine, none_left) at h)) (
                  unentered_status-IsStatus q.evaluation.kind _
                    (nil_of_is_empty branches none_left))
            | inr left ↦
                let some_left : branches ≢ [] =
                  λ e. not_of_false left (subst (λ bs. is_empty bs ≡ true) (sym e) refl) in
                subst IsStatus (ok-injective (rw (fine, left) at h)) (
                  witnessed-IsStatus
                    (λ e. some_left (
                      subst (λ xs. enterable_extensions (gates_of q) xs ≡ []) (sym (proper e))
                        (enterable_extensions-nil (gates_of q))))
                    some_left)
          ]
        ]
