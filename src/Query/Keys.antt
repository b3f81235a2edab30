-- ===== src/Query/Keys.antt =====
-- The identity of a branch, `compose_branch_key_v5`.
use juris_calculus.Prelude.{
  Key, ◌≡◌, sym, subst, ap, ◌∙◌, ◌↔◌, not, List, String, dedup, dedup-IsNodup, mem-dedup, sort,
  has-sort, sort_canonical, ◌∈◌, ◌⊆◌, IsNodup, ok, reject-eq-ok,
}
use juris_calculus.Profile.{Profile}
use juris_calculus.Query.{BranchIdentity, compose_branch_key, is_query_profile, query_field}

module _ {ℓ} {A : Type ℓ} ⦃k : Key A⦄ where
  abbrev identity : String → List A → Profile → List A → BranchIdentity A
  identity scenario_id assumptions profile extension = record {
    scenario_id = scenario_id;
    assumptions = sort (dedup assumptions);
    profile = profile;
    extension = sort extension;
  }

  composed :
      (sid : String) (assumptions : List A) (p : Profile) (extension : List A)
      (r : BranchIdentity A)
      → compose_branch_key sid assumptions p extension ≡ ok r
      → identity sid assumptions p extension ≡ r
  unfolding compose_branch_key
  composed sid assumptions p extension r h =
      (reject-eq-ok (not (is_query_profile p)) (query_field "profile") _ h).1

  sorted_members : (xs ys : List A) → sort xs ≡ sort ys → xs ⊆ ys
  sorted_members xs ys e a m =
      let i : a ∈ sort xs = rw has-sort m in rw has-sort at (subst (λ zs. a ∈ zs) e i)

  sorted_set : (xs ys : List A) → sort (dedup xs) ≡ sort (dedup ys) → xs ⊆ ys
  sorted_set xs ys e a m =
      (mem-dedup a ys).0 (sorted_members (dedup xs) (dedup ys) e a ((mem-dedup a xs).1 m))

  set_sorted : (xs ys : List A) → xs ⊆ ys → ys ⊆ xs → sort (dedup xs) ≡ sort (dedup ys)
  set_sorted xs ys f g =
      sort_canonical (dedup xs) (dedup ys) (dedup-IsNodup xs) (dedup-IsNodup ys)
        (λ a m. (mem-dedup a ys).1 (f a ((mem-dedup a xs).0 m)))
        (λ a m. (mem-dedup a xs).1 (g a ((mem-dedup a ys).0 m)))

  -- Two branch keys over extensions without repetition are equal exactly when the scenarios and the
  -- profiles are, and the assumptions and the extensions are the same sets, in whatever order.
  pub compose_branch_key_canonical :
      (sid sid' : String) (assumptions assumptions' : List A) (p p' : Profile)
      (extension extension' : List A) (r r' : BranchIdentity A)
      → IsNodup extension
      → IsNodup extension'
      → compose_branch_key sid assumptions p extension ≡ ok r
      → compose_branch_key sid' assumptions' p' extension' ≡ ok r'
      → (r ≡ r') ↔ (
          (sid ≡ sid')
          × (p ≡ p')
          × ((assumptions ⊆ assumptions') × (assumptions' ⊆ assumptions))
          × ((extension ⊆ extension') × (extension' ⊆ extension)))
  compose_branch_key_canonical sid sid' xs xs' p p' s s' r r' n n' h h' =
      let e = composed sid xs p s r h in
      let e' = composed sid' xs' p' s' r' h' in
      (
        λ same.
            let whole = e ∙ same ∙ sym e' in
            let sets = ap (λ (b : BranchIdentity A). b.assumptions) whole in
            let exts = ap (λ (b : BranchIdentity A). b.extension) whole in
            (
              ap (λ (b : BranchIdentity A). b.scenario_id) whole,
              ap (λ (b : BranchIdentity A). b.profile) whole,
              (sorted_set xs xs' sets, sorted_set xs' xs (sym sets)),
              (sorted_members s s' exts, sorted_members s' s (sym exts)),
            ),
        λ (a, b, (f, g), (u, v)).
            let sets = set_sorted xs xs' f g in
            let exts = sort_canonical s s' n n' u v in sym e ∙ cc (a, b, sets, exts) ∙ e',
      )
