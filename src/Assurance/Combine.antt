-- ===== src/Assurance/Combine.antt =====
-- The envelope that `combine_assurance_v5` returns.
use juris_calculus.Prelude.{
  ◌≡◌, refl, subst, ap, ◌↔◌, ◌⊎◌, inl, inr, false, not, Bool-cases, List, [], ◌∷◌, Memᴰ, has,
  String, string_key, pair_key, arith, not_of_false, ◌∈◌, is_empty, ok, ok-injective, >>=-eq-ok,
  reject-then, ◌&&◌,
}
use juris_calculus.Assurance.{
  upgrade, scope_differs, type_authority, enum_value, Obligation, Exemption, EnvelopeBody, Envelope,
  spec_order, implementation_order, run_check_order, semantic_profiles, obligation_key,
  exemption_key, dominate, merge_obligations, merge_exemptions, merge_refs, validate, merge_bodies,
  other_scope, combine_bodies, issue, combine_assurance,
}
use juris_calculus.Assurance.Merge.{merge_by-old, merge_by-key, mem-merge_refs}

-- A value is one of the two, and in the order nothing of the two comes before it.
pub data Weakest : List String → String → String → String → Type 0 where
  at_first : (order : List String) (v l r : String) → (v ≡ l) ⊎ (v ≡ r) → Weakest (v ∷ order) l r v
  further :
      (order : List String) (c v l r : String)
      → ¬ (c ≡ l)
      → ¬ (c ≡ r)
      → Weakest order l r v
      → Weakest (c ∷ order) l r v

among : (c l r : String) → (c ∈ (l ∷ r ∷ [])) ↔ ((c ≡ l) ⊎ (c ≡ r))
unfolding has
among c l r = ground (arith, string_key.beq_iff c l, string_key.beq_iff c r)

pub dominate-Weakest :
    (order : List String) (l r v : String)
    → dominate (l ∷ r ∷ []) order ≡ ok v
    → Weakest order l r v
unfolding dominate has
dominate-Weakest [] l r v h = cc
dominate-Weakest (c ∷ order) l r v h = elim (Bool-cases (has c (l ∷ r ∷ []))) [
  | inl here ↦
      subst (λ x. Weakest (c ∷ order) l r x) (ok-injective (rw here at h))
        (at_first order c l r ((among c l r).0 here))
  | inr not_here ↦
      further order c v l r (λ e. not_of_false not_here ((among c l r).1 (inl e)))
        (λ e. not_of_false not_here ((among c l r).1 (inr e)))
        (dominate-Weakest order l r v (rw not_here at h))
]

-- Every field of the combination of `l` and `r`.
pub record Combines (l r e : EnvelopeBody) : Type 0 where
  pub same_request : l.scope_request_ref ≡ r.scope_request_ref
  pub same_profile : l.scope_profile ≡ r.scope_profile
  pub spec_is : Weakest spec_order l.spec r.spec e.spec
  pub implementation_is :
      Weakest implementation_order l.implementation r.implementation e.implementation
  pub run_check_is : Weakest run_check_order l.run_check r.run_check e.run_check
  pub obligations_iff :
      (o : Obligation)
      → Memᴰ o e.coverage_open_obligations
        ↔ (Memᴰ o l.coverage_open_obligations ⊎ Memᴰ o r.coverage_open_obligations)
  pub exemptions_old :
      (x : Exemption)
      → Memᴰ x e.coverage_not_applicable
      → Memᴰ x l.coverage_not_applicable ⊎ Memᴰ x r.coverage_not_applicable
  pub exemptions_kept :
      (x : Exemption)
      → Memᴰ x l.coverage_not_applicable ⊎ Memᴰ x r.coverage_not_applicable
      → (y : Exemption) × Memᴰ y e.coverage_not_applicable × (exemption_key y ≡ exemption_key x)
  pub notices_iff : (o : Obligation) → Memᴰ o e.notices ↔ (Memᴰ o l.notices ⊎ Memᴰ o r.notices)
  pub pending_iff :
      (a : String) → (a ∈ e.pending_refs) ↔ ((a ∈ l.pending_refs) ⊎ (a ∈ r.pending_refs))
  pub assumed_iff :
      (a : String) → (a ∈ e.assumed_refs) ↔ ((a ∈ l.assumed_refs) ⊎ (a ∈ r.assumed_refs))
  pub open_spec_iff :
      (a : String) → (a ∈ e.open_spec_refs) ↔ ((a ∈ l.open_spec_refs) ⊎ (a ∈ r.open_spec_refs))
  pub formal_iff :
      (a : String)
      → (a ∈ e.formal_assumption_refs)
        ↔ ((a ∈ l.formal_assumption_refs) ⊎ (a ∈ r.formal_assumption_refs))
  pub tcb_iff : (a : String) → (a ∈ e.tcb_refs) ↔ ((a ∈ l.tcb_refs) ⊎ (a ∈ r.tcb_refs))

obligation_ext : (a b : Obligation) → obligation_key a ≡ obligation_key b → a ≡ b
obligation_ext a b e = ap (λ (p : String × String). record_of p) e
  where
    record_of : String × String → Obligation
    record_of (code, detail) = record { code = code; detail = detail }

merge_obligations-mem :
    (xs ys : List Obligation) (o : Obligation)
    → Memᴰ o (merge_obligations xs ys) ↔ (Memᴰ o xs ⊎ Memᴰ o ys)
unfolding merge_obligations
merge_obligations-mem xs ys o = (
  merge_by-old obligation_key xs ys o,
  λ d.
      let (b, i, e) = merge_by-key obligation_key xs ys o d in
      subst (λ x. Memᴰ x (merge_obligations xs ys)) (obligation_ext b o e) i,
)

merge_bodies-Combines :
    (l r : EnvelopeBody) (spec implementation run_check : String)
    → other_scope l r ≡ false
    → Weakest spec_order l.spec r.spec spec
    → Weakest implementation_order l.implementation r.implementation implementation
    → Weakest run_check_order l.run_check r.run_check run_check
    → Combines l r (merge_bodies l r spec implementation run_check)
unfolding merge_bodies other_scope merge_exemptions
merge_bodies-Combines l r spec implementation run_check scope s i c = record {
  same_request =
      (string_key.beq_iff l.scope_request_ref r.scope_request_ref).0 (ground (arith, scope));
  same_profile = (string_key.beq_iff l.scope_profile r.scope_profile).0 (ground (arith, scope));
  spec_is = s;
  implementation_is = i;
  run_check_is = c;
  obligations_iff = merge_obligations-mem l.coverage_open_obligations r.coverage_open_obligations;
  exemptions_old = merge_by-old exemption_key l.coverage_not_applicable r.coverage_not_applicable;
  exemptions_kept = merge_by-key exemption_key l.coverage_not_applicable r.coverage_not_applicable;
  notices_iff = merge_obligations-mem l.notices r.notices;
  pending_iff = λ a. mem-merge_refs a l.pending_refs r.pending_refs;
  assumed_iff = λ a. mem-merge_refs a l.assumed_refs r.assumed_refs;
  open_spec_iff = λ a. mem-merge_refs a l.open_spec_refs r.open_spec_refs;
  formal_iff = λ a. mem-merge_refs a l.formal_assumption_refs r.formal_assumption_refs;
  tcb_iff = λ a. mem-merge_refs a l.tcb_refs r.tcb_refs;
}

validate-same : (b v : EnvelopeBody) → validate b ≡ ok v → b ≡ v
unfolding validate
validate-same b v h =
    let (_, h1) = reject-then (not (has b.scope_profile semantic_profiles)) enum_value _ h in
    let (_, h2) = reject-then (not (has b.spec spec_order)) enum_value _ h1 in
    let (_, h3) = reject-then (not (has b.implementation implementation_order)) enum_value _ h2 in
    let (_, h4) = reject-then (not (has b.run_check run_check_order)) enum_value _ h3 in
    let (_, h5) =
      reject-then (string_key.beq b.implementation "kernelVerified" && is_empty b.tcb_refs)
        type_authority _ h4 in
    ok-injective h5

combine_bodies-Combines : (l r e : EnvelopeBody) → combine_bodies l r ≡ ok e → Combines l r e
unfolding combine_bodies
combine_bodies-Combines l r e h =
    let (scope, h1) = reject-then (other_scope l r) scope_differs _ h in
    let (implementation, i, h2) =
      >>=-eq-ok (dominate (l.implementation ∷ r.implementation ∷ []) implementation_order) _ h1 in
    let (_, h3) =
      reject-then
        (string_key.beq implementation "kernelVerified"
          && is_empty (merge_refs l.tcb_refs r.tcb_refs))
        upgrade _ h2 in
    let (spec, s, h4) = >>=-eq-ok (dominate (l.spec ∷ r.spec ∷ []) spec_order) _ h3 in
    let (run_check, c, last) =
      >>=-eq-ok (dominate (l.run_check ∷ r.run_check ∷ []) run_check_order) _ h4 in
    subst (λ x. Combines l r x) (ok-injective last)
      (merge_bodies-Combines l r spec implementation run_check scope (dominate-Weakest _ _ _ _ s)
        (dominate-Weakest _ _ _ _ i) (dominate-Weakest _ _ _ _ c))

module _ (digest_value : EnvelopeBody → String) where
  -- Envelopes that combine are of one scope. In the result each of the three statuses is the weaker
  -- one of the two, obligations, notices and references are the unions, every exemption is one of the
  -- two envelopes' and every exempted obligation stays exempted for the same reason; and the digest is
  -- that of the result's fields.
  pub combine_assurance-Combines :
      (left right e : Envelope)
      → combine_assurance digest_value left right ≡ ok e
      → Combines left.body right.body e.body × (e.assurance_digest ≡ digest_value e.body)
  unfolding combine_assurance issue
  combine_assurance-Combines left right e h =
      let (b, combined, h1) = >>=-eq-ok (combine_bodies left.body right.body) _ h in
      let (v, valid, last) = >>=-eq-ok (validate b) _ h1 in
      subst (λ x. Combines left.body right.body x.body × (x.assurance_digest ≡ digest_value x.body))
        (ok-injective last)
        (
          subst (λ x. Combines left.body right.body x) (validate-same b v valid)
              (combine_bodies-Combines left.body right.body b combined),
          refl,
        )
