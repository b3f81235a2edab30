-- ===== src/Assurance/Total.antt =====
-- When `combine_assurance_v5` returns.
use juris_calculus.Prelude.{
  ◌≡◌, refl, sym, subst, ◌∙◌, ◌⊎◌, inl, inr, false, Bool-cases, List, [], ◌∷◌, has, String,
  string_key, ◌∈◌, mem_head, mem_tail, mem_cases, not_mem_nil, is_empty, ok, not_of_false, ◌&&◌,
}
use juris_calculus.Assurance.{
  EnvelopeBody, Envelope, spec_order, implementation_order, run_check_order, semantic_profiles,
  dominate, merge_refs, validate, merge_bodies, other_scope, combine_bodies, issue,
  combine_assurance,
}
use juris_calculus.Assurance.Merge.{mem-merge_refs}
use juris_calculus.Assurance.Combine.{Weakest, at_first, further, dominate-Weakest}

pub record IsAdmitted (b : EnvelopeBody) : Type 0 where
  pub profile_in : b.scope_profile ∈ semantic_profiles
  pub spec_in : b.spec ∈ spec_order
  pub implementation_in : b.implementation ∈ implementation_order
  pub run_check_in : b.run_check ∈ run_check_order
  pub trusted : b.implementation ≡ "kernelVerified" → is_empty b.tcb_refs ≡ false

in_order : (order : List String) (l r v : String) → Weakest order l r v → v ∈ order
in_order _ l r v (at_first order _ _ _ d) = mem_head v order
in_order _ l r v (further order c _ _ _ f g w) = mem_tail v c order (in_order order l r v w)

from_two : (order : List String) (l r v : String) → Weakest order l r v → (v ≡ l) ⊎ (v ≡ r)
from_two _ l r v (at_first order _ _ _ d) = d
from_two _ l r v (further order c _ _ _ f g w) = from_two order l r v w

dominate_total :
    (order : List String) (l r : String)
    → l ∈ order
    → (v : String) × (dominate (l ∷ r ∷ []) order ≡ ok v)
unfolding dominate has
dominate_total [] l r m = absurd (not_mem_nil l m)
dominate_total (c ∷ order) l r m = elim (Bool-cases (has c (l ∷ r ∷ []))) [
  | inl here ↦ (c, rw here refl)
  | inr absent_here ↦
      let (v, e) = dominate_total order l r (elim (mem_cases l c order m) [
        | inl same ↦
            absurd
              (not_of_false absent_here (subst (λ x. x ∈ (l ∷ r ∷ [])) same (mem_head l (r ∷ []))))
        | inr later ↦ later
      ]) in
      (v, rw absent_here e)
]

some_of_nonempty : (xs : List String) → is_empty xs ≡ false → (a : String) × (a ∈ xs)
some_of_nonempty [] h = cc
some_of_nonempty (x ∷ xs) h = (x, mem_head x xs)

nonempty_of_mem : (a : String) (xs : List String) → a ∈ xs → is_empty xs ≡ false
nonempty_of_mem a [] m = absurd (not_mem_nil a m)
nonempty_of_mem a (x ∷ xs) m = refl

merge_refs-nonempty :
    (xs ys : List String)
    → (is_empty xs ≡ false) ⊎ (is_empty ys ≡ false)
    → is_empty (merge_refs xs ys) ≡ false
merge_refs-nonempty xs ys (inl h) =
    let (a, m) = some_of_nonempty xs h in
    nonempty_of_mem a (merge_refs xs ys) ((mem-merge_refs a xs ys).1 (inl m))
merge_refs-nonempty xs ys (inr h) =
    let (a, m) = some_of_nonempty ys h in
    nonempty_of_mem a (merge_refs xs ys) ((mem-merge_refs a xs ys).1 (inr m))

-- The test of a kernel verification without a trusted base.
untrusted :
    (implementation : String) (refs : List String)
    → (implementation ≡ "kernelVerified" → is_empty refs ≡ false)
    → (string_key.beq implementation "kernelVerified" && is_empty refs) ≡ false
untrusted implementation refs trust =
    elim (Bool-cases (string_key.beq implementation "kernelVerified")) [
      | inl kernel ↦
          rw (kernel, trust ((string_key.beq_iff implementation "kernelVerified").0 kernel)) refl
      | inr weaker ↦ rw weaker refl
    ]

validate_admitted : (b : EnvelopeBody) → IsAdmitted b → validate b ≡ ok b
unfolding validate
validate_admitted b v =
    rw
      (
        v.profile_in,
        v.spec_in,
        v.implementation_in,
        v.run_check_in,
        untrusted b.implementation b.tcb_refs v.trusted,
      )
      refl

one_scope :
    (l r : EnvelopeBody)
    → l.scope_request_ref ≡ r.scope_request_ref
    → l.scope_profile ≡ r.scope_profile
    → other_scope l r ≡ false
unfolding other_scope
one_scope l r request profile =
    rw
      (
        (string_key.beq_iff l.scope_request_ref r.scope_request_ref).1 request,
        (string_key.beq_iff l.scope_profile r.scope_profile).1 profile,
      )
      refl

merged-IsAdmitted :
    (l r : EnvelopeBody) (spec implementation run_check : String)
    → l.scope_profile ∈ semantic_profiles
    → spec ∈ spec_order
    → implementation ∈ implementation_order
    → run_check ∈ run_check_order
    → (implementation ≡ "kernelVerified" → is_empty (merge_refs l.tcb_refs r.tcb_refs) ≡ false)
    → IsAdmitted (merge_bodies l r spec implementation run_check)
unfolding merge_bodies
merged-IsAdmitted l r spec implementation run_check p s i c trust = record {
  profile_in = p;
  spec_in = s;
  implementation_in = i;
  run_check_in = c;
  trusted = trust;
}

-- Two admitted envelopes of one scope always combine: neither the failure for a status outside its
-- order nor the one for a kernel verification without a trusted base is reached, and the result passes
-- the envelope's own validation.
pub combine_assurance_total :
    (digest_value : EnvelopeBody → String) (left right : Envelope)
    → IsAdmitted left.body
    → IsAdmitted right.body
    → left.body.scope_request_ref ≡ right.body.scope_request_ref
    → left.body.scope_profile ≡ right.body.scope_profile
    → (e : Envelope) × (combine_assurance digest_value left right ≡ ok e) × IsAdmitted e.body
unfolding combine_assurance combine_bodies issue
combine_assurance_total digest_value left right vl vr same_request same_profile =
    let l = left.body in
    let r = right.body in
    let (i, ei) =
      dominate_total implementation_order l.implementation r.implementation vl.implementation_in in
    let (s, es) = dominate_total spec_order l.spec r.spec vl.spec_in in
    let (c, ec) = dominate_total run_check_order l.run_check r.run_check vl.run_check_in in
    let wi = dominate-Weakest implementation_order l.implementation r.implementation i ei in
    let trust : i ≡ "kernelVerified" → is_empty (merge_refs l.tcb_refs r.tcb_refs) ≡ false =
      λ kernel.
        merge_refs-nonempty l.tcb_refs r.tcb_refs
          (elim (from_two implementation_order l.implementation r.implementation i wi) [
            | inl from ↦ inl (vl.trusted (sym from ∙ kernel))
            | inr from ↦ inr (vr.trusted (sym from ∙ kernel))
          ]) in
    let merged = merge_bodies l r s i c in
    let v : IsAdmitted merged =
      merged-IsAdmitted l r s i c vl.profile_in
        (in_order spec_order l.spec r.spec s (dominate-Weakest spec_order l.spec r.spec s es))
        (in_order implementation_order l.implementation r.implementation i wi)
        (in_order run_check_order l.run_check r.run_check c
          (dominate-Weakest run_check_order l.run_check r.run_check c ec))
        trust in
    let combined : combine_bodies l r ≡ ok merged =
      rw (one_scope l r same_request same_profile, ei, untrusted i _ trust, es, ec) refl in
    (
      record { body = merged; assurance_digest = digest_value merged },
      rw (combined, validate_admitted merged v) refl,
      v,
    )
