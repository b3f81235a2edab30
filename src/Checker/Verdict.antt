-- ===== src/Checker/Verdict.antt =====
-- The verdict of `check_grounded`.
use juris_calculus.Prelude.{
  Key, ◌≡◌, refl, ap, ap₂, ◌↔◌, true, false, List, [], ◌∷◌, ◌++◌, Option, none, some, arith, String,
  map, Option-cases, is_empty, ◌∈◌, keys, lookup, inl, inr, append-eq-nil, pair_key, if◌then◌else◌,
}
use juris_calculus.Grounded.{grounded_extension}
use juris_calculus.Checker.{
  Label, accepted_label, rejected_label, undecided_label, Violation, no_theorem_refs, SerializedAaf,
  AttackEntry, edge, malformed, assign_label, compare_labels, check_recomputed, check_grounded,
  finish_check, reject_check, claim_ids, attack_pairs, malformed_entries,
}
use juris_calculus.Checker.Sound.{
  kernel_label_lem, compare_labels_at, compare_labels_of, is_empty-nil,
}

-- The JSON object of a framework.
abbrev pub serialize {ℓ} : {A : Type ℓ} → List A → List (A × A) → SerializedAaf A
serialize claims attacks = record {
  claims = some (map some claims);
  attacks = some (map (λ p. edge p.0 p.1) attacks);
}

claim_ids-map {ℓ} : {A : Type ℓ} (claims : List A) → claim_ids (map some claims) ≡ some claims
unfolding claim_ids
claim_ids-map [] = refl
claim_ids-map (c ∷ cs) = rw (claim_ids-map cs)

not_some {ℓ} : {A : Type ℓ} {a : A} → ¬ (none ≡ some a)
not_some h = cc

claim_ids_inverse {ℓ} :
    {A : Type ℓ} (raw : List (Option A)) (claims : List A)
    → claim_ids raw ≡ some claims
    → raw ≡ map some claims
unfolding claim_ids
claim_ids_inverse [] [] h = refl
claim_ids_inverse [] (c ∷ cs) h = cc
claim_ids_inverse (none ∷ rest) claims h = cc
claim_ids_inverse (some c ∷ rest) claims h = elim (Option-cases (claim_ids rest)) [
  | inl none_left ↦ absurd (not_some (rw none_left at h))
  | inr (cs, e) ↦
      let whole : some (c ∷ cs) ≡ some claims = rw e at h in
      let same : c ∷ cs ≡ claims = cc whole in
      rw (← same) (ap (λ r. some c ∷ r) (claim_ids_inverse rest cs e))
]

entries_inverse {ℓ} :
    {A : Type ℓ} (raw : List (AttackEntry A))
    → malformed_entries raw ≡ []
    → raw ≡ map (λ p. edge p.0 p.1) (attack_pairs raw)
unfolding malformed_entries attack_pairs
entries_inverse [] h = refl
entries_inverse (edge a b ∷ rest) h = ap (λ r. edge a b ∷ r) (entries_inverse rest h)
entries_inverse (malformed ∷ rest) h = cc

entries-map {ℓ} :
    {A : Type ℓ} (attacks : List (A × A))
    → let raw = map (λ (p : A × A). edge p.0 p.1) attacks in
      (malformed_entries raw ≡ []) × (attack_pairs raw ≡ attacks)
unfolding malformed_entries attack_pairs
entries-map [] = (refl, refl)
entries-map ((a, b) ∷ rest) = let (e, f) = entries-map rest in (e, ap (λ r. (a, b) ∷ r) f)

module _ {ℓ} {A : Type ℓ} ⦃k : Key A⦄ where
  -- The claimed labels are those of the grounded extension, and label nothing else.
  pub record IsGroundedLabelling (claims : List A) (attacks : List (A × A))
      (claimed : List (A × Label)) : Type ℓ where
    pub in_iff :
        (c : A)
        → c ∈ claims
        → (lookup c claimed ≡ some accepted_label)
          ↔ (c ∈ (grounded_extension claims attacks none).accepted)
    pub out_iff :
        (c : A)
        → c ∈ claims
        → (lookup c claimed ≡ some rejected_label)
          ↔ (c ∈ (grounded_extension claims attacks none).rejected)
    pub undec_iff :
        (c : A)
        → c ∈ claims
        → (lookup c claimed ≡ some undecided_label)
          ↔ (c ∈ (grounded_extension claims attacks none).undecided)
    pub nothing_else : (c : A) → c ∈ keys claimed → c ∈ claims

  pub record IsAccepted (serialized : Option (SerializedAaf A)) (claimed : List (A × Label))
      (refs : List String) : Type ℓ where
    pub claims : List A
    pub attacks : List (A × A)
    pub decoded : serialized ≡ some (serialize claims attacks)
    pub backed : is_empty refs ≡ false
    pub labelled : IsGroundedLabelling claims attacks claimed

  labelling_of :
      (claims : List A) (attacks : List (A × A)) (claimed : List (A × Label))
      → compare_labels claims attacks claimed ≡ []
      → IsGroundedLabelling claims attacks claimed
  labelling_of claims attacks claimed h =
      let (known, covered) = compare_labels_at claims attacks claimed h in
      record {
        in_iff = λ c m. ground (arith, known c m, kernel_label_lem claims attacks c m);
        out_iff = λ c m. ground (arith, known c m, kernel_label_lem claims attacks c m);
        undec_iff = λ c m. ground (arith, known c m, kernel_label_lem claims attacks c m);
        nothing_else = covered;
      }

  labelling_to :
      (claims : List A) (attacks : List (A × A)) (claimed : List (A × Label))
      → IsGroundedLabelling claims attacks claimed
      → compare_labels claims attacks claimed ≡ []
  unfolding assign_label
  labelling_to claims attacks claimed v =
      compare_labels_of claims attacks claimed
        (λ c m. ground (
          arith,
          v.in_iff c m,
          v.out_iff c m,
          v.undec_iff c m,
          kernel_label_lem claims attacks c m,
        ))
        v.nothing_else

  check_found : (found : List (Violation A)) → (finish_check found).valid ≡ true → found ≡ []
  unfolding finish_check
  check_found found h = is_empty-nil found h

  start_of : List String → List (Violation A)
  start_of refs = if is_empty refs then no_theorem_refs ∷ [] else []

  start_nil : (refs : List String) → start_of refs ≡ [] → is_empty refs ≡ false
  unfolding start_of
  start_nil [] h = cc
  start_nil (r ∷ rs) h = refl

  IsAccepted-parsed :
      (claimed : List (A × Label)) (refs : List String) (raw : List (Option A))
      (entries : List (AttackEntry A)) (parsed : Option (List A))
      → claim_ids raw ≡ parsed
      → (check_recomputed
          (start_of refs ++ malformed_entries entries)
          parsed
          (attack_pairs entries)
          claimed).valid
        ≡ true
      → IsAccepted (some (record { claims = some raw; attacks = some entries })) claimed refs
  unfolding check_recomputed reject_check
  IsAccepted-parsed claimed refs raw entries none e h = cc
  IsAccepted-parsed claimed refs raw entries (some claims) e h =
      let (start, compared) =
        append-eq-nil (start_of refs ++ malformed_entries entries) _ (check_found _ h) in
      let (backed, whole) = append-eq-nil (start_of refs) (malformed_entries entries) start in
      record {
        claims = claims;
        attacks = attack_pairs entries;
        decoded =
            ap₂ (λ c t. some (record { claims = some c; attacks = some t }))
              (claim_ids_inverse raw claims e) (entries_inverse entries whole);
        backed = start_nil refs backed;
        labelled = labelling_of claims (attack_pairs entries) claimed compared;
      }

  IsAccepted-of :
      (claimed : List (A × Label)) (refs : List String) (claims : Option (List (Option A)))
      (attacks : Option (List (AttackEntry A)))
      → let aaf : SerializedAaf A = record { claims = claims; attacks = attacks } in
        (check_grounded (some aaf) claimed refs).valid ≡ true → IsAccepted (some aaf) claimed refs
  unfolding check_grounded reject_check start_of
  IsAccepted-of claimed refs none attacks h = cc
  IsAccepted-of claimed refs (some raw) none h = cc
  IsAccepted-of claimed refs (some raw) (some entries) h =
      IsAccepted-parsed claimed refs raw entries (claim_ids raw) refl h

  undecoded :
      (claimed : List (A × Label)) (refs : List String)
      → ¬ ((check_grounded none claimed refs).valid ≡ true)
  unfolding check_grounded reject_check
  undecoded claimed refs h = cc

  clean_valid :
      (claimed : List (A × Label)) (claims : List A) (attacks : List (A × A))
      → IsGroundedLabelling claims attacks claimed
      → (check_recomputed [] (some claims) attacks claimed).valid ≡ true
  unfolding check_recomputed finish_check
  clean_valid claimed claims attacks v = rw (labelling_to claims attacks claimed v) refl

  recomputed_valid :
      (claimed : List (A × Label)) (claims : List A) (attacks pairs : List (A × A))
      (found : List (Violation A)) (parsed : Option (List A))
      → found ≡ []
      → parsed ≡ some claims
      → pairs ≡ attacks
      → IsGroundedLabelling claims attacks claimed
      → (check_recomputed found parsed pairs claimed).valid ≡ true
  recomputed_valid claimed claims attacks pairs found parsed e f g v =
      rw (e, f, g) (clean_valid claimed claims attacks v)

  valid_of :
      (claimed : List (A × Label)) (refs : List String) (claims : List A) (attacks : List (A × A))
      → is_empty refs ≡ false
      → IsGroundedLabelling claims attacks claimed
      → (check_grounded (some (serialize claims attacks)) claimed refs).valid ≡ true
  unfolding check_grounded start_of
  valid_of claimed refs claims attacks backed v =
      let (no_malformed, pairs) = entries-map attacks in
      let raw = map (λ (p : A × A). edge p.0 p.1) attacks in
      let quiet : start_of refs ++ malformed_entries raw ≡ [] = rw (backed, no_malformed) refl in
      recomputed_valid claimed claims attacks (attack_pairs raw) _ (claim_ids (map some claims))
        quiet (claim_ids-map claims) pairs v

  -- The checker accepts exactly a decoded framework, backed by at least one theorem reference, with
  -- claimed labels that are those of the kernel's grounded extension on every argument and that
  -- label nothing outside the framework.
  pub check_grounded-IsAccepted :
      (serialized : Option (SerializedAaf A)) (claimed : List (A × Label)) (refs : List String)
      → ((check_grounded serialized claimed refs).valid ≡ true) ↔ IsAccepted serialized claimed refs
  check_grounded-IsAccepted serialized claimed refs = (accepts serialized, valid)
    where
      accepts :
          (s : Option (SerializedAaf A))
          → (check_grounded s claimed refs).valid ≡ true
          → IsAccepted s claimed refs
      accepts none h = absurd (undecoded claimed refs h)
      accepts (some aaf) h = IsAccepted-of claimed refs aaf.claims aaf.attacks h

      valid :
          IsAccepted serialized claimed refs → (check_grounded serialized claimed refs).valid ≡ true
      valid v = rw v.decoded (valid_of claimed refs v.claims v.attacks v.backed v.labelled)
