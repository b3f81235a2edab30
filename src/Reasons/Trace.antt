-- ===== src/Reasons/Trace.antt =====
-- `proof_trace` of compiler_core/argumentation.py, over given strongly connected components: the
-- rounds of the fixed point, replayed.
use juris_calculus.Prelude.{
  Key, inl, inr, set_eq_at, ℕ, zero, suc, ◌+◌, ◌≡◌, refl, ◌↔◌, Bool, true, Bool-cases, Option, none,
  some, List, [], ◌∷◌, length, dedup, sort, set_eq, if◌then◌else◌, has-sort, ◌∈◌, pair_key,
}
use juris_calculus.Grounded.{
  GroundedResult, grounded_extension, attackers_of, defended_by, iterate, iteration_limit,
}
use juris_calculus.Grounded.Result.{grounded_extension-convergent}
use juris_calculus.Reasons.{LabelReason, label_reasons, find_cycles}

pub record Round {ℓ} (A : Type ℓ) : Type ℓ where
  pub iteration : ℕ
  pub accepted : List A
  pub defended : List A

pub record ProofTrace {ℓ} (A : Type ℓ) : Type ℓ where
  pub sccs : List (List A)
  pub cycles : List (List A)
  pub iteration_history : List (Round A)
  pub labels : List (A × LabelReason A)
  pub convergent : Bool
  pub accepted : List A
  pub rejected : List A
  pub undecided : List A

module _ {ℓ} {A : Type ℓ} ⦃k : Key A⦄ where
  -- The loop, with the rounds that `derived_bound` leaves.
  unfoldable pub replay : (A → List A) → List A → ℕ → ℕ → List A → List (Round A)
  replay atk cids zero iteration accepted = []
  replay atk cids (suc rounds) iteration accepted =
      let defended = defended_by atk cids accepted in
      let round : Round A = record {
        iteration = iteration + 1;
        accepted = sort accepted;
        defended = sort defended;
      } in
      let rest = replay atk cids rounds (iteration + 1) defended in
      if set_eq defended accepted then round ∷ [] else round ∷ rest

  unfoldable pub given_or_grounded :
      List A → List (A × A) → Option (GroundedResult A) → GroundedResult A
  given_or_grounded claims attacks none = grounded_extension claims attacks none
  given_or_grounded claims attacks (some result) = result

  unfoldable pub proof_trace :
      List A → List (A × A) → Option (GroundedResult A) → List (List A) → ProofTrace A
  proof_trace claims attacks given sccs =
      let result = given_or_grounded claims attacks given in
      let cids = dedup claims in
      record {
        sccs = sccs;
        cycles = find_cycles attacks sccs;
        iteration_history = replay (attackers_of cids attacks) cids result.derived_bound 0 [];
        labels = label_reasons claims attacks result sccs;
        convergent = result.convergent;
        accepted = result.accepted;
        rejected = result.rejected;
        undecided = result.undecided;
      }

unfoldable pub last {ℓ} : {A : Type ℓ} → List A → Option A
last [] = none
last (x ∷ []) = some x
last (x ∷ y ∷ rest) = last (y ∷ rest)

last-cons {ℓ} :
    {A : Type ℓ} (x r : A) (rest : List A) → last rest ≡ some r → last (x ∷ rest) ≡ some r
unfolding last
last-cons x r [] h = cc
last-cons x r (y ∷ rest) h = h

module _ {ℓ} {A : Type ℓ} ⦃k : Key A⦄ (atk : A → List A) (cids : List A) where
  -- The last round of a replay, beside the end of the loop that it replays.
  record Closes (r : Round A) (accepted : List A) (iteration : ℕ) : Type ℓ where
    accepted_is : r.accepted ≡ sort accepted
    iteration_is : r.iteration ≡ iteration
    fixed : (a : A) → (a ∈ r.defended) ↔ (a ∈ r.accepted)

  replay-last :
      (rounds iteration : ℕ) (accepted : List A)
      → (iterate atk cids rounds iteration accepted).convergent ≡ true
      → (r : Round A) × (last (replay atk cids rounds iteration accepted) ≡ some r)
        × Closes r
            (iterate atk cids rounds iteration accepted).accepted
            (iterate atk cids rounds iteration accepted).iteration
  unfolding replay iterate last
  replay-last zero iteration accepted h = cc
  replay-last (suc rounds) iteration accepted h =
      let defended = defended_by atk cids accepted in
      let round : Round A = record {
        iteration = iteration + 1;
        accepted = sort accepted;
        defended = sort defended;
      } in
      elim (Bool-cases (set_eq defended accepted)) [
        | inl stop ↦
            let (to, from) = set_eq_at defended accepted stop in
            (
              round,
              rw stop refl,
              rw stop (record {
                accepted_is = refl;
                iteration_is = refl;
                fixed = λ a. (
                  λ m. rw has-sort (to a (rw has-sort at m)),
                  λ m. rw has-sort (from a (rw has-sort at m)),
                );
              }),
            )
        | inr go ↦
            let (r, found, ends) = replay-last rounds (iteration + 1) defended (rw go at h) in
            (
              r,
              rw go (last-cons round r (replay atk cids rounds (iteration + 1) defended) found),
              rw go ends,
            )
      ]

-- With no result given the replayed history has a last round, the one with the number of iterations
-- of the grounded extension: it starts from the accepted set that the trace reports, and what that set
-- defends is the set itself.
pub proof_trace-last {ℓ} :
    {A : Type ℓ} ⦃k : Key A⦄ (claims : List A) (attacks : List (A × A)) (sccs : List (List A))
    → (r : Round A) × (last (proof_trace claims attacks none sccs).iteration_history ≡ some r)
      × (r.accepted ≡ (proof_trace claims attacks none sccs).accepted)
      × (r.iteration ≡ (grounded_extension claims attacks none).iterations)
      × ((a : A) → (a ∈ r.defended) ↔ (a ∈ r.accepted))
unfolding proof_trace given_or_grounded grounded_extension iteration_limit
proof_trace-last claims attacks sccs =
    let cids = dedup claims in
    let (r, found, ends) =
      replay-last (attackers_of cids attacks) cids (length cids + 1) 0 []
        (grounded_extension-convergent claims attacks).0 in
    (r, found, ends.accepted_is, ends.iteration_is, ends.fixed)
