-- ===== src/Grounded.antt =====
-- The grounded extension: compiler_core/argumentation.py, `grounded_extension`.
-- A claim is read only for its "id", so a list of claims is the list of their identifiers; a set is
-- a list of members, and the dictionary `attackers_of` is a function (an absent key is the empty
-- set, as `.get(cid, set())` reads it). The loop recurs on the rounds that `max_iter` leaves.
pub mod Step
pub mod Loop
pub mod Result
pub mod Labels
pub mod Labelling
use juris_calculus.Prelude.{
  Key, ℕ, zero, suc, ◌+◌, Bool, true, false, not, ◌&&◌, List, [], ◌∷◌, Option, none, some,
  if◌then◌else◌, ltb, leb, length, is_empty, filter, all, has, add, dedup, set_eq, meets, diff,
  sort,
}

-- The state in which the `while` loop is left.
pub record Fixpoint {ℓ} (A : Type ℓ) : Type ℓ where
  pub accepted : List A
  pub iteration : ℕ
  pub convergent : Bool

pub record GroundedResult {ℓ} (A : Type ℓ) : Type ℓ where
  pub accepted : List A
  pub rejected : List A
  pub undecided : List A
  pub iterations : ℕ
  pub derived_bound : ℕ
  pub convergent : Bool
  pub truncated : Bool

unfoldable pub iteration_limit : Option ℕ → ℕ → ℕ
iteration_limit none derived_bound = derived_bound
iteration_limit (some m) derived_bound = if ltb m 1 then 1 else m

module _ {ℓ} {A : Type ℓ} ⦃k : Key A⦄ where
  -- `attackers_of.setdefault(tgt, set()).add(src)` for each attack between known arguments.
  unfoldable pub attackers_of : List A → List (A × A) → A → List A
  attackers_of cids [] t = []
  attackers_of cids ((src, tgt) ∷ rest) t =
      let more = attackers_of cids rest t in
      if has src cids && has tgt cids && k.beq tgt t then add src more else more

  -- One argument in one round: all its attackers are attacked by `accepted`.
  unfoldable pub is_defended : (A → List A) → List A → A → Bool
  is_defended atk accepted cid =
      if is_empty (atk cid) then true else all (λ a. meets (atk a) accepted) (atk cid)

  unfoldable pub defended_by : (A → List A) → List A → List A → List A
  defended_by atk cids accepted = filter (is_defended atk accepted) cids

  unfoldable pub iterate : (A → List A) → List A → ℕ → ℕ → List A → Fixpoint A
  iterate atk cids zero iteration accepted = record {
    accepted = accepted;
    iteration = iteration;
    convergent = false;
  }
  iterate atk cids (suc rounds) iteration accepted =
      let defended = defended_by atk cids accepted in
      let rest = iterate atk cids rounds (iteration + 1) defended in
      if set_eq defended accepted
      then record { accepted = accepted; iteration = iteration + 1; convergent = true }
      else rest

  unfoldable pub rejected_of : (A → List A) → List A → List A → List A
  rejected_of atk cids accepted =
      filter (λ cid. if has cid accepted then false else meets (atk cid) accepted) cids

  unfoldable pub grounded_extension : List A → List (A × A) → Option ℕ → GroundedResult A
  grounded_extension claims attacks max_iter =
      let cids = dedup claims in
      let derived_bound = length cids + 1 in
      let limit = iteration_limit max_iter derived_bound in
      let atk = attackers_of cids attacks in
      let run = iterate atk cids limit 0 [] in
      let rejected = rejected_of atk cids run.accepted in
      record {
        accepted = sort run.accepted;
        rejected = sort rejected;
        undecided = sort (diff (diff cids run.accepted) rejected);
        iterations = run.iteration;
        derived_bound = derived_bound;
        convergent = run.convergent;
        truncated = not run.convergent && leb limit run.iteration;
      }
