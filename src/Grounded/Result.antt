-- ===== src/Grounded/Result.antt =====
-- The extension that `grounded_extension` returns, in Dung's terms.
use juris_calculus.Prelude.{
  Key, ℕ, ◌+◌, ◌≤◌, ◌≡◌, true, false, not, List, [], Option, none, some, arith, length, ◌∈◌, ◌⊆◌,
  dedup, mem-dedup, has-sort, set_eq_at, ltb, max, if◌then◌else◌, pair_key,
}
use juris_calculus.Dung.{IsAdmissible, IsComplete, IsGrounded, IsAdmissible-ext, IsGrounded-ext}
use juris_calculus.Grounded.{
  GroundedResult, attackers_of, defended_by, iterate, iteration_limit, grounded_extension,
}
use juris_calculus.Grounded.Step.{Attacks, mem-attackers_of, mem-attackers_of_of}
use juris_calculus.Grounded.Loop.{
  Inv, defended_at, defended_of, iterate-fixed, iterate_rounds, iterate-convergent_nil,
  iterate-Inv_nil,
}

module _ {ℓ} {A : Type ℓ} ⦃k : Key A⦄ (claims : List A) (attacks : List (A × A)) where
  abbrev result : Option ℕ → GroundedResult A
  result = grounded_extension claims attacks

  -- With no bound given the loop ends by its test, within the derived bound of one round more than
  -- there are distinct arguments, and the result is not marked as truncated.
  pub grounded_extension-convergent :
      ((result none).convergent ≡ true)
      × ((result none).truncated ≡ false)
      × ((result none).iterations ≤ (result none).derived_bound)
  unfolding grounded_extension iteration_limit
  grounded_extension-convergent =
      let cids = dedup claims in
      let atk = attackers_of cids attacks in
      let ends = iterate-convergent_nil atk cids 0 in
      let rounds = iterate_rounds atk cids (length cids + 1) 0 [] in
      (ends, rw ends, omega (arith, rounds.0))

  -- With a bound given, the result is marked truncated exactly when it did not converge, and then
  -- the loop has spent the bound (at least one round).
  pub grounded_extension-truncated :
      (m : ℕ)
      → ((result (some m)).truncated ≡ not (result (some m)).convergent)
        × ((result (some m)).truncated ≡ true → (result (some m)).iterations ≡ max 1 m)
  unfolding grounded_extension iteration_limit
  grounded_extension-truncated m =
      let cids = dedup claims in
      let atk = attackers_of cids attacks in
      let (bound, spent) = iterate_rounds atk cids (if ltb m 1 then 1 else m) 0 [] in ground arith

  -- A run, seen in the caller's terms.
  module _ (s : List A) where
    abbrev cids : List A
    cids = dedup claims

    abbrev atk : A → List A
    atk = attackers_of cids attacks

    abbrev Hits : A → A → Type 0
    Hits = Attacks claims attacks

    hit_of : (a b : A) → a ∈ atk b → Hits a b
    hit_of a b h =
        let (m, i, j) = mem-attackers_of cids attacks a b h in
        (m, (mem-dedup a claims).0 i, (mem-dedup b claims).0 j)

    of_hit : (a b : A) → Hits a b → a ∈ atk b
    of_hit a b (m, i, j) =
        mem-attackers_of_of cids attacks a b (m, (mem-dedup a claims).1 i, (mem-dedup b claims).1 j)

    IsAdmissible-of : Inv atk cids s → IsAdmissible claims Hits s
    IsAdmissible-of v = record {
      within = λ a h. (mem-dedup a claims).0 (v.within a h);
      conflict_free = λ a b i j h. v.free a b i j (of_hit a b h);
      defended = λ c h a _ hit.
          let (d, i, j) = defended_at atk cids s c a (v.kept c h) (of_hit a c hit) in
          (d, j, hit_of d a i);
    }

    below_complete : Inv atk cids s → (t : List A) → IsComplete claims Hits t → s ⊆ t
    below_complete v t comp = v.least t λ c m f.
        comp.closed c ((mem-dedup c claims).0 m)
          λ a _ hit. let (d, i, j) = f a (of_hit a c hit) in (d, j, hit_of d a i)

    pub IsGrounded-of : Inv atk cids s → defended_by atk cids s ⊆ s → IsGrounded claims Hits s
    IsGrounded-of v fixed = record {
      complete = record {
        admissible = IsAdmissible-of v;
        closed = λ c m f. fixed c (
            defended_of atk cids s c ((mem-dedup c claims).1 m) λ a h.
              let hit = hit_of a c h in let (d, i, j) = f a hit.1 hit in (d, of_hit d a j, i));
      };
      least = below_complete v;
    }

  abbrev pub Graph : A → A → Type 0
  Graph = Attacks claims attacks

  -- Whatever the bound, the accepted set is admissible and lies inside every complete extension.
  pub grounded_extension-IsAdmissible :
      (bound : Option ℕ)
      → IsAdmissible claims Graph (result bound).accepted
        × ((t : List A) → IsComplete claims Graph t → (result bound).accepted ⊆ t)
  unfolding grounded_extension
  grounded_extension-IsAdmissible bound =
      let args = dedup claims in
      let run =
        iterate (attackers_of args attacks) args (iteration_limit bound (length args + 1)) 0 [] in
      let v =
        iterate-Inv_nil (attackers_of args attacks) args (iteration_limit bound (length args + 1))
          0 in
      (
        IsAdmissible-ext (λ a h. rw has-sort h) (λ a h. rw has-sort at h)
            (IsAdmissible-of run.accepted v),
        λ t comp a h. below_complete run.accepted v t comp a (rw has-sort at h),
      )

  -- A run that converges accepts the grounded extension: the least complete one.
  pub accepted-IsGrounded :
      (bound : Option ℕ)
      → (result bound).convergent ≡ true
      → IsGrounded claims Graph (result bound).accepted
  unfolding grounded_extension
  accepted-IsGrounded bound ends =
      let args = dedup claims in
      let atks = attackers_of args attacks in
      let limit = iteration_limit bound (length args + 1) in
      let run = iterate atks args limit 0 [] in
      let fixed = set_eq_at _ _ (iterate-fixed atks args limit 0 [] ends) in
      IsGrounded-ext (λ a h. rw has-sort h) (λ a h. rw has-sort at h)
        (IsGrounded-of run.accepted (iterate-Inv_nil atks args limit 0) fixed.0)
