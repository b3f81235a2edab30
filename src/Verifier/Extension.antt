-- ===== src/Verifier/Extension.antt =====
-- `_v5_independent_extension` on the enumerated profiles, against Dung's notions.
use juris_calculus.Prelude.{
  Key, ◌^◌, ◌≡◌, refl, ◌↔◌, Bool, true, not, ◌&&◌, ◌++◌, List, arith, Bool-cases, and-right,
  false_of_not, not_of_false, all, any, has, ◌⊆◌, diff, length, sort, has-sort, mem-diff,
  mem-diff_of, all_at, all_of, any_at, any_of, mem-filter, mem-filter_of, filter, set_eq, set_eq_at,
  set_eq_of, mem-append, mem-append_left, mem-append_right, any_of_Elem, Elem_of_any, pair_key, inl,
  inr,
}
use juris_calculus.Dung.{IsAdmissible, IsStable, IsComplete, IsPreferred, IsAdmissible-ext}
use juris_calculus.Grounded.Step.{Attacks}
use juris_calculus.Profile.{stable, complete, preferred, subsets}
use juris_calculus.Profile.Subsets.{filter-Memᴰ-subsets}
use juris_calculus.Verifier.{
  adjacent_attackers, is_conflict_free, is_admissible_by, characteristic_by, enumerated_extension,
  is_maximal_by,
}
use juris_calculus.Verifier.Decides.{
  free_at, free_of, is_admissible_by_at, is_admissible_by_of, mem-characteristic_by,
}

module _ {ℓ} {A : Type ℓ} ⦃k : Key A⦄ (args : List A) (defeats : List (A × A)) (s : List A) where
  abbrev atk : A → List A
  atk = adjacent_attackers args defeats

  abbrev Hits : A → A → Type 0
  Hits = Attacks args defeats

  pub stable_extension :
      s ⊆ args → (enumerated_extension stable atk args defeats s ≡ true) ↔ IsStable args Hits s
  unfolding enumerated_extension
  stable_extension within = (to, from)
    where
      hits : A → Bool
      hits member = any (λ source. has (source, member) defeats) s

      to : enumerated_extension stable atk args defeats s ≡ true → IsStable args Hits s
      to e =
          let free : is_conflict_free defeats s ≡ true = ground (arith, e) in
          let rest : all hits (diff args s) ≡ true = ground (arith, e) in
          record {
            within = within;
            conflict_free = free_at args defeats s free;
            attacks_rest = λ c m out.
                let (d, i, n) =
                  any_at (λ source. has (source, c) defeats) s
                    (all_at hits (diff args s) c rest
                      (mem-diff_of c args s m (false_of_not out))) in
                (d, i, (n, within d i, m));
          }

      from : IsStable args Hits s → enumerated_extension stable atk args defeats s ≡ true
      from v = rw (free_of args defeats s within v.conflict_free) (
          all_of hits (diff args s) λ c h.
            let (m, out) = mem-diff c args s h in
            let (d, i, hit) = v.attacks_rest c m (not_of_false out) in
            any_of (λ source. has (source, c) defeats) s d i hit.0)

  pub complete_extension :
      (enumerated_extension complete atk args defeats s ≡ true) ↔ IsComplete args Hits s
  unfolding enumerated_extension
  complete_extension = (to, from)
    where
      to : enumerated_extension complete atk args defeats s ≡ true → IsComplete args Hits s
      to e =
          let admitted : is_admissible_by atk args defeats s ≡ true = ground (arith, e) in
          let fixed : set_eq (characteristic_by atk args s) s ≡ true = ground (arith, e) in
          record {
            admissible = is_admissible_by_at args defeats s admitted;
            closed = λ c m f.
                (set_eq_at _ s fixed).0 c ((mem-characteristic_by args defeats s c).1 (m, f));
          }

      from : IsComplete args Hits s → enumerated_extension complete atk args defeats s ≡ true
      from v =
          let w = v.admissible in
          rw (free_of args defeats s w.within w.conflict_free, is_admissible_by_of args defeats s w)
            (set_eq_of (characteristic_by atk args s) s
              (λ c m. let (i, f) = (mem-characteristic_by args defeats s c).0 m in v.closed c i f)
              (λ c m. (mem-characteristic_by args defeats s c).1 (w.within c m, w.defended c m)))

  abbrev outside : List A
  outside = sort (diff args s)

  abbrev larger : List A → Bool
  larger added = not (set_eq (s ++ added) s) && is_admissible_by atk args defeats (s ++ added)

  maximal_at :
      is_maximal_by atk args defeats s ≡ true
      → (t : List A) → IsAdmissible args Hits t
      → s ⊆ t
      → t ⊆ s
  unfolding is_maximal_by
  maximal_at e t w up =
      let added = filter (λ a. has a t) outside in
      let listed = filter-Memᴰ-subsets (λ a. has a t) outside in
      let down : (s ++ added) ⊆ t = λ a m. elim (mem-append a s added m) [
        | inl i ↦ up a i
        | inr j ↦ (mem-filter (λ x. has x t) outside a j).1
      ] in
      let cover : t ⊆ (s ++ added) = λ a m. elim (Bool-cases (has a s)) [
        | inl i ↦ mem-append_left a s added i
        | inr n ↦ mem-append_right a s added (
            mem-filter_of (λ x. has x t) outside a
              (rw has-sort (mem-diff_of a args s (w.within a m) n)) m)
      ] in
      let admitted =
        is_admissible_by_of args defeats (s ++ added) (IsAdmissible-ext cover down w) in
      elim (Bool-cases (set_eq (s ++ added) s)) [
        | inl same ↦ λ a m. (set_eq_at _ s same).0 a (cover a m)
        | inr differs ↦
            let found : any larger (subsets outside (2 ^ length outside)) ≡ true =
              any_of_Elem larger _ added listed (rw (differs, admitted) refl) in
            absurd (not_of_false (ground (arith, e)) found)
      ]

  maximal_of : IsPreferred args Hits s → is_maximal_by atk args defeats s ≡ true
  unfolding is_maximal_by
  maximal_of v = rw (false_of_not nothing_larger)
    where
      nothing_larger : ¬ (any larger (subsets outside (2 ^ length outside)) ≡ true)
      nothing_larger h =
          let (added, _, e) = Elem_of_any larger _ h in
          let w =
            is_admissible_by_at args defeats (s ++ added)
              (and-right (not (set_eq (s ++ added) s)) _ e) in
          let same =
            set_eq_of (s ++ added) s (v.maximal (s ++ added) w (λ a m. mem-append_left a s added m))
              (λ a m. mem-append_left a s added m) in
          not_of_false (ground (arith, e)) same

  pub preferred_extension :
      (enumerated_extension preferred atk args defeats s ≡ true) ↔ IsPreferred args Hits s
  unfolding enumerated_extension
  preferred_extension = (to, from)
    where
      to : enumerated_extension preferred atk args defeats s ≡ true → IsPreferred args Hits s
      to e =
          let admitted : is_admissible_by atk args defeats s ≡ true = ground (arith, e) in
          let top : is_maximal_by atk args defeats s ≡ true = ground (arith, e) in
          record {
            admissible = is_admissible_by_at args defeats s admitted;
            maximal = λ t w up. maximal_at top t w up;
          }

      from : IsPreferred args Hits s → enumerated_extension preferred atk args defeats s ≡ true
      from v =
          let w = v.admissible in
          rw (free_of args defeats s w.within w.conflict_free, is_admissible_by_of args defeats s w)
            (maximal_of v)
