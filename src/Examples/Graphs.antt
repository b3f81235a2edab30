-- ===== src/Examples/Graphs.antt =====
-- Runs of the grounded extension and of its checker.
use juris_calculus.Prelude.{
  ◌≡◌, refl, ◌↔◌, true, false, not, List, [], ◌∷◌, none, some, String, ◌≤◌, max, string_key,
  pair_key, ◌⊆◌, runs,
}
use juris_calculus.Dung.{IsAdmissible, IsComplete, IsGrounded}
use juris_calculus.Grounded.{
  attackers_of, is_defended, defended_by, iterate, rejected_of, iteration_limit, grounded_extension,
}
use juris_calculus.Grounded.Step.{Attacks}
use juris_calculus.Grounded.Result.{
  grounded_extension-convergent, grounded_extension-truncated, grounded_extension-IsAdmissible,
  accepted-IsGrounded,
}
use juris_calculus.Grounded.Labelling.{IsLabelling, grounded_extension-IsLabelling}
use juris_calculus.Checker.{Label, accepted_label, rejected_label, undecided_label, check_grounded}
use juris_calculus.Checker.Verdict.{IsAccepted, serialize, check_grounded-IsAccepted}

-- a attacks b, b attacks c, and d and e attack one another; the attack by x is ignored.
abbrev claims : List String
claims = "a" ∷ "b" ∷ "c" ∷ "d" ∷ "e" ∷ []

abbrev attacks : List (String × String)
attacks = ("a", "b") ∷ ("b", "c") ∷ ("d", "e") ∷ ("e", "d") ∷ ("x", "a") ∷ []

sample_labels :
    ((grounded_extension claims attacks none).accepted ≡ "a" ∷ "c" ∷ [])
    × ((grounded_extension claims attacks none).rejected ≡ "b" ∷ [])
    × ((grounded_extension claims attacks none).undecided ≡ "d" ∷ "e" ∷ [])
    × ((grounded_extension claims attacks none).iterations ≡ 3)
unfolding grounded_extension attackers_of iterate iteration_limit defended_by is_defended
    rejected_of runs
sample_labels = (refl, refl, refl, refl)

grounded_extension-convergent_example :
    ((grounded_extension claims attacks none).convergent ≡ true)
    × ((grounded_extension claims attacks none).truncated ≡ false)
    × ((grounded_extension claims attacks none).iterations
        ≤ (grounded_extension claims attacks none).derived_bound)
grounded_extension-convergent_example = grounded_extension-convergent claims attacks

accepted-IsGrounded_example :
    IsGrounded claims (Attacks claims attacks) (grounded_extension claims attacks none).accepted
accepted-IsGrounded_example =
    accepted-IsGrounded claims attacks none (grounded_extension-convergent claims attacks).0

grounded_extension-IsAdmissible_example :
    IsAdmissible claims
      (Attacks claims attacks)
      (grounded_extension claims attacks (some 1)).accepted
    × ((t : List String)
        → IsComplete claims (Attacks claims attacks) t
        → (grounded_extension claims attacks (some 1)).accepted ⊆ t)
grounded_extension-IsAdmissible_example = grounded_extension-IsAdmissible claims attacks (some 1)

grounded_extension-truncated_example :
    ((grounded_extension claims attacks (some 1)).truncated
      ≡ not (grounded_extension claims attacks (some 1)).convergent)
    × ((grounded_extension claims attacks (some 1)).truncated ≡ true
        → (grounded_extension claims attacks (some 1)).iterations ≡ max 1 1)
grounded_extension-truncated_example = grounded_extension-truncated claims attacks 1

grounded_extension-IsLabelling_example :
    IsLabelling claims attacks (grounded_extension claims attacks none)
grounded_extension-IsLabelling_example =
    grounded_extension-IsLabelling claims attacks none
      (grounded_extension-convergent claims attacks).0

abbrev claimed : List (String × Label)
claimed =
    ("a", accepted_label)
    ∷ ("b", rejected_label)
    ∷ ("c", accepted_label)
    ∷ ("d", undecided_label)
    ∷ ("e", undecided_label)
    ∷ []

check_grounded-IsAccepted_example :
    ((check_grounded (some (serialize claims attacks)) claimed ("Grounded.unique" ∷ [])).valid
      ≡ true)
    ↔ IsAccepted (some (serialize claims attacks)) claimed ("Grounded.unique" ∷ [])
check_grounded-IsAccepted_example =
    check_grounded-IsAccepted (some (serialize claims attacks)) claimed ("Grounded.unique" ∷ [])
