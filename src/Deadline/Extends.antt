-- ===== src/Deadline/Extends.antt =====
-- The suspensions of `compute_deadline` and what they make of the due date.
use juris_calculus.Prelude.{
  ℕ, ◌≤◌, ◌≡◌, refl, sym, ap, subst, inl, inr, Bool, true, false, not, ◌&&◌, ◌||◌, Option, none,
  some, Bool-cases, arith, ltb, Result, ok, >>=-eq-ok, ok-injective, reject-then, pos, negsuc, ◌-◌,
  has, string_key,
}
use juris_calculus.Calendar.{DeadlineError, coded, add_days, calendar_shift, months}
use juris_calculus.Deadline.{
  Step, Policy, civil194, labor27, no_policy, other_policy, Adjustment, DateField, absent, invalid,
  given,
}
use juris_calculus.Deadline.Adjust.{
  Effect, premise_unverified, civil194_grounds, labor27_grounds, required_date, removal_date,
  unchanged, suspend_civil194, suspend_labor27, suspend_under, suspend,
}

-- The due date never moves back, moves only by a suspension, and a suspension needs an obstacle
-- that began by the due date and kept the claim from being exercised.
pub record Lengthens (due start : ℕ) (cannot : Bool) (e : Effect) : Type 0 where
  pub not_earlier : due ≤ e.new_due
  pub same_without : e.suspends ≡ false → e.new_due ≡ due
  pub by_then : e.suspends ≡ true → start ≤ due
  pub prevents : e.suspends ≡ true → cannot ≡ true

-- An adjustment without effect.
unchanged-Lengthens :
    (due start : ℕ) (cannot : Bool) (e : Effect) (step : Step)
    → ◌≡◌ {A = Result DeadlineError Effect} (ok (unchanged due step)) (ok e)
    → Lengthens due start cannot e
unchanged-Lengthens due start cannot e step h =
    let same : due ≡ e.new_due = ap (λ x. x.new_due) (ok-injective h) in
    let off : false ≡ e.suspends = ap (λ x. x.suspends) (ok-injective h) in
    record {
      not_earlier = omega (arith, same);
      same_without = λ h. sym same;
      by_then = λ h. cc;
      prevents = λ h. cc;
    }

-- A suspension to a date that is not earlier.
suspends-Lengthens :
    (due start : ℕ) (cannot : Bool) (e : Effect)
    → due ≤ e.new_due
    → start ≤ due
    → cannot ≡ true
    → e.suspends ≡ true
    → Lengthens due start cannot e
suspends-Lengthens due start cannot e le by_due does on = record {
  not_earlier = le;
  same_without = λ h. cc;
  by_then = λ h. by_due;
  prevents = λ h. does;
}

add_days-le : (day n later : ℕ) → add_days day n ≡ ok later → day ≤ later
unfolding add_days
add_days-le day n later h = ground (arith, h)

suspend_labor27-Lengthens :
    (a : Adjustment) (cannot : Bool) (due start end : ℕ) (e : Effect)
    → suspend_labor27 a cannot due start end ≡ ok e
    → Lengthens due start cannot e
unfolding suspend_labor27
suspend_labor27-Lengthens a cannot due start end e h =
    let (_, rest) = reject-then (not (has a.ground labor27_grounds)) premise_unverified _ h in
    elim (Bool-cases cannot) [
      | inl does ↦ elim (Bool-cases (ltb due start)) [
        | inl late ↦ unchanged-Lengthens due start cannot e _ (rw (does, late) at rest)
        | inr early ↦
            let (later, added, last) =
              >>=-eq-ok (add_days due (end - start)) _ (rw (does, early) at rest) in
            let made = ok-injective last in
            suspends-Lengthens due start cannot e
              (subst (λ x. due ≤ x) (ap (λ x. x.new_due) made)
                (add_days-le due (end - start) later added))
              (ground (arith, early)) does (sym (ap (λ x. x.suspends) made))
      ]
      | inr free ↦ unchanged-Lengthens due start cannot e _ (rw free at rest)
    ]

suspend_civil194-Lengthens :
    (a : Adjustment) (cannot : Bool) (due start end : ℕ) (e : Effect)
    → suspend_civil194 a cannot due start end ≡ ok e
    → Lengthens due start cannot e
unfolding suspend_civil194
suspend_civil194-Lengthens a cannot due start end e h =
    let (_, rest) =
      reject-then
        (not (has a.ground civil194_grounds)
          || (string_key.beq a.ground "other_obstacle" && not a.has_review_ref))
        premise_unverified _ h in
    elim (Bool-cases cannot) [
      | inl does ↦
          let (window, _, test) =
            >>=-eq-ok (calendar_shift due (negsuc 5) months) _ (rw does at rest) in
          elim (Bool-cases (ltb due start || ltb end window)) [
            | inl late ↦ unchanged-Lengthens due start cannot e _ (rw late at test)
            | inr within ↦
                let (resumed, _, last) =
                  >>=-eq-ok (calendar_shift end (pos 6) months) _ (rw within at test) in
                let made = ok-injective last in
                suspends-Lengthens due start cannot e
                  (subst (λ x. due ≤ x) (ap (λ x. x.new_due) made) (ground arith))
                  (ground (arith, within)) does (sym (ap (λ x. x.suspends) made))
          ]
      | inr free ↦ unchanged-Lengthens due start cannot e _ (rw free at rest)
    ]

suspend_under-Lengthens :
    (policy : Policy) (a : Adjustment) (answer : Option Bool) (due start end : ℕ) (e : Effect)
    → suspend_under policy a answer due start end ≡ ok e
    → (cannot : Bool) × (answer ≡ some cannot) × Lengthens due start cannot e
unfolding suspend_under
suspend_under-Lengthens rules a none due start end e h = cc
suspend_under-Lengthens civil194 a (some cannot) due start end e h =
    (cannot, refl, suspend_civil194-Lengthens a cannot due start end e h)
suspend_under-Lengthens labor27 a (some cannot) due start end e h =
    (cannot, refl, suspend_labor27-Lengthens a cannot due start end e h)
suspend_under-Lengthens no_policy a (some cannot) due start end e h =
    (cannot, refl, suspend_labor27-Lengthens a cannot due start end e h)
suspend_under-Lengthens (other_policy name) a (some cannot) due start end e h =
    (cannot, refl, suspend_labor27-Lengthens a cannot due start end e h)

required_date-given :
    (field : DateField) (day : ℕ) → required_date field ≡ ok day → field ≡ given day
unfolding required_date
required_date-given absent day h = cc
required_date-given invalid day h = cc
required_date-given (given d) day h = cc

removal_date-given : (field : DateField) (day : ℕ) → removal_date field ≡ ok day → field ≡ given day
unfolding removal_date
removal_date-given absent day h = cc
removal_date-given invalid day h = cc
removal_date-given (given d) day h = cc

-- When the code accepts a suspension, its ground was confirmed, the obstacle's two dates are given
-- and in order, it is known whether the obstacle kept the claim from being exercised, and the due
-- date never moves back: it stays unless a suspension is established, which needs an obstacle that
-- began by the due date and that kept the claim from being exercised.
pub suspend-Lengthens :
    (policy : Policy) (a : Adjustment) (due : ℕ) (e : Effect)
    → suspend policy a due ≡ ok e
    → (a.ground_confirmed ≡ true)
      × ((start : ℕ) × (end : ℕ) × (a.from_date ≡ given start)
          × (a.to_date ≡ given end)
          × (start ≤ end)
          × ((cannot : Bool) × (a.cannot_exercise ≡ some cannot) × Lengthens due start cannot e))
unfolding suspend
suspend-Lengthens policy a due e h =
    let (start, from, h1) = >>=-eq-ok (required_date a.from_date) _ h in
    let (end, to, h2) = >>=-eq-ok (removal_date a.to_date) _ h1 in
    let (ordered, h3) =
      reject-then (ltb end start) (coded "deadline_adjustment_time_invalid") _ h2 in
    let (confirmed, h4) = reject-then (not a.ground_confirmed) premise_unverified _ h3 in
    (
      ground (arith, confirmed),
      (
        start,
        end,
        required_date-given _ _ from,
        removal_date-given _ _ to,
        ground (arith, ordered),
        suspend_under-Lengthens policy a a.cannot_exercise due start end e h4,
      ),
    )
