-- ===== src/Deadline/Limits.antt =====
-- The due date that `compute_deadline` gives, against the coverage and the companion deadlines.
use juris_calculus.Prelude.{
  ℕ, ◌≤◌, ◌≡◌, refl, sym, ap, ◌∙◌, subst, inl, inr, Bool, true, false, not, ◌||◌, List, [], ◌∷◌,
  Option, none, some, Option-cases, Bool-cases, arith, ltb, ◌⊎◌, Memᴰ, ok, >>=-eq-ok, ok-injective,
}
use mathlib.Core.List.Memᴰ
use juris_calculus.Calendar.{CalendarSnapshot, is_covered}
use juris_calculus.Deadline.{DeadlineRule, EventDates, Companion, Deadline}
use juris_calculus.Deadline.Compute.{
  calculate, check_coverage, below_bound, apply_companion, apply_companions, legal_result_of,
  compute_deadline,
}

-- The companion sets no earlier date than `d`.
abbrev pub Respects : Companion → ℕ → Type 0
Respects b d = (limit : ℕ) → b.companion_due ≡ some limit → d ≤ limit

-- One companion gives up the due date, keeps it, or lowers it to its own.
apply_companion-le :
    (b : Companion) (due : Option ℕ) (d : ℕ)
    → (apply_companion b due).0 ≡ some d
    → (e : ℕ) × (due ≡ some e) × (d ≤ e) × Respects b d × ((d ≡ e) ⊎ (b.companion_due ≡ some d))
unfolding apply_companion
apply_companion-le b due d h = elim (Option-cases b.companion_due) [
  | inl open_end ↦ elim (Bool-cases (below_bound due b.earliest_expiry)) [
    | inl binds ↦ (d, rw (open_end, binds) at h, omega arith, (λ limit e. cc), inl refl)
    | inr free ↦ cc (rw (open_end, free) at h)
  ]
  | inr (limit, e) ↦ elim (Option-cases due) [
    | inl gone ↦ cc (rw (e, gone) at h)
    | inr (day, from) ↦
        let own : (l : ℕ) → b.companion_due ≡ some l → limit ≡ l = λ l f. cc in
        elim (Bool-cases (ltb limit day)) [
          | inl late ↦
              let same : limit ≡ d = cc (rw (e, from, late) at h) in
              (
                day,
                from,
                ground (arith, late, same),
                (λ l f. omega (arith, same, own l f)),
                inr (e ∙ ap some same),
              )
          | inr early ↦
              let same : day ≡ d = cc (rw (e, from, early) at h) in
              (
                day,
                from,
                omega (arith, same),
                (λ l f. ground (arith, early, same, own l f)),
                inl (sym same),
              )
        ]
  ]
]

-- The due date is the one computed, or that of a companion.
abbrev pub Origin : List Companion → ℕ → ℕ → Type 0
Origin bounds d e = (d ≡ e) ⊎ ((b : Companion) × Memᴰ b bounds × (b.companion_due ≡ some d))

apply_companions-le :
    (bounds : List Companion) (due : Option ℕ) (d : ℕ)
    → (apply_companions bounds due).0 ≡ some d
    → (e : ℕ) × (due ≡ some e)
      × (d ≤ e)
      × ((b : Companion) → Memᴰ b bounds → Respects b d)
      × Origin bounds d e
unfolding apply_companions
apply_companions-le [] due d h = (d, h, omega arith, (λ b m. absurd (Memᴰ.not-nil m)), inl refl)
apply_companions-le (b ∷ rest) due d h =
    let (mid, reached, less, kept, origin) =
      apply_companions-le rest (apply_companion b due).0 d h in
    let (e, from, more, own, first) = apply_companion-le b due mid reached in
    let respects : (c : Companion) → Memᴰ c (b ∷ rest) → Respects c d = λ c m. elim m [
      | Memᴰ.head s ↦
          λ limit f. omega (arith, less, own limit (ap (λ x. x.companion_due) (sym s) ∙ f))
      | Memᴰ.tail r ↦ kept c r
    ] in
    (
      e,
      from,
      omega (arith, less, more),
      respects,
      elim origin [
        | inl same ↦ elim first [
          | inl kept_due ↦ inl (same ∙ kept_due)
          | inr lowered ↦ inr (b, Memᴰ.head refl, lowered ∙ ap some (sym same))
        ]
        | inr (c, m, f) ↦ inr (c, Memᴰ.tail m, f)
      ],
    )

-- The due date before the companions is the one computed, and the calendar covers it.
check_coverage-covered :
    (calendar : CalendarSnapshot) (gap : Bool) (due : Option ℕ) (e : ℕ)
    → (check_coverage calendar gap due).0 ≡ some e
    → (due ≡ some e) × (gap ≡ false) × (is_covered calendar e ≡ true)
unfolding check_coverage
check_coverage-covered calendar gap none e h = cc
check_coverage-covered calendar gap (some day) e h =
    elim (Bool-cases (gap || not (is_covered calendar day))) [
      | inl missing ↦ cc (rw missing at h)
      | inr covered ↦
          let same : day ≡ e = cc (rw covered at h) in
          (
            ap some same,
            ground (arith, covered),
            subst (λ x. is_covered calendar x ≡ true) same (ground (arith, covered)),
          )
    ]

-- When `compute_deadline` gives a due date, the date that the calculation arrived at is covered by
-- the calendar, the due date is not later than it and not later than any companion's, and it is one
-- of these dates.
pub compute_deadline-Limits :
    (rule : DeadlineRule) (event : EventDates) (calendar : CalendarSnapshot) (now : ℕ)
    (bounds : List Companion) (r : Deadline) (d : ℕ)
    → compute_deadline rule event calendar now bounds ≡ ok r
    → r.legal_result.due ≡ some d
    → (e : ℕ) × (r.earliest ≡ some e)
      × (is_covered calendar e ≡ true)
      × (d ≤ e)
      × ((b : Companion) → Memᴰ b bounds → Respects b d)
      × Origin bounds d e
unfolding compute_deadline legal_result_of
compute_deadline-Limits rule event calendar now bounds r d h due =
    let (c, computed, rest) = >>=-eq-ok (calculate rule event calendar now) _ h in
    let limited =
      (apply_companions bounds (check_coverage calendar c.calendar_gap c.due_date).0).0 in
    let given : limited ≡ r.legal_result.due = ap (λ x. x.legal_result.due) (ok-injective rest) in
    let before : c.due_date ≡ r.earliest = ap (λ x. x.earliest) (ok-injective rest) in
    let (e, from, less, kept, origin) = apply_companions-le bounds _ d (given ∙ due) in
    let (reached, _, covered) = check_coverage-covered calendar c.calendar_gap c.due_date e from in
    (e, sym before ∙ reached, covered, less, kept, origin)
