-- ===== src/Calendar/Business.antt =====
-- `roll_forward` and `add_business_days`, against the open days of the calendar.
use juris_calculus.Prelude.{
  ℕ, zero, suc, ◌+◌, ◌≤◌, ◌<◌, ◌≡◌, refl, ap, subst, ◌∙◌, inl, inr, true, false, Bool-cases, arith,
  ltb, leb, if◌then◌else◌, ok, pos, nat_key,
}
use juris_calculus.Calendar.{
  CalendarSnapshot, max_ordinal, add_days, is_covered, opens, is_business_day, roll_loop,
  roll_forward, business_loop, add_business_days,
}
use native.Mathlib.Nat.{add-zero}

module _ (calendar : CalendarSnapshot) where
  covered_of :
      (day : ℕ)
      → calendar.released ≡ true
      → calendar.coverage_start ≤ day
      → day ≤ calendar.coverage_end
      → is_business_day calendar day ≡ ok (opens calendar day)
  unfolding is_business_day is_covered
  covered_of day released lo hi = ground (arith, released)

  next_of : (day : ℕ) → suc day ≤ max_ordinal → add_days day 1 ≡ ok (suc day)
  unfolding add_days
  next_of day h = ground arith

  -- The first open day from `day` on.
  pub record FirstOpen (day s : ℕ) : Type 0 where
    pub from_day : day ≤ s
    pub is_open : opens calendar s ≡ true
    pub shut_before : (d : ℕ) → day ≤ d → d < s → opens calendar d ≡ false

  -- The calendar is released, and covers the days from `lo` to `hi`.
  pub record Covers (lo hi : ℕ) : Type 0 where
    pub released_is : calendar.released ≡ true
    pub covers_lo : calendar.coverage_start ≤ lo
    pub covers_hi : hi ≤ calendar.coverage_end
    pub ends : calendar.coverage_end ≤ max_ordinal

  roll_loop-FirstOpen :
      (fuel day r : ℕ)
      → Covers day r
      → day ≤ r
      → r < day + fuel
      → opens calendar r ≡ true
      → (s : ℕ) × (roll_loop calendar fuel day ≡ ok s) × (s ≤ r) × FirstOpen day s
  unfolding roll_loop
  roll_loop-FirstOpen zero day r v below room open_r = absurd (omega arith)
  roll_loop-FirstOpen (suc fuel) day r v below room open_r =
      let answer = covered_of day v.released_is v.covers_lo (omega (arith, v.covers_hi, below)) in
      elim (Bool-cases (opens calendar day)) [
        | inl now ↦ (
          day,
          rw (answer, now),
          below,
          record {
            from_day = omega arith;
            is_open = now;
            shut_before = λ d lo hi. absurd (omega arith);
          },
        )
        | inr shut ↦
            let apart : ¬ (day ≡ r) = λ e. cc (e, shut, open_r) in
            let (s, e, le, first) =
              roll_loop-FirstOpen fuel (suc day) r
                (record {
                  released_is = v.released_is;
                  covers_lo = omega (arith, v.covers_lo);
                  covers_hi = v.covers_hi;
                  ends = v.ends;
                })
                (omega (arith, apart)) (omega arith) open_r in
            (
              s,
              rw (answer, shut, next_of day (omega (arith, apart, v.covers_hi, v.ends))) e,
              le,
              record {
                from_day = omega (arith, first.from_day);
                is_open = first.is_open;
                shut_before = λ d lo hi. elim (Bool-cases (leb (suc day) d)) [
                  | inl after ↦ first.shut_before d (ground (arith, after)) hi
                  | inr here ↦
                      let same : day ≡ d = ground (arith, here) in
                      subst (λ x. opens calendar x ≡ false) same shut
                ];
              },
            )
      ]

  -- When an open day is covered from `day` on, the roll ends, at the first open day from `day` on.
  pub roll_forward-FirstOpen :
      (day r : ℕ)
      → Covers day r
      → day ≤ r
      → opens calendar r ≡ true
      → (s : ℕ) × (roll_forward day calendar ≡ ok s) × (s ≤ r) × FirstOpen day s
  unfolding roll_forward
  roll_forward-FirstOpen day r v below open_r =
      roll_loop-FirstOpen (calendar.coverage_end + 2) day r v below (omega (arith, v.covers_hi))
        open_r

  -- The open days among the n days after `start`.
  unfoldable pub opened : ℕ → ℕ → ℕ
  opened start zero = 0
  opened start (suc n) = opened start n + (if opens calendar (start + suc n) then 1 else 0)

  -- `n` days after `start` the count is reached for the first time.
  pub record ReachesCount (start count n : ℕ) : Type 0 where
    pub reached : opened start n ≡ count
    pub not_before : (j : ℕ) → j < n → opened start j < count

  opened-zero : (start : ℕ) → opened start 0 ≡ 0
  unfolding opened
  opened-zero start = refl

  opened-open :
      (start i : ℕ)
      → opens calendar (start + suc i) ≡ true
      → opened start (suc i) ≡ opened start i + 1
  unfolding opened
  opened-open start i e = rw e refl

  opened-shut :
      (start i : ℕ) → opens calendar (start + suc i) ≡ false → opened start (suc i) ≡ opened start i
  unfolding opened
  opened-shut start i e = rw e (add-zero _)

  business_loop-ReachesCount :
      (start count n fuel i remaining : ℕ)
      → Covers (suc start) (start + n)
      → count ≤ opened start n
      → i ≤ n
      → n < i + fuel
      → opened start i + remaining ≡ count
      → ((j : ℕ) → j < i → opened start j < count)
      → (m : ℕ) × (business_loop calendar fuel (start + i) remaining ≡ ok (start + m))
        × (m ≤ n)
        × ReachesCount start count m
  unfolding business_loop
  business_loop-ReachesCount start count n fuel i zero v enough below room sum before =
      (i, refl, below, record { reached = omega (arith, sum); not_before = before })
  business_loop-ReachesCount start count n zero i (suc rem) v enough below room sum before =
      absurd (omega arith)
  business_loop-ReachesCount start count n (suc fuel) i (suc rem) v enough below room sum before =
      let apart : ¬ (i ≡ n) = λ e. let same = ap (opened start) e in omega (arith, same) in
      let sum_is : suc (start + i) ≡ start + suc i = omega arith in
      let next = next_of (start + i) (omega (arith, apart, v.covers_hi, v.ends)) ∙ ap ok sum_is in
      let answer =
        covered_of (start + suc i) v.released_is (omega (arith, v.covers_lo))
          (omega (arith, apart, v.covers_hi)) in
      let earlier : (j : ℕ) → j < suc i → opened start j < count = λ j lt.
        elim (Bool-cases (ltb j i)) [
          | inl below_i ↦ before j (ground (arith, below_i))
          | inr at_i ↦
              let same : j ≡ i = ground (arith, at_i) in
              let count_same = ap (opened start) same in omega (arith, count_same, sum)
        ] in
      elim (Bool-cases (opens calendar (start + suc i))) [
        | inl now ↦
            rw (next, answer, now)
              (business_loop-ReachesCount start count n fuel (suc i) rem v enough
                (omega (arith, apart)) (omega arith) (omega (arith, opened-open start i now, sum))
                earlier)
        | inr shut ↦
            rw (next, answer, shut)
              (business_loop-ReachesCount start count n fuel (suc i) (suc rem) v enough
                (omega (arith, apart)) (omega arith) (omega (arith, opened-shut start i shut, sum))
                earlier)
      ]

  -- When the calendar covers `count` open days after `start`, adding business days ends, on the
  -- first day by which `count` open days have passed.
  pub add_business_days-ReachesCount :
      (start count n : ℕ)
      → Covers (suc start) (start + n)
      → count ≤ opened start n
      → (m : ℕ) × (add_business_days start (pos count) calendar ≡ ok (start + m))
        × (m ≤ n)
        × ReachesCount start count m
  unfolding add_business_days
  add_business_days-ReachesCount start count n v enough =
      subst
        (λ first.
          (m : ℕ) × (business_loop calendar (suc calendar.coverage_end) first count
            ≡ ok (start + m))
          × (m ≤ n)
          × ReachesCount start count m)
        (add-zero start)
        (business_loop-ReachesCount start count n (suc calendar.coverage_end) 0 count v enough
          (omega arith) (omega (arith, v.covers_hi)) (omega (arith, opened-zero start))
          (λ j lt. absurd (omega arith)))
