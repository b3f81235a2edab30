-- ===== src/Calendar/Locate.antt =====
-- The search for the part that a numbered day falls in.
use juris_calculus.Prelude.{
  ℕ, zero, suc, ◌+◌, ◌-◌, ◌≤◌, ◌<◌, ◌≡◌, sym, ap, inl, inr, Bool-cases, leb, arith,
}
use juris_calculus.Calendar.{total, locate}

module _ (size : ℕ → ℕ) where
  pub total_le : (i j : ℕ) → i ≤ j → total size i ≤ total size j
  unfolding total
  total_le i zero h =
      let e : i ≡ 0 = omega arith in
      let same : total size i ≡ total size 0 = ap (total size) e in omega (arith, same)
  total_le i (suc j) h = elim (Bool-cases (leb i j)) [
    | inl below ↦ let le = total_le i j (ground (arith, below)) in omega (arith, le)
    | inr above ↦
        let e : i ≡ suc j = ground (arith, above) in
        let same : total size i ≡ total size (suc j) = ap (total size) e in omega (arith, same)
  ]

  -- Day n of part t is found from any earlier part i, where it has the number `m`.
  pub locate-total :
      (fuel i m t n : ℕ)
      → total size i + m ≡ total size t + n
      → 1 ≤ n
      → n ≤ size t
      → i ≤ t
      → t < i + fuel
      → locate size fuel i m ≡ (t, n)
  unfolding locate total
  locate-total zero i m t n e lo hi below room = absurd (omega arith)
  locate-total (suc fuel) i m t n e lo hi below room = elim (Bool-cases (leb m (size i))) [
    | inl here ↦
        let small : m ≤ size i = ground (arith, here) in
        let t_le : t ≤ i = place m small e lo below in
        let ti : t ≡ i = omega arith in
        let sizes : total size t ≡ total size i = ap (total size) ti in
        let mn : m ≡ n = omega (arith, sizes) in rw here (cc (sym ti, mn))
    | inr later ↦
        let large : size i < m = ground (arith, later) in
        let not_here : ¬ (t ≡ i) = λ ti.
          let sizes : total size t ≡ total size i = ap (total size) ti in
          let same : size t ≡ size i = ap size ti in omega (arith, sizes, same) in
        let before : i < t = omega (arith, not_here) in
        rw later (
          locate-total fuel (suc i) (m - size i) t n (omega arith) lo hi (omega arith)
            (omega arith))
  ]
    where
      place : (m : ℕ) → m ≤ size i → total size i + m ≡ total size t + n → 1 ≤ n → i ≤ t → t ≤ i
      place m small e lo below = elim (Bool-cases (leb t i)) [
        | inl le ↦ ground (arith, le)
        | inr gt ↦
            let after = total_le (suc i) t (ground (arith, gt)) in absurd (omega (arith, after))
      ]
