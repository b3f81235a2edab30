-- ===== src/Prelude/Int.antt =====
-- Python's integers, where a value can be negative: `negsuc n` is -(n + 1).
use Prim.Native.Nat.{ℕ, suc, ◌+◌, ◌-◌, ◌*◌, ◌/◌, ◌%◌}
use juris_calculus.Prelude.Tests.{leb, if◌then◌else◌}

pub data ℤ : Type 0 where
  pos negsuc : ℕ → ℤ

-- `a - b` for natural a and b.
abbrev pub difference : ℕ → ℕ → ℤ
difference a b = if leb b a then pos (a - b) else negsuc (b - a - 1)

infixl 65 ◌+ℤ◌
abbrev pub ◌+ℤ◌ : ℤ → ℤ → ℤ
pos a +ℤ pos b = pos (a + b)
pos a +ℤ negsuc b = difference a (suc b)
negsuc a +ℤ pos b = difference b (suc a)
negsuc a +ℤ negsuc b = negsuc (suc (a + b))

-- `z // d` and `z % d` for d > 0: the quotient is rounded down.
abbrev pub floor_div : ℤ → ℕ → ℤ
floor_div (pos a) d = pos (a / d)
floor_div (negsuc a) d = negsuc (a / d)

abbrev pub floor_mod : ℤ → ℕ → ℕ
floor_mod (pos a) d = a % d
floor_mod (negsuc a) d = d - 1 - a % d

abbrev pub twelve_times : ℤ → ℤ
twelve_times (pos n) = pos (12 * n)
twelve_times (negsuc n) = negsuc (12 * n + 11)
