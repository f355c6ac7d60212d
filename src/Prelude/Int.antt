-- ===== src/Prelude/Int.antt =====
-- Go's signed `int` where the program compares it: `negsuc n` is -(n + 1).
use revquic.Prelude.{ℕ, Bool, true, false, ltb, ◌==◌}

pub data ℤ : Type 0 where
  pos : ℕ → ℤ
  negsuc : ℕ → ℤ

-- z <= 0
abbrev pub le_zero : ℤ → Bool
le_zero (pos n) = n == 0
le_zero (negsuc n) = true

-- z == 0
abbrev pub eq_zero : ℤ → Bool
eq_zero (pos n) = n == 0
eq_zero (negsuc n) = false

-- n < z, for a natural number n
abbrev pub below : ℕ → ℤ → Bool
below n (pos m) = ltb n m
below n (negsuc m) = false
