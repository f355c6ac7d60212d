-- ===== src/Ratelimit/Double.antt =====
-- The float64 of the Go language, as far as the bucket uses it: numbers that are not negative, counted
-- in units of 2 ^ -1074, of which each is a multiple. A result is rounded to 53 significant bits, to
-- nearest and ties to even. There is no overflow: a sum beyond every float64 is larger than the finite
-- burst that the bucket cuts it off at, as +Inf is. Each operation is rounded on its own; a Go compiler
-- that fuses a product and a sum into one rounding is left out.
use revquic.Prelude.{ℕ, zero, suc, ◌+◌, ◌-◌, ◌*◌, ◌/◌, ◌%◌, ◌^◌, true, false, ltb, if◌then◌else◌}

-- The units of 1.0.
unfoldable pub one : ℕ
one = 2 ^ 1074

-- The distance of the numbers of 53 bits around `m`, for enough fuel, as `m` is.
unfoldable pub spacing : ℕ → ℕ → ℕ
spacing zero m = 1
spacing (suc fuel) m = elim (ltb m (2 ^ 53)) [ true ↦ 1 | false ↦ 2 * spacing fuel (m / 2) ]

-- The quotient `p / d`, rounded to nearest and ties to even.
unfoldable pub nearest : ℕ → ℕ → ℕ
nearest p d =
    let k = p / d in
    let r = p % d in if ltb (2 * r) d then k else if ltb d (2 * r) then k + 1 else k + k % 2

-- The float64 next to `p / den`.
unfoldable pub round : ℕ → ℕ → ℕ
unfolding spacing nearest
round p den = let m = p / den in let w = spacing m m in nearest p (den * w) * w

-- x + y, x - y for y ≤ x, and x * y
abbrev pub fadd : ℕ → ℕ → ℕ
fadd x y = round (x + y) 1

abbrev pub fsub : ℕ → ℕ → ℕ
fsub x y = round (x - y) 1

abbrev pub fmul : ℕ → ℕ → ℕ
fmul x y = round (x * y) one

-- float64(n), for a number below 2 ^ 53, which is exact
abbrev pub of_int : ℕ → ℕ
of_int n = n * one

-- Duration.Seconds, for less than the 292 years of a Duration: float64(d / Second) + float64(d % Second) / 1e9
unfoldable pub seconds : ℕ → ℕ
seconds d = fadd (of_int (d / 1_000_000_000)) (round (of_int (d % 1_000_000_000)) 1_000_000_000)
