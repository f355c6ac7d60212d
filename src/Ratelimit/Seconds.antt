-- ===== src/Ratelimit/Seconds.antt =====
-- How far the refill of a bucket of internal/ratelimit is off from the time times the rate.
use native.Mathlib.Nat.{
  div-add-mod, mul_assoc, add-mul, zero-mul, suc-mul, one-mul, le_of_mul-le-mul_left,
  mul-le-mul_right, mul-le-mul,
}
use revquic.Prelude.{
  ℕ, ◌+◌, ◌-◌, ◌*◌, ◌/◌, ◌%◌, ◌^◌, ◌≤◌, ◌<◌, ◌≡◌, refl, suc, zero, sym, ap, ◌∙◌, inl, inr, arith,
}
use revquic.Ratelimit.Double.{one, round, spacing, nearest, fadd, fsub, fmul, of_int, seconds}
use revquic.Ratelimit.Rounding.{IsWide, IsClose, round-IsClose}

whole : (p : ℕ) → IsWide p 1
whole p = inr (ground arith)

pub fadd-IsClose : (x y : ℕ) → IsClose (x + y) 1 (fadd x y)
fadd-IsClose x y = round-IsClose (x + y) 1 (omega arith) (whole (x + y))

pub fsub-IsClose : (x y : ℕ) → IsClose (x - y) 1 (fsub x y)
fsub-IsClose x y = round-IsClose (x - y) 1 (omega arith) (whole (x - y))

-- Nanoseconds in a second.
abbrev pub giga : ℕ
giga = 1_000_000_000

-- 2 ^ 53 and its neighbours, which a rounding multiplies an error by.
abbrev pub exact : ℕ
exact = 2 ^ 53

abbrev pub above : ℕ
above = 2 ^ 53 + 1

abbrev pub below : ℕ
below = 2 ^ 53 - 1

-- Three roundings on the way to the refill.
pub record IsRefill (d rate inc : ℕ) : Type 0 where
  pub upper : exact ^ 3 * (giga * inc) ≤ above ^ 3 * (d * rate)
  pub lower : below ^ 3 * (d * rate) ≤ exact ^ 3 * (giga * inc)

-- `u` units make 1.0.
module _ (u : ℕ) (big : 2 ^ 60 * giga ≤ u) where
  fraction-IsWide : (r : ℕ) → IsWide (r * u) giga
  fraction-IsWide zero = inr (omega (arith, zero-mul u))
  fraction-IsWide (suc r) = inl (omega (arith, suc-mul r u, big))

  in_units : (d : ℕ) → giga * (d / giga * u) + d % giga * u ≡ d * u
  in_units d = sym (
      ap (λ v. v * u) (sym (div-add-mod d giga))
      ∙ add-mul (giga * (d / giga)) (d % giga) u
      ∙ ap (λ v. v + d % giga * u) (mul_assoc giga (d / giga) u))

  -- Two roundings on the way to the seconds.
  record IsSeconds (d s : ℕ) : Type 0 where
    upper : exact ^ 2 * (giga * s) ≤ above ^ 2 * (d * u)
    lower : below ^ 2 * (d * u) ≤ exact ^ 2 * (giga * s)

  two_roundings :
      (d frac s : ℕ)
      → IsClose (d % giga * u) giga frac
      → IsClose (d / giga * u + frac) 1 s
      → IsSeconds d s
  two_roundings d frac s f c = record {
    upper = omega (arith, f.upper, c.upper, in_units d);
    lower = omega (arith, f.lower, c.lower, in_units d);
  }

  seconds_large : (d s : ℕ) → 0 < d → IsSeconds d s → 2 ^ 52 ≤ s
  seconds_large d s pos t = omega (arith, t.lower, mul-le-mul_right u pos, one-mul u, big)

  three_roundings :
      (d s rate inc : ℕ) → IsSeconds d s → IsClose (s * rate) u inc → IsRefill d rate inc
  three_roundings d s rate inc t c = record {
    upper =
        le_of_mul-le-mul_left {k = u} (omega (arith, c.upper, mul-le-mul_right rate t.upper))
          (omega (arith, big));
    lower =
        le_of_mul-le-mul_left {k = u} (omega (arith, c.lower, mul-le-mul_right rate t.lower))
          (omega (arith, big));
  }

pub one_big : 2 ^ 60 * giga ≤ one
unfolding one
one_big = omega arith

seconds-IsSeconds : (d : ℕ) → IsSeconds one one_big d (seconds d)
unfolding seconds
seconds-IsSeconds d =
    let frac = round (of_int (d % giga)) giga in
    two_roundings one one_big d frac (seconds d)
      (round-IsClose (d % giga * one) giga (omega arith) (fraction-IsWide one one_big (d % giga)))
      (fadd-IsClose (d / giga * one) frac)

pub seconds-pos : (d : ℕ) → 0 < d → 0 < seconds d
seconds-pos d pos = omega (arith, seconds_large one one_big d (seconds d) pos (seconds-IsSeconds d))

pub seconds-zero : seconds 0 ≡ 0
unfolding seconds round spacing nearest one
seconds-zero = refl

-- At one byte per second or more, the refill of some time is the time times the rate up to three
-- parts in 2 ^ 53.
pub fmul-IsRefill : (d rate : ℕ) → 0 < d → one ≤ rate → IsRefill d rate (fmul (seconds d) rate)
fmul-IsRefill d rate pos fast =
    let s = seconds-IsSeconds d in
    let large = seconds_large one one_big d (seconds d) pos s in
    three_roundings one one_big d (seconds d) rate (fmul (seconds d) rate) s
      (round-IsClose (seconds d * rate) one (omega (arith, one_big)) (inl (mul-le-mul large fast)))
