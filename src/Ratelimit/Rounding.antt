-- ===== src/Ratelimit/Rounding.antt =====
-- How far a rounding of Ratelimit/Double is off.
use native.Mathlib.Nat.{div-add-mod, mod-lt, mul_assoc, mul_comm, mul-add, mul-le-mul_left, mul-one}
use revquic.Prelude.{
  ℕ, zero, suc, ◌+◌, ◌-◌, ◌*◌, ◌/◌, ◌%◌, ◌^◌, ◌≤◌, ◌<◌, ◌≡◌, refl, sym, ap, subst, ◌∙◌, ◌⊎◌, inl,
  inr, true, false, arith, ltb, ltb→lt, Bool-cases,
}
use revquic.Ratelimit.Double.{spacing, nearest, round}

-- The numbers of 53 bits around `m` are `w` apart.
record IsSpacing (m w : ℕ) : Type 0 where
  below : m < 2 ^ 53 * w
  above : (w ≡ 1) ⊎ (2 ^ 52 * w ≤ m)

double-IsSpacing : (m w : ℕ) → ltb m (2 ^ 53) ≡ false → IsSpacing (m / 2) w → IsSpacing m (2 * w)
double-IsSpacing m w large s = elim s.above [
  | inl e ↦ record { below = omega (arith, s.below); above = inr (ground arith) }
  | inr above ↦ record { below = omega (arith, s.below); above = inr (omega (arith, above)) }
]

spacing-IsSpacing : (fuel m : ℕ) → m ≤ fuel → IsSpacing m (spacing fuel m)
unfolding spacing
spacing-IsSpacing zero m h = record { below = omega arith; above = inl refl }
spacing-IsSpacing (suc fuel) m h = elim (Bool-cases (ltb m (2 ^ 53))) [
  | inl small ↦
      subst (λ b. IsSpacing m (elim b [ true ↦ 1 | false ↦ 2 * spacing fuel (m / 2) ])) (sym small)
        (record { below = omega (arith, ltb→lt m (2 ^ 53) small); above = inl refl })
  | inr large ↦
      subst (λ b. IsSpacing m (elim b [ true ↦ 1 | false ↦ 2 * spacing fuel (m / 2) ])) (sym large)
        (double-IsSpacing m (spacing fuel (m / 2)) large
          (spacing-IsSpacing fuel (m / 2) (ground arith)))
]

-- An even choice between two neighbours is off by half their distance at most.
record IsNear (p d k : ℕ) : Type 0 where
  not_above : 2 * (d * k) ≤ 2 * p + d
  not_below : 2 * p ≤ 2 * (d * k) + d

down-IsNear : (p d k r : ℕ) → d * k + r ≡ p → 2 * r ≤ d → IsNear p d k
down-IsNear p d k r e h = record { not_above = omega arith; not_below = omega arith }

up-IsNear : (p d k r : ℕ) → d * k + r ≡ p → r < d → d ≤ 2 * r → IsNear p d (k + 1)
up-IsNear p d k r e small h = record {
  not_above = omega (arith, mul-add d k 1, mul-one d);
  not_below = omega (arith, mul-add d k 1, mul-one d);
}

even_cases : (k : ℕ) → (k + k % 2 ≡ k) ⊎ (k + k % 2 ≡ k + 1)
even_cases k = ground arith

nearest-IsNear : (p d : ℕ) → 0 < d → IsNear p d (nearest p d)
unfolding nearest
nearest-IsNear p d pos =
    let k = p / d in
    let r = p % d in
    let parts = div-add-mod p d in
    let small = mod-lt p pos in
    elim (Bool-cases (ltb (2 * r) d)) [
      | inl low ↦ rw (low, nearest) (down-IsNear p d k r parts (ground arith))
      | inr not_low ↦ elim (Bool-cases (ltb d (2 * r))) [
        | inl high ↦ rw (not_low, high, nearest) (up-IsNear p d k r parts small (ground arith))
        | inr tie ↦
            rw (not_low, tie, nearest)
              (elim (even_cases k) [
                | inl e ↦ rw e (down-IsNear p d k r parts (ground arith))
                | inr e ↦ rw e (up-IsNear p d k r parts small (ground arith))
              ])
      ]
    ]

-- A quotient whose rounding is relative: one of at least 2 ^ 52 units, or a whole number of units.
abbrev pub IsWide : (p den : ℕ) → Type 0
IsWide p den = (2 ^ 52 * den ≤ p) ⊎ (p % den ≡ 0)

-- `x` is `p / den` up to one part in 2 ^ 53.
pub record IsClose (p den x : ℕ) : Type 0 where
  pub upper : 2 ^ 53 * (den * x) ≤ (2 ^ 53 + 1) * p
  pub lower : (2 ^ 53 - 1) * p ≤ 2 ^ 53 * (den * x)

near-IsClose : (p d k : ℕ) → 2 ^ 52 * d ≤ p → IsNear p d k → IsClose p d k
near-IsClose p d k wide n = record {
  upper = omega (arith, n.not_above);
  lower = omega (arith, n.not_below);
}

whole-IsClose : (p d : ℕ) → 0 < d → p % d ≡ 0 → IsClose p d (nearest p d)
unfolding nearest
whole-IsClose p d pos whole =
    let low : ltb (2 * (p % d)) d ≡ true = rw whole (ground arith) in
    let all : d * (p / d) ≡ p = omega (arith, div-add-mod p d, whole) in
    rw (low, nearest) (record { upper = omega (arith, all); lower = omega (arith, all) })

mul_pos : (d w : ℕ) → 0 < d → 0 < w → 0 < d * w
mul_pos d w h k = omega (arith, mul-le-mul_left d k, mul-one d)

wide_enough : (p den w : ℕ) → 2 ^ 52 * w ≤ p / den → 2 ^ 52 * (den * w) ≤ p
wide_enough p den w h = omega (arith, mul-le-mul_left den h, div-add-mod p den)

spaced-IsClose :
    (p den w : ℕ)
    → 0 < den
    → IsWide p den
    → IsSpacing (p / den) w
    → IsClose p (den * w) (nearest p (den * w))
spaced-IsClose p den w pos wide s = elim s.above [
  | inr above ↦
      near-IsClose p (den * w) _ (wide_enough p den w above)
        (nearest-IsNear p (den * w) (mul_pos den w pos (omega (arith, s.below))))
  | inl e ↦
      let same : den * w ≡ den = ap (λ v. den * v) e ∙ mul-one den in
      rw same (elim wide [
        | inl long ↦ near-IsClose p den _ long (nearest-IsNear p den pos)
        | inr whole ↦ whole-IsClose p den pos whole
      ])
]

-- A rounding is off by one part in 2 ^ 53 at most.
pub round-IsClose : (p den : ℕ) → 0 < den → IsWide p den → IsClose p den (round p den)
unfolding round
round-IsClose p den pos wide =
    let w = spacing (p / den) (p / den) in
    let k = nearest p (den * w) in
    let close =
      spaced-IsClose p den w pos wide (spacing-IsSpacing (p / den) (p / den) (omega arith)) in
    let same : den * (k * w) ≡ den * w * k =
      ap (λ v. den * v) (mul_comm k w) ∙ sym (mul_assoc den w k) in
    record { upper = omega (arith, close.upper, same); lower = omega (arith, close.lower, same) }
