-- ===== src/Ratelimit/Calls.antt =====
-- One call of Allow of internal/ratelimit: the refill and what is taken, up to the roundings.
use native.Mathlib.Nat.{zero-mul}
use revquic.Prelude.{
  ℕ, ◌+◌, ◌-◌, ◌*◌, ◌^◌, ◌≤◌, ◌≡◌, refl, ap, ◌∙◌, inl, inr, Bool, true, false, some, arith, ltb,
  ltb→lt, leb, leb→le, Bool-cases, if◌then◌else◌,
}
use revquic.Ratelimit.{Bucket, refill, take_tokens, allow}
use revquic.Ratelimit.Double.{one, fadd, fsub, fmul, of_int, seconds}
use revquic.Ratelimit.Rounding.{IsClose}
use revquic.Ratelimit.Seconds.{
  giga, exact, above, fadd-IsClose, fsub-IsClose, seconds-pos, seconds-zero, one_big, IsRefill,
  fmul-IsRefill,
}

-- A bucket with a limit of one byte per second or more.
abbrev pub IsLimited : Bucket → Type 0
IsLimited b = one ≤ b.rate

abbrev pub later : ℕ → ℕ → ℕ
later t now = if ltb t now then now else t

-- What the refill makes of a bucket last touched at `t`.
record Refilled (b : Bucket) (t now : ℕ) (b' : Bucket) : Type 0 where
  same_rate : b'.rate ≡ b.rate
  same_burst : b'.burst ≡ b.burst
  touched : b'.last ≡ some (later t now)
  covered :
      exact ^ 4 * (giga * b'.tokens) ≤ above ^ 4 * (giga * b.tokens + (later t now - t) * b.rate)

sum_covered :
    (d rate x inc y : ℕ)
    → IsRefill d rate inc
    → IsClose (x + inc) 1 y
    → exact ^ 4 * (giga * y) ≤ above ^ 4 * (giga * x + d * rate)
sum_covered d rate x inc y r c = omega (arith, r.upper, c.upper)

-- The refill after some time, and after none.
pub refill_moved :
    (b : Bucket) (t now : ℕ)
    → b.last ≡ some t
    → ltb t now ≡ true
    → let tokens = fadd b.tokens (fmul (seconds (now - t)) b.rate) in
      refill b now
      ≡ record b { tokens = if ltb b.burst tokens then b.burst else tokens; last = some now }
unfolding refill
refill_moved b t now at_t moved = ground (arith, seconds-pos (now - t))

pub refill_still :
    (b : Bucket) (t now : ℕ)
    → b.last ≡ some t
    → ltb t now ≡ false
    → refill b now ≡ record b { last = some t }
unfolding refill
refill_still b t now at_t still =
    let none_passed : now - t ≡ 0 = ground arith in
    let stopped : seconds (now - t) ≡ 0 = ap seconds none_passed ∙ seconds-zero in ground arith

cut_covered :
    (d rate x y burst : ℕ)
    → exact ^ 4 * (giga * y) ≤ above ^ 4 * (giga * x + d * rate)
    → exact ^ 4 * (giga * (if ltb burst y then burst else y)) ≤ above ^ 4 * (giga * x + d * rate)
cut_covered d rate x y burst h = elim (Bool-cases (ltb burst y)) [
  | inl over ↦ rw over (omega (arith, h, ltb→lt burst y over))
  | inr under ↦ rw under h
]

refill-Refilled :
    (b : Bucket) (t now : ℕ) → IsLimited b → b.last ≡ some t → Refilled b t now (refill b now)
refill-Refilled b t now fast at_t = elim (Bool-cases (ltb t now)) [
  | inl moved ↦
      let d = now - t in
      let inc = fmul (seconds d) b.rate in
      let refill_close = fmul-IsRefill d b.rate (ground arith) fast in
      let sum =
        sum_covered d b.rate b.tokens inc (fadd b.tokens inc) refill_close
          (fadd-IsClose b.tokens inc) in
      rw (refill_moved b t now at_t moved) (record {
        same_rate = refl;
        same_burst = refl;
        touched = rw moved refl;
        covered = rw moved (cut_covered d b.rate b.tokens (fadd b.tokens inc) b.burst sum);
      })
  | inr still ↦ rw (refill_still b t now at_t still) (record {
    same_rate = refl;
    same_burst = refl;
    touched = rw still refl;
    covered = omega arith;
  })
]

-- One call at a bucket last touched at `t`: the refill and what is taken from it.
pub record Took (b : Bucket) (t now n : ℕ) (b' : Bucket) (done : Bool) : Type 0 where
  pub same_rate : b'.rate ≡ b.rate
  pub same_burst : b'.burst ≡ b.burst
  pub touched : b'.last ≡ some (later t now)
  pub covered :
      exact ^ 5 * (giga * (of_int (if done then n else 0) + b'.tokens))
      ≤ above ^ 5 * (giga * b.tokens + (later t now - t) * b.rate)

spent_covered :
    (n x y total : ℕ)
    → n ≤ x
    → IsClose (x - n) 1 y
    → exact ^ 4 * (giga * x) ≤ above ^ 4 * total
    → exact ^ 5 * (giga * (n + y)) ≤ above ^ 5 * total
spent_covered n x y total fits c h = omega (arith, c.upper, h)

take-Took :
    (b b' : Bucket) (t now n : ℕ)
    → Refilled b t now b'
    → let (b'', done) = take_tokens b' n in Took b t now n b'' done
unfolding take_tokens
take-Took b b' t now n r = elim (Bool-cases (leb (of_int n) b'.tokens)) [
  | inl enough ↦ rw enough (record {
    same_rate = r.same_rate;
    same_burst = r.same_burst;
    touched = r.touched;
    covered =
        spent_covered (of_int n) b'.tokens (fsub b'.tokens (of_int n)) _
          (leb→le (of_int n) b'.tokens enough) (fsub-IsClose b'.tokens (of_int n)) r.covered;
  })
  | inr short ↦ rw short (record {
    same_rate = r.same_rate;
    same_burst = r.same_burst;
    touched = r.touched;
    covered = omega (arith, r.covered, zero-mul one);
  })
]

pub allow_limited :
    (b : Bucket) (now n : ℕ)
    → IsLimited b
    → let (b', done) = take_tokens (refill b now) n in allow (some b) now n ≡ (some b', done)
unfolding allow
allow_limited b now n fast = ground (arith, one_big)

pub allow-Took :
    (b : Bucket) (t now n : ℕ)
    → IsLimited b
    → b.last ≡ some t
    → (b' : Bucket) × (done : Bool) × (allow (some b) now n ≡ (some b', done))
      × Took b t now n b' done
allow-Took b t now n fast at_t =
    let (b', done) = take_tokens (refill b now) n in
    (
      b',
      done,
      allow_limited b now n fast,
      take-Took b (refill b now) t now n (refill-Refilled b t now fast at_t),
    )
