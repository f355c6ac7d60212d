-- ===== src/Ratelimit/Budget.antt =====
-- How many bytes a bucket of internal/ratelimit lets through, up to the roundings of its floats.
use native.Mathlib.Nat.{
  mul-le-mul_left, mul-le-mul_right, pow-suc, pow-zero, add-mul, zero-mul, mul_comm,
}
use Prim.Native.Nat.{max}
use revquic.Prelude.{
  ℕ, zero, suc, ◌+◌, ◌-◌, ◌*◌, ◌^◌, ◌≤◌, ◌≡◌, refl, sym, ap, ◌∙◌, inl, inr, true, Option, some,
  List, [], ◌∷◌, arith, ltb, length, Bool-cases, if◌then◌else◌,
}
use revquic.Ratelimit.{Bucket, new_bucket, refill, take_tokens, allow}
use revquic.Ratelimit.Double.{one, fadd, fmul, of_int, seconds}
use revquic.Ratelimit.Rounding.{IsClose}
use revquic.Ratelimit.Seconds.{giga, exact, above, below, fadd-IsClose, IsRefill, fmul-IsRefill}
use revquic.Ratelimit.Calls.{IsLimited, later, refill_moved, allow_limited, allow-Took}

-- Calls of Allow in order, each with its time and size; the result has the bytes let through.
unfoldable pub run : Option Bucket → List (ℕ × ℕ) → Option Bucket × ℕ
run b [] = (b, 0)
run b ((now, n) ∷ calls) =
    let (b', done) = allow b now n in
    let (end, sent) = run b' calls in (end, (if done then n else 0) + sent)

-- The latest of a time and the times of some calls.
abbrev pub latest : ℕ → List (ℕ × ℕ) → ℕ
latest t [] = t
latest t ((now, n) ∷ calls) = latest (later t now) calls

le-latest : (t : ℕ) (calls : List (ℕ × ℕ)) → t ≤ latest t calls
le-latest t [] = omega arith
le-latest t ((now, n) ∷ calls) = ground (arith, le-latest (later t now) calls)

-- Two stretches of calls, one after the other.
add_spans :
    (pk qk d d' r a x y s : ℕ)
    → pk ≤ qk
    → exact ^ 5 * (giga * (a + x)) ≤ above ^ 5 * (giga * y + d * r)
    → pk * (giga * s) ≤ qk * (giga * x + d' * r)
    → exact ^ 5 * pk * (giga * (a + s)) ≤ above ^ 5 * qk * (giga * y + (d + d') * r)
add_spans pk qk d d' r a x y s le here rest =
    omega (arith, mul-le-mul_left qk here, rest, mul-le-mul_right a le, add-mul d d' r)

-- Five roundings of one call multiply by (2 ^ 53 + 1) / 2 ^ 53 each at most.
abbrev pub rounded : ℕ
rounded = above ^ 5

abbrev pub unrounded : ℕ
unrounded = exact ^ 5

unrounded-le : (k : ℕ) → unrounded ^ k ≤ rounded ^ k
unrounded-le zero = omega (arith, pow-zero)
unrounded-le (suc k) = omega (arith, pow-suc unrounded k, pow-suc rounded k, unrounded-le k)

run_covered :
    (calls : List (ℕ × ℕ)) (b : Bucket) (t : ℕ)
    → IsLimited b
    → b.last ≡ some t
    → unrounded ^ length calls * (giga * of_int (run (some b) calls).1)
      ≤ rounded ^ length calls * (giga * b.tokens + (latest t calls - t) * b.rate)
unfolding run
run_covered [] b t fast at_t = omega (arith, zero-mul one)
run_covered ((now, n) ∷ calls) b t fast at_t =
    let (b', done, eq, took) = allow-Took b t now n fast at_t in
    let k = length calls in
    let t' = later t now in
    let rest =
      rw took.same_rate at (run_covered calls b' t' (rw took.same_rate fast) took.touched) in
    let taken = if done then n else 0 in
    let sent = (run (some b') calls).1 in
    let both =
      add_spans (unrounded ^ k) (rounded ^ k) (t' - t) (latest t' calls - t') b.rate (of_int taken)
        b'.tokens b.tokens (of_int sent) (unrounded-le k) took.covered rest in
    let span : (t' - t) + (latest t' calls - t') ≡ latest t' calls - t =
      ground (arith, le-latest t' calls) in
    rw eq (
      rw
        (
          pow-suc unrounded k,
          pow-suc rounded k,
          mul_comm (unrounded ^ k) unrounded,
          mul_comm (rounded ^ k) rounded,
          add-mul taken sent one,
          ← span,
        )
        both)

-- The first call on a new bucket sets its baseline to the time of that call.
refill_first :
    (rate burst t : ℕ)
    → refill (new_bucket rate burst) t ≡ refill (record (new_bucket rate burst) { last = some t }) t
unfolding new_bucket refill
refill_first rate burst t = refl

new_bucket_first :
    (rate burst t n : ℕ)
    → one ≤ rate
    → allow (some (new_bucket rate burst)) t n
      ≡ allow (some (record (new_bucket rate burst) { last = some t })) t n
unfolding new_bucket
new_bucket_first rate burst t n fast =
    let b = new_bucket rate burst in
    allow_limited b t n fast
    ∙ ap (λ r. (some (take_tokens r n).0, (take_tokens r n).1)) (refill_first rate burst t)
    ∙ sym (allow_limited (record b { last = some t }) t n fast)

burst_max : (rate burst : ℕ) → (new_bucket rate burst).burst ≡ max rate burst
unfolding new_bucket
burst_max rate burst = ground arith

later_self : (t : ℕ) → later t t ≡ t
later_self t = ground arith

budget_at :
    (b : Bucket) (m t n : ℕ) (calls : List (ℕ × ℕ))
    → IsLimited b
    → b.last ≡ some t
    → b.tokens ≡ m
    → unrounded ^ suc (length calls) * (giga * of_int (run (some b) ((t, n) ∷ calls)).1)
      ≤ rounded ^ suc (length calls) * (giga * m + (latest t calls - t) * b.rate)
budget_at b m t n calls fast at_t full =
    rw (← full) (rw (later_self t) at (run_covered ((t, n) ∷ calls) b t fast at_t))

-- From the first call on a new bucket whose rate is at least one byte per second, the bytes that some
-- calls let through are at most the larger of burst and rate, and the rate times the time from that
-- call to the latest one, but for the roundings of the floats: one part in 2 ^ 53, five times for
-- each call.
pub new_bucket_budget :
    (rate burst t n : ℕ) (calls : List (ℕ × ℕ))
    → one ≤ rate
    → unrounded ^ suc (length calls)
        * (giga * of_int (run (some (new_bucket rate burst)) ((t, n) ∷ calls)).1)
      ≤ rounded ^ suc (length calls) * (giga * max rate burst + (latest t calls - t) * rate)
unfolding run new_bucket
new_bucket_budget rate burst t n calls fast = rw (new_bucket_first rate burst t n fast) (
    budget_at (record (new_bucket rate burst) { last = some t }) (max rate burst) t n calls fast
      refl (burst_max rate burst))

refill_enough :
    (d rate x inc y need : ℕ)
    → IsRefill d rate inc
    → IsClose (x + inc) 1 y
    → exact ^ 4 * (giga * need) ≤ below ^ 4 * (d * rate)
    → need ≤ y
refill_enough d rate x inc y need r c h = omega (arith, r.lower, c.lower, h)

refill_covers :
    (b : Bucket) (t now need : ℕ)
    → IsLimited b
    → b.last ≡ some t
    → need ≤ b.burst
    → exact ^ 4 * (giga * need) ≤ below ^ 4 * ((now - t) * b.rate)
    → need ≤ (refill b now).tokens
refill_covers b t now need fast at_t fit wait = elim (Bool-cases (ltb t now)) [
  | inl moved ↦
      let d = now - t in
      let inc = fmul (seconds d) b.rate in
      let y = fadd b.tokens inc in
      let enough : need ≤ y =
        refill_enough d b.rate b.tokens inc y need (fmul-IsRefill d b.rate (ground arith) fast)
          (fadd-IsClose b.tokens inc) wait in
      rw (refill_moved b t now at_t moved) (cut_keeps y b.burst need fit enough)
  | inr still ↦
      let passed : now - t ≡ 0 = ground arith in
      let free : need ≡ 0 = omega (arith, (rw (passed, zero-mul b.rate) at wait)) in
      rw free (omega arith)
]
  where
    cut_keeps :
        (y burst need : ℕ) → need ≤ burst → need ≤ y → need ≤ (if ltb burst y then burst else y)
    cut_keeps y burst need h k = ground arith

take_enough : (b : Bucket) (n : ℕ) → of_int n ≤ b.tokens → (take_tokens b n).1 ≡ true
unfolding take_tokens
take_enough b n h = ground arith

-- At a bucket whose rate is at least one byte per second, a call that fits the burst goes through if
-- the time since the last refill times the rate is its number of bytes and, for the roundings of the
-- floats, four parts in 2 ^ 53 more.
pub allow_after_wait :
    (b : Bucket) (t now n : ℕ)
    → one ≤ b.rate
    → b.last ≡ some t
    → of_int n ≤ b.burst
    → exact ^ 4 * (giga * of_int n) ≤ below ^ 4 * ((now - t) * b.rate)
    → (allow (some b) now n).1 ≡ true
allow_after_wait b t now n fast at_t fit wait =
    rw (allow_limited b now n fast)
      (take_enough (refill b now) n (refill_covers b t now (of_int n) fast at_t fit wait))
