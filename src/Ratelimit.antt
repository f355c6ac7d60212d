-- ===== src/Ratelimit.antt =====
-- internal/ratelimit/ratelimit.go: the byte-oriented token bucket.
-- Floats are those of Ratelimit/Double, 0 standing for every rate <= 0; the rates and bursts that are
-- not finite are left out. Time is in nanoseconds. Allow is called with the length of a packet, far
-- below 2 ^ 53.
pub mod Double
pub mod Rounding
pub mod Seconds
pub mod Calls
pub mod Budget
mod Tests
use revquic.Prelude.{
  ℕ, ◌+◌, ◌-◌, ◌*◌, Bool, true, false, Option, none, some, ltb, leb, ◌==◌, if◌then◌else◌,
}
use Double.{fadd, fsub, fmul, of_int, seconds}

pub record Bucket : Type 0 where
  pub rate : ℕ
  pub burst : ℕ
  pub tokens : ℕ
  pub last : Option ℕ

unfoldable pub new_bucket : ℕ → ℕ → Bucket
new_bucket rate burst =
    let burst' = if ltb burst rate then rate else burst in
    record { rate = rate; burst = burst'; tokens = burst'; last = none }

-- `b.last` after the check for a zero time.
abbrev pub baseline : Bucket → ℕ → ℕ
baseline b now = elim b.last [ none ↦ now | some t ↦ t ]

-- The refill, made only if the clock has moved on: the duration is 0 here also where it is negative.
unfoldable pub refill : Bucket → ℕ → Bucket
refill b now =
    let last = baseline b now in
    let elapsed = seconds (now - last) in
    let tokens = fadd b.tokens (fmul elapsed b.rate) in
    if ltb 0 elapsed
    then record b { tokens = if ltb b.burst tokens then b.burst else tokens; last = some now }
    else record b { last = some last }

-- Allow of a bucket with a limit.
unfoldable pub take_tokens : Bucket → ℕ → Bucket × Bool
take_tokens b n =
    if leb (of_int n) b.tokens
    then (record b { tokens = fsub b.tokens (of_int n) }, true)
    else (b, false)

-- Allow at the time `now` of the injected clock. A nil bucket is `none`.
unfoldable pub allow : Option Bucket → ℕ → ℕ → Option Bucket × Bool
unfolding refill take_tokens
allow none now n = (none, true)
allow (some b) now n =
    let (b', done) = take_tokens (refill b now) n in
    if b.rate == 0 then (some b, true) else (some b', done)
