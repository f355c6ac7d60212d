-- ===== src/Telemetry/Totals.antt =====
-- What the throughputs of internal/telemetry/telemetry.go add up to.
use revquic.Prelude.{ℕ, ◌+◌, ◌-◌, ◌*◌, ◌/◌, ◌≤◌, ◌<◌, ◌≡◌, Option, List, [], ◌∷◌, arith}
use native.Mathlib.Nat.{mul-div_cancel}
use revquic.Session.{Session}
use revquic.Telemetry.{Rate, Meta, Rtt, Progress, Sent, report, ping, throughput, tick, begin_run}

abbrev rate_of : Sent → Rate
rate_of (report r) = r.throughput_bps
rate_of (ping sid ts) = record { amount = 0; nanos = 1 }

module _ {S : Type 0} (sid : ℕ) (info : Meta) where
  -- The throughputs that are reported over some ticks, each with its time and what Stats and the
  -- RTT answer then, and how long each one's span is.
  pub run_ticks : Progress → List (ℕ × Session S × Option Rtt) → List (ℕ × Rate)
  run_ticks p [] = []
  run_ticks p ((now, sess, rtt) ∷ ticks) =
      let (p', _, r) = tick p sid now sess info rtt in
      (now - p.last, rate_of r) ∷ run_ticks p' ticks

-- The bytes that the reported throughputs stand for, each over its span.
pub total : List (ℕ × Rate) → ℕ
total [] = 0
total ((span, r) ∷ rest) = r.amount * span / r.nanos + total rest

abbrev pub Grows : {S : Type 0} → ℕ → ℕ → List (ℕ × Session S × Option Rtt) → Type 0
Grows at bytes [] = Unit {0}
Grows at bytes ((now, sess, rtt) ∷ ticks) =
    (at < now) × (bytes ≤ sess.bytes_sent) × Grows now sess.bytes_sent ticks

abbrev pub final : {S : Type 0} → ℕ → List (ℕ × Session S × Option Rtt) → ℕ
final bytes [] = bytes
final bytes ((now, sess, rtt) ∷ ticks) = final sess.bytes_sent ticks

covered :
    (cur prev dt : ℕ)
    → 0 < dt
    → prev ≤ cur
    → (throughput cur prev dt).amount * dt / (throughput cur prev dt).nanos ≡ cur - prev
unfolding throughput
covered cur prev dt pos h = ground (arith, mul-div_cancel (cur - prev) pos)

module _ {S : Type 0} (sid : ℕ) (info : Meta) where
  from :
      (p : Progress) (ticks : List (ℕ × Session S × Option Rtt))
      → Grows p.last p.last_bytes ticks
      → p.last_bytes + total (run_ticks sid info p ticks) ≡ final p.last_bytes ticks
  unfolding run_ticks total tick
  from p [] g = omega arith
  from p ((now, sess, rtt) ∷ ticks) (later, more, g) =
      let next : Progress = record { last_bytes = sess.bytes_sent; last = now } in
      omega (
        arith,
        covered sess.bytes_sent p.last_bytes (now - p.last) (omega arith) more,
        from next ticks g,
      )

  -- Over any run of ticks whose times and byte counters grow, the throughputs in the reports, each
  -- times its span, add up to the bytes that Stats counts at the last tick.
  pub run_ticks-total :
      (start : ℕ) (ticks : List (ℕ × Session S × Option Rtt))
      → Grows start 0 ticks
      → total (run_ticks sid info (begin_run start) ticks) ≡ final 0 ticks
  unfolding begin_run
  run_ticks-total start ticks g = omega (arith, from (begin_run start) ticks g)
