-- ===== src/Telemetry.antt =====
-- internal/telemetry/telemetry.go: the reports that an endpoint sends of its session, and RTT.
-- Times are in nanoseconds. A float64 quotient is the fraction that it stands for.
mod Tests
pub mod Totals
use revquic.Prelude.{
  ℕ, ◌+◌, ◌-◌, ◌/◌, ◌^◌, Bool, Option, none, some, String, ltb, leb, ◌==◌, if◌then◌else◌,
}
use revquic.Prelude.Int.{ℤ, pos, negsuc, eq_zero}
use revquic.Session.{Session, is_direct}

-- -k
abbrev pub neg : ℕ → ℤ
neg k = if k == 0 then pos 0 else negsuc (k - 1)

-- a - b
abbrev pub diff : ℕ → ℕ → ℤ
diff a b = if leb b a then pos (a - b) else neg (b - a)

-- A sum of two words below 2 ^ 63 as an int64.
abbrev pub wrap_int64 : ℕ → ℤ
wrap_int64 d = if ltb d (2 ^ 63) then pos d else neg (2 ^ 64 - d)

-- now - ts in int64, for a clock below 2 ^ 63.
unfoldable pub elapsed : ℕ → ℤ → ℤ
elapsed now (pos t) = diff now t
elapsed now (negsuc t) = wrap_int64 (now + (t + 1))

-- Go's division truncates towards zero.
unfoldable pub to_millis : ℤ → ℤ
to_millis (pos d) = pos (d / 1_000_000)
to_millis (negsuc n) = neg ((n + 1) / 1_000_000)

pub record Rtt : Type 0 where
  pub ms : ℤ

-- Observe at the time `now`; a nil receiver is `none`.
unfoldable pub observe : Option Rtt → ℕ → ℤ → Option Rtt
observe none now ts = none
observe (some r) now ts =
    if eq_zero ts then some r else some (record { ms = to_millis (elapsed now ts) })

unfoldable pub millis : Option Rtt → ℤ
millis none = pos 0
millis (some r) = r.ms

-- `amount` bytes in `nanos` nanoseconds.
pub record Rate : Type 0 where
  pub amount : ℕ
  pub nanos : ℕ

-- throughput, at `dt` nanoseconds; a span that is not positive is 0.
unfoldable pub throughput : ℕ → ℕ → ℕ → Rate
throughput cur prev dt =
    if dt == 0
    then record { amount = 0; nanos = 1 }
    else if ltb cur prev
    then record { amount = 0; nanos = 1 }
    else record { amount = cur - prev; nanos = dt }

-- HostStat is the triple that the function answers.
pub record Meta : Type 0 where
  pub host : String
  pub tun_name : String
  pub os : String
  pub using_stun : Bool
  pub using_turn : Bool
  pub downlink : Bool
  pub host_stat : Option (ℕ × ℕ × ℕ)

-- What a MsgReport carries.
pub record Report : Type 0 where
  pub session_id : ℕ
  pub throughput_bps : Rate
  pub drops : ℕ
  pub direct : Bool
  pub rtt_ms : ℤ
  pub path_kind : String
  pub info : Meta
  pub bytes_down : ℕ
  pub bytes_up : ℕ

pub data Sent : Type 0 where
  ping : (session_id ts : ℕ) → Sent
  report : Report → Sent

-- lastBytes and last of Run.
pub record Progress : Type 0 where
  pub last_bytes : ℕ
  pub last : ℕ

-- Run before its loop, at the time `now`.
unfoldable pub begin_run : ℕ → Progress
begin_run now = record { last_bytes = 0; last = now }

-- One tick of Run at the time `now`: the ping, then the report.
unfoldable pub tick :
    {S : Type 0} → Progress → ℕ → ℕ → Session S → Meta → Option Rtt → Progress × Sent × Sent
tick p sid now sess info rtt = (
  record { last_bytes = sess.bytes_sent; last = now },
  ping sid now,
  report (record {
    session_id = sid;
    throughput_bps = throughput sess.bytes_sent p.last_bytes (now - p.last);
    drops = sess.drops;
    direct = is_direct sess;
    rtt_ms = millis rtt;
    path_kind = if is_direct sess then "direct" else "relay";
    info = info;
    bytes_down = if info.downlink then sess.bytes_sent else 0;
    bytes_up = if info.downlink then 0 else sess.bytes_sent;
  }),
)
