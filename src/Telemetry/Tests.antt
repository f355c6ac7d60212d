-- ===== src/Telemetry/Tests.antt =====
-- Two ticks of a session.
use revquic.Prelude.{ℕ, ◌≡◌, refl, true, false, Option, none, List, [], ◌∷◌}
use revquic.Prelude.Int.{pos, negsuc}
use revquic.DirectPath.State.{relaying}
use revquic.Session.{Session, empty_path}
use revquic.Telemetry.{Meta, Rtt, elapsed, to_millis}

abbrev counted : ℕ → Session ℕ
counted n = record {
  id = 7;
  m = record { state = relaying };
  path = empty_path;
  limiter = none;
  bytes_sent = n;
  pkts_sent = 1;
  drops = 0;
}

abbrev info : Meta
info = record {
  host = "h";
  tun_name = "tun0";
  os = "linux";
  using_stun = true;
  using_turn = false;
  downlink = true;
  host_stat = none;
}

abbrev ticks : List (ℕ × Session ℕ × Option Rtt)
ticks = (5, counted 300, none) ∷ (9, counted 1000, none) ∷ []

late_pong : to_millis (elapsed 5_000_000 (pos 2_000_000)) ≡ pos 3
unfolding to_millis elapsed
late_pong = refl

early_pong : to_millis (elapsed 1_000_000 (pos 9_500_000)) ≡ negsuc 7
unfolding to_millis elapsed
early_pong = refl
