-- ===== src/Upgrade/Tests.antt =====
-- A session on the relay through a direct connection and back, with packets sent meanwhile.
use revquic.Prelude.{
  false, ℕ, ◌≡◌, refl, Option, none, [], ◌∷◌, String, All, arith, ◌==◌, if◌then◌else◌,
}
use revquic.Proto.Datagram.{Bytes}
use revquic.DirectPath.State.{relaying, fire, transitions}
use revquic.Ratelimit.{allow}
use revquic.Session.{
  Session, send, transmit, begin_checking, upgrade_direct, fallback_relay, migrate, signal,
  fire_machine, set_path,
}
use revquic.Session.Stats.{IsU64, send_all}
use revquic.Exit.{ExitSession}
use revquic.Upgrade.{
  Negotiation, receives, sends, connected, events_of, relay_over, negotiate, client_events,
  client_direct, exit_direct,
}
use revquic.Upgrade.Moves.{Moved, received}
use revquic.Upgrade.Back.{client_direct_returns}
use revquic.Upgrade.ExitBack.{IsOwn, exit_direct_returns}

-- Sending never fails.
abbrev accept : ℕ → Bytes → Option ℕ
accept sender dg = none

abbrev relayed : Session ℕ
relayed = record {
  id = 7;
  m = record { state = relaying };
  path = relay_over 1 7;
  limiter = none;
  bytes_sent = 0;
  pkts_sent = 0;
  drops = 0;
}

relayed-IsU64 : IsU64 accept relayed
relayed-IsU64 = record {
  bytes_word = omega arith;
  packets_word = omega arith;
  drops_word = omega arith;
}

abbrev result : Negotiation ℕ
result =
    connected 5 ((1, 69 ∷ []) ∷ [])
      (receives (69 ∷ []) ∷ sends 2 (69 ∷ 3 ∷ []) ∷ receives (69 ∷ 1 ∷ []) ∷ [])

-- Two packets of three bytes together went out, one through the relay and one directly.
counted :
    (client_direct accept relayed relayed.path result).1
    ≡ record { bytes = 3; packets = 2; limited = 0 }
unfolding client_direct negotiate client_events send_all send transmit allow begin_checking
    upgrade_direct fallback_relay migrate signal fire_machine set_path fire transitions
counted = refl

client_direct_returns_example :
    let (s', t, outs) = client_direct accept relayed relayed.path result in
    Moved relayed s' relaying relayed.path t × (outs ≡ received (events_of result))
client_direct_returns_example = client_direct_returns accept relayed result relayed-IsU64 refl

abbrev addr_of : ℕ → ℕ → ℕ → ℕ → String
addr_of a b c d = if d == 2 then "10.8.0.2" else "10.8.0.3"

abbrev as_text : String → String
as_text s = s

abbrev client : ExitSession ℕ ℕ
client = record {
  sess = relayed;
  incoming = [];
  client_ip = "10.8.0.2";
  stun = "";
  turn = "";
  turn_user = "";
  turn_pass = "";
  rtt = none;
  started_at = 0;
  suspended = false;
  suspended_at = none;
  bytes_up = 0;
}

exit_direct_returns_example :
    let (es', t, outs) = exit_direct accept addr_of as_text client 7 1 result false in
    Moved client.sess es'.sess relaying (relay_over 1 7) t
    × (es'.client_ip ≡ client.client_ip)
    × All (IsOwn addr_of as_text client.client_ip) outs
exit_direct_returns_example =
    exit_direct_returns accept addr_of as_text client 7 1 result relayed-IsU64 refl refl
