-- ===== src/Session/Tests.antt =====
-- Runs of a session that migrates from the relay to a direct path.
use revquic.Prelude.{true, false, ℕ, ◌≡◌, refl, Option, none, some, List, [], ◌∷◌, arith}
use revquic.Proto.Datagram.{Bytes, encode_datagram}
use revquic.DirectPath.State.{relaying, checking, closed, transitions, fire, new_machine}
use revquic.Ratelimit.{allow}
use revquic.Session.{
  EgressPath, Session, empty_path, upgrade_direct, close_session, sent, new_session, identity,
  relay_encode, migrate, start_relay_path, fire_machine, set_path, send, transmit,
}
use revquic.Session.Paths.{
  Op, starts_relay, upgrades, begins_checks, sends, apply_all, Fits, apply_all-Fits,
}
use revquic.Session.Stats.{send_all, Adds, send_all-Adds}
use revquic.Session.Race.{upgrading, closing, returned, interleave, close_inside_upgrade_leaks}

-- Two connections, and what sending on them answers: nothing fails.
abbrev accept : ℕ → Bytes → Option ℕ
accept sender dg = none

abbrev relay_path : EgressPath ℕ
relay_path = record { sender = some 1; encode = some (relay_encode 7) }

abbrev direct_path : EgressPath ℕ
direct_path = record { sender = some 2; encode = some identity }

abbrev packet : Bytes
packet = 69 ∷ 1 ∷ []

abbrev relayed : Session ℕ
relayed = record {
  id = 7;
  m = record { state = relaying };
  path = relay_path;
  limiter = none;
  bytes_sent = 0;
  pkts_sent = 0;
  drops = 0;
}

starts_relayed : (start_relay_path (new_session 7) relay_path).0 ≡ relayed
unfolding start_relay_path migrate fire_machine set_path new_session new_machine fire transitions
starts_relayed = refl

relay_send : (send accept relayed 0 packet).1 ≡ sent 1 (encode_datagram 7 packet)
unfolding send transmit relay_encode allow
relay_send = refl

abbrev upgrade_ops : List (Op ℕ)
upgrade_ops = starts_relay relay_path ∷ begins_checks ∷ upgrades direct_path ∷ sends 5 packet ∷ []

-- Relay paths go to connection 1 and direct ones to connection 2.
abbrev Relay : EgressPath ℕ → Type 0
Relay p = p.sender ≡ some 1

abbrev Direct : EgressPath ℕ → Type 0
Direct p = p.sender ≡ some 2

apply_all-Fits_example :
    let s = apply_all accept (new_session 7) upgrade_ops in Fits Relay Direct s.m.state s.path
apply_all-Fits_example =
    apply_all-Fits Relay Direct accept 7 upgrade_ops (refl, (tt, (refl, (tt, tt))))

send_all-Adds_example :
    let (s', t) = send_all accept relayed ((0, packet) ∷ (1, packet) ∷ []) in
    Adds accept relayed s' t
send_all-Adds_example =
    send_all-Adds accept relayed ((0, packet) ∷ (1, packet) ∷ [])
      (record { bytes_word = omega arith; packets_word = omega arith; drops_word = omega arith })

abbrev checked : Session ℕ
checked = record relayed { m = record { state = checking } }

close_inside_upgrade_leaks_example :
    let shut : EgressPath ℕ → Session ℕ =
      λ q. record checked { m = record { state = closed }; path = q } in
    ((close_session (upgrade_direct checked direct_path).0).0 ≡ shut empty_path)
    × ((upgrade_direct (close_session checked).0 direct_path).0 ≡ shut empty_path)
    × (interleave checked (upgrading direct_path) closing (true ∷ false ∷ false ∷ true ∷ [])
        ≡ (shut direct_path, returned none, returned none))
close_inside_upgrade_leaks_example = close_inside_upgrade_leaks checked direct_path refl
