-- ===== src/Upgrade.antt =====
-- runDirect of cmd/revquic-client/main.go and cmd/revquic-exit/main.go: a session goes from the relay
-- to a direct connection and back, while the TUN pump goes on calling Send on it.
-- What ICE and QUIC do is a parameter: the outcome of the negotiation, and what happens while it runs
-- and until the direct connection fails. Each method of the session, Send included, is one step.
pub mod Moves
pub mod Back
pub mod ExitBack
mod Tests
use revquic.Prelude.{Bool, true, false, ℕ, Option, none, some, List, [], ◌∷◌, String, if◌then◌else◌}
use revquic.Proto.Datagram.{Bytes}
use revquic.Session.{
  EgressPath, Session, identity, relay_encode, begin_checking, upgrade_direct, fail_checks,
  fallback_relay, send,
}
use revquic.Session.Stats.{Tally, no_calls, add_tally, outcome, send_all}
use revquic.Exit.{ExitSession}
use revquic.Exit.Pump.{write_inbound}

-- What happens to a session on a direct connection, in order: a datagram comes in, or the TUN pump
-- calls Send.
pub data LinkEvent : Type 0 where
  receives : (dg : Bytes) → LinkEvent
  sends : (now : ℕ) → (pkt : Bytes) → LinkEvent

-- The ICE agent cannot be made, the negotiation fails (or finds only a TURN pair where that is not
-- wanted), or it gives a connection; with the calls of Send while the negotiation ran, and the events
-- on the connection until it fails.
pub data Negotiation (S : Type 0) : Type 0 where
  agent_failed : Negotiation S
  negotiation_failed : (waiting : List (ℕ × Bytes)) → Negotiation S
  connected : S → (waiting : List (ℕ × Bytes)) → List LinkEvent → Negotiation S

abbrev pub events_of : {S : Type 0} → Negotiation S → List LinkEvent
events_of (connected _ _ events) = events
events_of _ = []

abbrev pub direct_path_on : {S : Type 0} → S → EgressPath S
direct_path_on qc = record { sender = some qc; encode = some identity }

-- The relay path of a session over a broker connection.
abbrev pub relay_over : {S : Type 0} → S → ℕ → EgressPath S
relay_over conn sid = record { sender = some conn; encode = some (relay_encode sid) }

module _ {S E : Type 0} (send_datagram : S → Bytes → Option E) where
  -- Up to the upgrade: the session, what the calls of Send have seen, and whether the loop over the
  -- direct connection is entered.
  unfoldable pub negotiate : Session S → Negotiation S → Session S × Tally × Bool
  negotiate s agent_failed = (s, no_calls, false)
  negotiate s (negotiation_failed waiting) =
      let (s1, refused) = begin_checking s in
      let (s2, t) = send_all send_datagram s1 waiting in
      elim refused [ some _ ↦ (s1, no_calls, false) | none ↦ ((fail_checks s2).0, t, false) ]
  negotiate s (connected qc waiting _) =
      let (s1, refused) = begin_checking s in
      let (s2, t) = send_all send_datagram s1 waiting in
      let (s3, failed) = upgrade_direct s2 (direct_path_on qc) in
      elim refused [
        | some _ ↦ (s1, no_calls, false)
        | none ↦ (s3, t, elim failed [ some _ ↦ false | none ↦ true ])
      ]

  -- The client's loop over the direct connection, with what it writes to the TUN, and its TUN pump.
  unfoldable pub client_events : Session S → List LinkEvent → Session S × Tally × List Bytes
  client_events s [] = (s, no_calls, [])
  client_events s (receives dg ∷ events) =
      let (s', t, outs) = client_events s events in (s', t, dg ∷ outs)
  client_events s (sends now pkt ∷ events) =
      let (s1, r) = send send_datagram s now pkt in
      let (s', t, outs) = client_events s1 events in (s', add_tally (outcome r pkt) t, outs)

  -- The client's runDirect.
  unfoldable pub client_direct :
      Session S → EgressPath S → Negotiation S → Session S × Tally × List Bytes
  unfolding negotiate client_events
  client_direct s relay result =
      let (s1, t, direct) = negotiate s result in
      let (s2, u, outs) = client_events s1 (events_of result) in
      if direct then ((fallback_relay s2 relay).0, add_tally t u, outs) else (s1, t, [])

  module _ {G A : Type 0} (addr_from4 : ℕ → ℕ → ℕ → ℕ → A) (addr_string : A → String) where
    -- The exit's loop over the direct connection, each datagram through writeInbound, and its TUN
    -- pump.
    unfoldable pub exit_events :
        ExitSession S G → List LinkEvent → ExitSession S G × Tally × List Bytes
    unfolding write_inbound
    exit_events es [] = (es, no_calls, [])
    exit_events es (receives dg ∷ events) =
        let (es1, out) = write_inbound addr_from4 addr_string es dg in
        let (es2, t, outs) = exit_events es1 events in
        (es2, t, elim out [ none ↦ outs | some pkt ↦ pkt ∷ outs ])
    exit_events es (sends now pkt ∷ events) =
        let (s1, r) = send send_datagram es.sess now pkt in
        let (es2, t, outs) = exit_events (record es { sess = s1 }) events in
        (es2, add_tally (outcome r pkt) t, outs)

    -- The exit's runDirect for the session `sid`; `conn` is the broker connection at the end.
    unfoldable pub exit_direct :
        ExitSession S G
        → (sid : ℕ) → (conn : S) → Negotiation S
        → (session_over : Bool) → ExitSession S G × Tally × List Bytes
    unfolding negotiate exit_events
    exit_direct es sid conn result session_over =
        let relay = relay_over conn sid in
        let (s1, t, direct) = negotiate es.sess result in
        let (es2, u, outs) = exit_events (record es { sess = s1 }) (events_of result) in
        let back = record es2 { sess = (fallback_relay es2.sess relay).0 } in
        if direct
        then (if session_over then es2 else back, add_tally t u, outs)
        else (record es { sess = s1 }, t, [])
