-- ===== src/Broker/Control.antt =====
-- The control messages of a running session in cmd/revquic-broker/main.go: the read loops of
-- handleExit and runSession, and what runSession tells both sides at the start.
use revquic.Prelude.{◌==◌, ℕ, Bool, true, false, none, some, List, [], ◌∷◌}
use revquic.Prelude.Assoc.{lookup, nat_key}
use revquic.Broker.{Broker, Session, Output, end_session}

-- The messages that the loops tell apart; `S` is what a signal carries and `R` what a report does.
pub data ControlMessage (S R : Type 0) : Type 0 where
  signal : ℕ → S → ControlMessage S R
  report : ℕ → R → ControlMessage S R
  ping : (session_id ts : ℕ) → ControlMessage S R
  node_status : (cpu mem disk : ℕ) → ControlMessage S R
  unhandled : ControlMessage S R

pub data Reaction (S R : Type 0) : Type 0 where
  signal_to_client signal_to_exit : ℕ → ℕ → S → Reaction S R
  ingest : ℕ → R → Reaction S R
  pong_to_exit pong_to_client : (conn session_id ts : ℕ) → Reaction S R
  set_sys_stat : (ex cpu mem disk : ℕ) → Reaction S R
  node_updated : ℕ → Reaction S R
  session_start : (ex session_id addr mtu : ℕ) → Reaction S R
  connect_ok : (conn session_id addr mtu : ℕ) → Reaction S R
  exit_unavailable session_started : ℕ → Reaction S R

module _ {S R : Type 0} where
  -- One round of the loop of handleExit, for the exit object `ex`.
  unfoldable pub exit_control : Broker → ℕ → ControlMessage S R → List (Reaction S R)
  exit_control b ex (signal sid m) = elim (lookup sid b.sessions) [
    | none ↦ []
    | some s ↦ signal_to_client s.client sid m ∷ []
  ]
  exit_control b ex (report sid r) = ingest sid r ∷ []
  exit_control b ex (ping sid ts) = pong_to_exit ex sid ts ∷ []
  exit_control b ex (node_status cpu mem disk) = set_sys_stat ex cpu mem disk ∷ node_updated ex ∷ []
  exit_control b ex unhandled = []

  -- One round of the loop of runSession, for the session `s`.
  unfoldable pub client_control : Session → ControlMessage S R → List (Reaction S R)
  client_control s (signal sid m) = signal_to_exit s.exit sid m ∷ []
  client_control s (report sid r) = ingest sid r ∷ []
  client_control s (ping sid ts) = pong_to_client s.client sid ts ∷ []
  client_control s _ = []

  -- runSession up to its loops, with what endSession writes; `sent` is whether SessionStart could be written to the exit. The STUN
  -- and TURN settings, which both messages carry, are left out.
  unfoldable pub open_session :
      Broker → Session → (sent : Bool) → (mtu : ℕ) → Broker × List (Reaction S R) × List Output
  open_session b s true mtu = (
    b,
    session_start s.exit s.id s.client_addr mtu
        ∷ connect_ok s.client s.id s.client_addr mtu
        ∷ session_started s.id
        ∷ [],
    [],
  )
  open_session b s false mtu =
      let (b', outputs) = end_session b s.id in (b', exit_unavailable s.client ∷ [], outputs)

-- How a client connection ended: with an application error code of QUIC, or in another way.
pub data Cause : Type 0 where
  application_error : ℕ → Cause
  other_error : Cause

-- clientClosedIntentionally; the parameter is proto.CloseClientShutdown.
unfoldable pub client_closed_intentionally : ℕ → Cause → Bool
client_closed_intentionally close_client_shutdown (application_error code) =
    code == close_client_shutdown
client_closed_intentionally close_client_shutdown other_error = false
