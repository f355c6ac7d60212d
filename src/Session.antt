-- ===== src/Session.antt =====
-- internal/session/session.go: the data-path state machine tied to the egress path of a session.
-- The mutexes make each access one step, and the methods below are sequences of such steps. A
-- sender is a parameter: what SendDatagram answers to a datagram (`none` is a nil error).
pub mod Paths
pub mod Stats
pub mod Race
mod Tests
use revquic.Prelude.{
  ℕ, zero, ◌+◌, ◌%◌, ◌^◌, Bool, true, false, Option, none, some, List, [], ◌∷◌, length,
  if◌then◌else◌,
}
use revquic.Proto.Datagram.{Bytes, encode_datagram}
use revquic.Ratelimit.{Bucket, new_bucket, allow}
use revquic.DirectPath.State.{
  PathState, Event, InvalidTransition, Fired, Machine, new_machine, fire, ok, err, direct,
  start_relay, begin_checks, direct_established, checks_failed, direct_lost, close,
}

-- A nil interface or a nil function is `none`.
pub record EgressPath (S : Type 0) : Type 0 where
  pub sender : Option S
  pub encode : Option (Bytes → Bytes)

-- Path{}
abbrev pub empty_path : {S : Type 0} → EgressPath S
empty_path = record { sender = none; encode = none }

-- Identity, the encoder of the direct path.
unfoldable pub identity : Bytes → Bytes
identity b = b

-- relayEncode of cmd/revquic-exit and cmd/revquic-client.
unfoldable pub relay_encode : ℕ → Bytes → Bytes
relay_encode sid pkt = encode_datagram sid pkt

pub record Session (S : Type 0) : Type 0 where
  pub id : ℕ
  pub m : Machine
  pub path : EgressPath S
  pub limiter : Option Bucket
  pub bytes_sent : ℕ
  pub pkts_sent : ℕ
  pub drops : ℕ

-- atomic.Uint64 addition
abbrev pub add_u64 : ℕ → ℕ → ℕ
add_u64 a b = (a + b) % 2 ^ 64

pub data SendResult (S E : Type 0) : Type 0 where
  no_path rate_limited nil_encoder : SendResult S E
  send_failed : E → SendResult S E
  sent : S → Bytes → SendResult S E

module _ {S : Type 0} where
  unfoldable pub new_session : ℕ → Session S
  new_session id = record {
    id = id;
    m = new_machine;
    path = empty_path;
    limiter = none;
    bytes_sent = 0;
    pkts_sent = 0;
    drops = 0;
  }

  unfoldable pub set_rate_limit : Session S → ℕ → ℕ → Session S
  set_rate_limit s bytes_per_sec burst = record s {
    limiter = some (new_bucket bytes_per_sec burst);
  }

  unfoldable pub is_direct : Session S → Bool
  is_direct s = elim s.m.state [ direct ↦ true | _ ↦ false ]

  unfoldable pub set_path : Session S → EgressPath S → Session S
  set_path s p = record s { path = p }

  -- s.m.Fire(ev)
  unfoldable pub fire_machine : Session S → Event → Session S × Fired
  fire_machine s ev = let (m, r) = fire s.m ev in (record s { m = m }, r)

  -- A method that fires an event and, if that was allowed, installs a path.
  unfoldable pub migrate : Session S → Event → EgressPath S → Session S × Option InvalidTransition
  unfolding fire_machine set_path
  migrate s ev p =
      let (s', r) = fire_machine s ev in
      elim r [ err e ↦ (s', some e) | ok _ ↦ (set_path s' p, none) ]

  -- A method that only fires an event.
  unfoldable pub signal : Session S → Event → Session S × Option InvalidTransition
  unfolding fire_machine
  signal s ev =
      let (s', r) = fire_machine s ev in elim r [ err e ↦ (s', some e) | ok _ ↦ (s', none) ]

  unfoldable pub start_relay_path : Session S → EgressPath S → Session S × Option InvalidTransition
  unfolding migrate
  start_relay_path s p = migrate s start_relay p

  unfoldable pub begin_checking : Session S → Session S × Option InvalidTransition
  unfolding signal
  begin_checking s = signal s begin_checks

  unfoldable pub upgrade_direct : Session S → EgressPath S → Session S × Option InvalidTransition
  unfolding migrate
  upgrade_direct s p = migrate s direct_established p

  unfoldable pub fail_checks : Session S → Session S × Option InvalidTransition
  unfolding signal
  fail_checks s = signal s checks_failed

  unfoldable pub fallback_relay : Session S → EgressPath S → Session S × Option InvalidTransition
  unfolding migrate
  fallback_relay s p = migrate s direct_lost p

  -- Close clears the path also when the event was refused.
  unfoldable pub close_session : Session S → Session S × Option InvalidTransition
  unfolding signal set_path
  close_session s = let (s', e) = signal s close in (set_path s' empty_path, e)

  module _ {E : Type 0} (send_datagram : S → Bytes → Option E) where
    -- The part of Send behind the limiter.
    unfoldable pub transmit : Session S → S → Bytes → Session S × SendResult S E
    transmit s sender pkt = elim s.path.encode [
      | none ↦ (s, nil_encoder)
      | some encode ↦ elim (send_datagram sender (encode pkt)) [
        | some e ↦ (s, send_failed e)
        | none ↦ (
          record s {
            bytes_sent = add_u64 s.bytes_sent (length pkt);
            pkts_sent = add_u64 s.pkts_sent 1;
          },
          sent sender (encode pkt),
        )
      ]
    ]

    unfoldable pub send : Session S → ℕ → Bytes → Session S × SendResult S E
    unfolding transmit
    send s now pkt = elim s.path.sender [
      | none ↦ (s, no_path)
      | some sender ↦
          let (limiter, allowed) = allow s.limiter now (length pkt) in
          let s' : Session S = record s { limiter = limiter } in
          if allowed
          then transmit s' sender pkt
          else (record s' { drops = add_u64 s.drops 1 }, rate_limited)
    ]
