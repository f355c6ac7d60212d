-- ===== src/Session/Paths.antt =====
-- Which path a session of internal/session/session.go sends on.
use revquic.Prelude.{ℕ, ◌≡◌, refl, ◌⊎◌, inl, inr, Option, some, List, [], ◌∷◌, arith, All}
use revquic.DirectPath.State.{
  PathState, Event, Machine, ok, err, start_relay, begin_checks, direct_established, checks_failed,
  direct_lost, close, new, relaying, checking, direct, closed, transitions, new_machine, fire,
}
use revquic.Session.{
  migrate, signal, EgressPath, Session, empty_path, new_session, start_relay_path, begin_checking,
  upgrade_direct, fail_checks, fallback_relay, close_session, send, set_rate_limit,
}
use revquic.Proto.Datagram.{Bytes}

-- What a client of a session can call, with the paths that it hands over.
pub data Op (S : Type 0) : Type 0 where
  starts_relay upgrades falls_back : EgressPath S → Op S
  begins_checks fails_checks closes : Op S
  limits : ℕ → ℕ → Op S
  sends : ℕ → Bytes → Op S

module _ {S E : Type 0} (send_datagram : S → Bytes → Option E) where
  pub apply : Session S → Op S → Session S
  apply s (starts_relay p) = (start_relay_path s p).0
  apply s (upgrades p) = (upgrade_direct s p).0
  apply s (falls_back p) = (fallback_relay s p).0
  apply s begins_checks = (begin_checking s).0
  apply s fails_checks = (fail_checks s).0
  apply s closes = (close_session s).0
  apply s (limits rate burst) = set_rate_limit s rate burst
  apply s (sends now pkt) = (send send_datagram s now pkt).0

  pub apply_all : Session S → List (Op S) → Session S
  apply_all s [] = s
  apply_all s (op ∷ ops) = apply_all (apply s op) ops

-- Where an event leads, from any state that allows it.
abbrev target : Event → PathState
target start_relay = relaying
target begin_checks = checking
target direct_established = direct
target checks_failed = relaying
target direct_lost = relaying
target close = closed

fire_cases :
    (m : Machine) (ev : Event)
    → (fire m ev ≡ (m, err (record { from = m.state; event = ev })))
      ⊎ ((transitions m.state ev ≡ some (target ev))
          × (fire m ev ≡ (record { state = target ev }, ok (target ev))))
unfolding fire transitions
fire_cases m ev = ground arith

module _ {S : Type 0} (s : Session S) where
  -- A refused migration changes nothing; an allowed one installs its path.
  migrate_cases :
      (ev : Event) (p : EgressPath S)
      → ((migrate s ev p).0 ≡ s)
        ⊎ ((migrate s ev p).0 ≡ record s { m = record { state = target ev }; path = p })
  unfolding migrate
  migrate_cases ev p = ground (arith, fire_cases s.m ev)

  signal_cases :
      (ev : Event)
      → ((signal s ev).0 ≡ s)
        ⊎ ((transitions s.m.state ev ≡ some (target ev))
            × ((signal s ev).0 ≡ record s { m = record { state = target ev } }))
  unfolding signal
  signal_cases ev = ground (arith, fire_cases s.m ev)

from_relaying : (st : PathState) → transitions st begin_checks ≡ some checking → st ≡ relaying
unfolding transitions
from_relaying st h = ground arith

from_checking : (st : PathState) → transitions st checks_failed ≡ some relaying → st ≡ checking
unfolding transitions
from_checking st h = ground arith

-- Close ends in the closed state with no path, also where it is refused.
close_session-closed : {S : Type 0} (s : Session S) → (close_session s).0.m.state ≡ closed
unfolding close_session fire transitions
close_session-closed s = ground arith

pub send_keeps :
    {S E : Type 0} (send_datagram : S → Bytes → Option E) (s : Session S) (now : ℕ) (pkt : Bytes)
    → let s' = (send send_datagram s now pkt).0 in
      (s'.m ≡ s.m) × (s'.path ≡ s.path) × (s'.id ≡ s.id)
unfolding send
send_keeps send_datagram s now pkt = ground arith

module _ {S : Type 0} (Relay Direct : EgressPath S → Type 0) where
  -- The paths handed to StartRelay and FallbackRelay are relay paths, those to UpgradeDirect are
  -- direct ones.
  abbrev pub Supplies : Op S → Type 0
  Supplies (starts_relay p) = Relay p
  Supplies (falls_back p) = Relay p
  Supplies (upgrades p) = Direct p
  Supplies _ = Unit {0}

  -- The path that belongs to a state.
  abbrev pub Fits : PathState → EgressPath S → Type 0
  Fits new p = p ≡ empty_path
  Fits relaying p = Relay p
  Fits checking p = Relay p
  Fits direct p = Direct p
  Fits closed p = p ≡ empty_path

  module _ {E : Type 0} (send_datagram : S → Bytes → Option E) where
    migrate-Fits :
        (s : Session S) (ev : Event) (p : EgressPath S)
        → Fits s.m.state s.path
        → Fits (target ev) p
        → Fits (migrate s ev p).0.m.state (migrate s ev p).0.path
    migrate-Fits s ev p f h = elim (migrate_cases s ev p) [ inl e ↦ rw e f | inr e ↦ rw e h ]

    apply-Fits :
        (s : Session S) (op : Op S)
        → Supplies op
        → Fits s.m.state s.path
        → Fits (apply send_datagram s op).m.state (apply send_datagram s op).path
    unfolding apply start_relay_path upgrade_direct fallback_relay begin_checking fail_checks
        close_session set_rate_limit
    apply-Fits s (starts_relay p) h f = migrate-Fits s start_relay p f h
    apply-Fits s (upgrades p) h f = migrate-Fits s direct_established p f h
    apply-Fits s (falls_back p) h f = migrate-Fits s direct_lost p f h
    apply-Fits s begins_checks h f = elim (signal_cases s begin_checks) [
      | inl e ↦ rw (begin_checking, e) f
      | inr (t, e) ↦ rw e (rw (from_relaying s.m.state t) at f)
    ]
    apply-Fits s fails_checks h f = elim (signal_cases s checks_failed) [
      | inl e ↦ rw (fail_checks, e) f
      | inr (t, e) ↦ rw e (rw (from_checking s.m.state t) at f)
    ]
    apply-Fits s closes h f = rw (close_session-closed s)
    apply-Fits s (limits rate burst) h f = f
    apply-Fits s (sends now pkt) h f =
        let (m, path, _) = send_keeps send_datagram s now pkt in rw (m, path) f

    -- As long as its callers hand relay paths to StartRelay and FallbackRelay and direct paths to
    -- UpgradeDirect, a session that began as a new one sends on no path while it is new or closed,
    -- on a relay path while it relays or checks, and on a direct path in the direct state, after
    -- any sequence of calls, refused ones included.
    pub apply_all-Fits :
        (id : ℕ) (ops : List (Op S))
        → All Supplies ops
        → let s = apply_all send_datagram (new_session id) ops in Fits s.m.state s.path
    unfolding new_session new_machine apply_all
    apply_all-Fits id ops h = from (new_session id) ops h refl
      where
        from :
            (s : Session S) (ops : List (Op S))
            → All Supplies ops
            → Fits s.m.state s.path
            → let t = apply_all send_datagram s ops in Fits t.m.state t.path
        from s [] h f = f
        from s (op ∷ ops) h f = from (apply send_datagram s op) ops h.1 (apply-Fits s op h.0 f)
