-- ===== src/Exit/Routing/Run.antt =====
-- Runs of the exit of cmd/revquic-exit/main.go, and the way of a packet through it and back.
use revquic.Prelude.{none_ne, ℕ, refl, inl, inr, List, [], ◌∷◌, arith, Option-cases}
use revquic.Prelude.Assoc.{Key, lookup, nat_key}
use revquic.Proto.Datagram.{Bytes}
use revquic.Session.{send}
use revquic.Exit.{
  Exit, ExitMessage, session_start, session_suspend, session_end, pong, signal, unhandled, bind,
  unbind, push_signal, control,
}
use revquic.Exit.Packet.{ipv4_dst}
use revquic.Exit.Pump.{write_inbound, datagram_to_tun, tun_to_datagram}
use revquic.Exit.Steps.{Step, Calls, binds, unbinds, controls, receives, replies, step, run}
use revquic.Exit.Demux.{IsRouted}
use revquic.Exit.Demux.Run.{decode_cases, write_inbound-keeps}
use revquic.Exit.Routing.{
  IsFull, IsFresh, replace-IsReached, at_session-IsFull, remove_session-IsFull, add_session-IsFull,
}

module _ {S G A R E : Type 0} ⦃k : Key A⦄ (c : Calls S G A R E) where
  -- Every SessionStart of a run names an address that no other session has then.
  unfoldable pub IsFreshStep : Exit S G A → Step S R → Type 0
  IsFreshStep e (controls (session_start msg) now) = IsFresh c.parse_addr e msg
  IsFreshStep e _ = Unit {0}

  unfoldable pub AllFresh : Exit S G A → List (Step S R) → Type 0
  AllFresh e [] = Unit {0}
  AllFresh e (s ∷ steps) = IsFreshStep e s × AllFresh (step c e s) steps

  pub receive-IsFull :
      (e : Exit S G A) (dg : Bytes)
      → IsFull c.parse_addr e
      → IsFull c.parse_addr (datagram_to_tun c.addr_from4 c.addr_string e dg).0
  unfolding datagram_to_tun
  receive-IsFull e dg full = elim (decode_cases dg) [
    | inl (n, short) ↦ rw (short, datagram_to_tun) full
    | inr (sid, pkt, eq) ↦ elim (Option-cases (lookup sid e.sessions)) [
      | inl absent ↦ rw (eq, absent, datagram_to_tun) full
      | inr (es, held) ↦
          rw (eq, held, datagram_to_tun)
            (λ n fs at_n.
              replace-IsReached c.parse_addr e sid es
                (write_inbound c.addr_from4 c.addr_string es pkt).0 n fs full held
                (write_inbound-keeps c.addr_from4 c.addr_string es pkt) at_n)
    ]
  ]

  reply-IsFull :
      (e : Exit S G A) (now : ℕ) (pkt : Bytes)
      → IsFull c.parse_addr e
      → IsFull c.parse_addr (tun_to_datagram c.addr_from4 c.send_datagram e now pkt).0
  unfolding tun_to_datagram
  reply-IsFull e now pkt full = elim (Option-cases (ipv4_dst c.addr_from4 pkt)) [
    | inl other ↦ rw (other, tun_to_datagram) full
    | inr (dst, eq) ↦ elim (Option-cases (lookup dst e.by_ip)) [
      | inl unknown ↦ rw (eq, unknown, tun_to_datagram) full
      | inr (sid, to) ↦ elim (Option-cases (lookup sid e.sessions)) [
        | inl absent ↦ rw (eq, to, absent, tun_to_datagram) full
        | inr (es, held) ↦
            rw (eq, to, held, tun_to_datagram)
              (λ n fs at_n.
                replace-IsReached c.parse_addr e sid es
                  (record es { sess = (send c.send_datagram es.sess now pkt).0 }) n fs full held
                  refl at_n)
      ]
    ]
  ]

  control-IsFull :
      (e : Exit S G A) (msg : ExitMessage R) (now : ℕ)
      → IsFull c.parse_addr e
      → IsFreshStep e (controls msg now)
      → IsFull c.parse_addr (control c.parse_addr c.unmarshal e msg now).0
  unfolding control push_signal IsFreshStep
  control-IsFull e (session_start msg) now full fresh =
      add_session-IsFull c.parse_addr e msg now full fresh
  control-IsFull e (session_suspend sid) now full fresh =
      at_session-IsFull c.parse_addr e sid _ full (λ es. refl)
  control-IsFull e (session_end sid) now full fresh = remove_session-IsFull c.parse_addr e sid full
  control-IsFull e (pong sid ts) now full fresh =
      at_session-IsFull c.parse_addr e sid _ full (λ es. refl)
  control-IsFull e (signal sid raw) now full fresh = elim (Option-cases (c.unmarshal raw)) [
    | inl bad ↦ rw (bad, control) full
    | inr (g, eq) ↦
        rw (eq, control)
          (at_session-IsFull c.parse_addr e sid (λ es. push_signal es g) full (λ es. ground arith))
  ]
  control-IsFull e unhandled now full fresh = full

  pub bind-IsFull : (e : Exit S G A) (conn : S) → IsFull c.parse_addr (bind e conn)
  unfolding bind lookup
  bind-IsFull e conn sid es held = elim (none_ne held) [ ]

  unbind-IsFull : (e : Exit S G A) → IsFull c.parse_addr (unbind e)
  unfolding unbind lookup
  unbind-IsFull e sid es held = elim (none_ne held) [ ]

  pub bind-IsRouted : (e : Exit S G A) (conn : S) → IsRouted c.parse_addr (bind e conn)
  unfolding bind lookup
  bind-IsRouted e conn a sid to = elim (none_ne to) [ ]

  pub step-IsFull :
      (e : Exit S G A) (s : Step S R)
      → IsFull c.parse_addr e
      → IsFreshStep e s
      → IsFull c.parse_addr (step c e s)
  unfolding step
  step-IsFull e (binds conn) full fresh = bind-IsFull e conn
  step-IsFull e unbinds full fresh = unbind-IsFull e
  step-IsFull e (controls msg now) full fresh = control-IsFull e msg now full fresh
  step-IsFull e (receives dg) full fresh = receive-IsFull e dg full
  step-IsFull e (replies now pkt) full fresh = reply-IsFull e now pkt full

  pub run-IsFull :
      (e : Exit S G A) (steps : List (Step S R))
      → IsFull c.parse_addr e
      → AllFresh e steps
      → IsFull c.parse_addr (run c e steps)
  unfolding run AllFresh
  run-IsFull e [] full fresh = full
  run-IsFull e (s ∷ steps) full (here, later) =
      run-IsFull (step c e s) steps (step-IsFull e s full here) later
