-- ===== src/Exit/Demux/Run.antt =====
-- Where the address table of cmd/revquic-exit/main.go leads after any run of the exit.
use revquic.Prelude.{
  none_ne, ℕ, ◌≡◌, ◌⊎◌, refl, inl, inr, none, some, List, [], ◌∷◌, String, arith, Option-cases,
}
use revquic.Prelude.Assoc.{Key, lookup, nat_key}
use revquic.Proto.Datagram.{Bytes, Decoded, decode_datagram, decoded, short_datagram}
use revquic.Session.{send}
use revquic.Exit.{
  Exit, ExitSession, ExitMessage, session_start, session_suspend, session_end, pong, signal,
  unhandled, bind, unbind, push_signal, control,
}
use revquic.Exit.Packet.{ipv4_dst}
use revquic.Exit.Pump.{write_inbound, datagram_to_tun, tun_to_datagram}
use revquic.Exit.Steps.{Step, Calls, binds, unbinds, controls, receives, replies, step, run}
use revquic.Exit.Demux.{
  Leads, IsRouted, replace-Leads, at_session-IsRouted, remove_session-IsRouted,
  add_session-IsRouted,
}

pub decode_cases :
    (dg : Bytes)
    → ((n : ℕ) × (decode_datagram dg ≡ short_datagram n))
      ⊎ ((sid : ℕ) × (pkt : Bytes) × (decode_datagram dg ≡ decoded sid pkt))
decode_cases dg = of (decode_datagram dg)
  where
    of :
        (d : Decoded)
        → ((n : ℕ) × (d ≡ short_datagram n)) ⊎ ((sid : ℕ) × (pkt : Bytes) × (d ≡ decoded sid pkt))
    of (short_datagram n) = inl (n, refl)
    of (decoded sid pkt) = inr (sid, pkt, refl)

pub write_inbound-keeps :
    {S G A : Type 0} (addr_from4 : ℕ → ℕ → ℕ → ℕ → A) (addr_string : A → String)
    (es : ExitSession S G) (pkt : Bytes)
    → (write_inbound addr_from4 addr_string es pkt).0.client_ip ≡ es.client_ip
unfolding write_inbound
write_inbound-keeps addr_from4 addr_string es pkt = ground arith

module _ {S G A R E : Type 0} ⦃k : Key A⦄ (c : Calls S G A R E) where
  receive-IsRouted :
      (e : Exit S G A) (dg : Bytes)
      → IsRouted c.parse_addr e
      → IsRouted c.parse_addr (datagram_to_tun c.addr_from4 c.addr_string e dg).0
  unfolding datagram_to_tun
  receive-IsRouted e dg routed = elim (decode_cases dg) [
    | inl (n, short) ↦ rw (short, datagram_to_tun) routed
    | inr (sid, pkt, eq) ↦ elim (Option-cases (lookup sid e.sessions)) [
      | inl absent ↦ rw (eq, absent, datagram_to_tun) routed
      | inr (es, held) ↦
          rw (eq, held, datagram_to_tun)
            (λ a n to.
              replace-Leads c.parse_addr e sid es
                (write_inbound c.addr_from4 c.addr_string es pkt).0 a n (routed a n to) held
                (write_inbound-keeps c.addr_from4 c.addr_string es pkt))
    ]
  ]

  reply-IsRouted :
      (e : Exit S G A) (now : ℕ) (pkt : Bytes)
      → IsRouted c.parse_addr e
      → IsRouted c.parse_addr (tun_to_datagram c.addr_from4 c.send_datagram e now pkt).0
  unfolding tun_to_datagram
  reply-IsRouted e now pkt routed = elim (Option-cases (ipv4_dst c.addr_from4 pkt)) [
    | inl other ↦ rw (other, tun_to_datagram) routed
    | inr (dst, eq) ↦ elim (Option-cases (lookup dst e.by_ip)) [
      | inl unknown ↦ rw (eq, unknown, tun_to_datagram) routed
      | inr (sid, to) ↦ elim (Option-cases (lookup sid e.sessions)) [
        | inl absent ↦ rw (eq, to, absent, tun_to_datagram) routed
        | inr (es, held) ↦
            rw (eq, to, held, tun_to_datagram)
              (λ a n to'.
                replace-Leads c.parse_addr e sid es
                  (record es { sess = (send c.send_datagram es.sess now pkt).0 }) a n
                  (routed a n to') held refl)
      ]
    ]
  ]

  control-IsRouted :
      (e : Exit S G A) (msg : ExitMessage R) (now : ℕ)
      → IsRouted c.parse_addr e
      → IsRouted c.parse_addr (control c.parse_addr c.unmarshal e msg now).0
  unfolding control push_signal
  control-IsRouted e (session_start msg) now routed =
      add_session-IsRouted c.parse_addr e msg now routed
  control-IsRouted e (session_suspend sid) now routed =
      at_session-IsRouted c.parse_addr e sid _ routed (λ es. refl)
  control-IsRouted e (session_end sid) now routed =
      remove_session-IsRouted c.parse_addr e sid routed
  control-IsRouted e (pong sid ts) now routed =
      at_session-IsRouted c.parse_addr e sid _ routed (λ es. refl)
  control-IsRouted e (signal sid raw) now routed = elim (Option-cases (c.unmarshal raw)) [
    | inl bad ↦ rw (bad, control) routed
    | inr (g, eq) ↦
        rw (eq, control)
          (at_session-IsRouted c.parse_addr e sid (λ es. push_signal es g) routed
            (λ es. ground arith))
  ]
  control-IsRouted e unhandled now routed = routed

  nowhere : (a : A) (sid : ℕ) {e : Exit S G A} → none ≡ some sid → Leads c.parse_addr e a sid
  nowhere a sid bad = elim (none_ne bad) [ ]

  step-IsRouted :
      (e : Exit S G A) (s : Step S R) → IsRouted c.parse_addr e → IsRouted c.parse_addr (step c e s)
  unfolding step bind unbind lookup
  step-IsRouted e (binds conn) routed = (λ a n to. nowhere a n to)
  step-IsRouted e unbinds routed = (λ a n to. nowhere a n to)
  step-IsRouted e (controls msg now) routed = control-IsRouted e msg now routed
  step-IsRouted e (receives dg) routed = receive-IsRouted e dg routed
  step-IsRouted e (replies now pkt) routed = reply-IsRouted e now pkt routed

  pub run-IsRouted :
      (e : Exit S G A) (steps : List (Step S R))
      → IsRouted c.parse_addr e
      → IsRouted c.parse_addr (run c e steps)
  unfolding run
  run-IsRouted e [] routed = routed
  run-IsRouted e (s ∷ steps) routed = run-IsRouted (step c e s) steps (step-IsRouted e s routed)
