-- ===== src/Upgrade/ExitBack.antt =====
-- The exit's runDirect, from the relay and back, with what has reached the TUN.
use revquic.Prelude.{
  ℕ, ◌≡◌, refl, sym, ◌∙◌, inl, inr, Bool, true, false, Option, none, some, none_ne, some_inj, List,
  [], ◌∷◌, String, arith, All, str_eq, eq_iff, Bool-cases, Option-cases, subst, if◌then◌else◌,
}
use revquic.Proto.Datagram.{Bytes}
use revquic.DirectPath.State.{relaying, direct}
use revquic.Session.{EgressPath, Session, fallback_relay, send}
use revquic.Session.Stats.{Tally, no_calls, add_tally, send_all, IsU64}
use revquic.Exit.{ExitSession}
use revquic.Exit.Packet.{ipv4_src}
use revquic.Exit.Pump.{write_inbound}
use revquic.Upgrade.{
  LinkEvent, receives, sends, Negotiation, agent_failed, negotiation_failed, connected,
  direct_path_on, relay_over, negotiate, exit_events, exit_direct,
}
use revquic.Upgrade.Moves.{Moved, put, chain, IsWord, stays, Moved-IsWord, send_moves}
use revquic.Upgrade.Back.{
  checked, waited, upgraded, waited_moves, negotiate_failed, negotiate-connected, failed_moves,
  fallback_moves,
}

-- The packets that the loop lets through come from the session's own address.
abbrev pub IsOwn : {A : Type 0} → (ℕ → ℕ → ℕ → ℕ → A) → (A → String) → String → Bytes → Type 0
IsOwn {A} addr_from4 addr_string client_ip pkt =
    (src : A) × (ipv4_src addr_from4 pkt ≡ some src) × (addr_string src ≡ client_ip)

-- One packet more, if there is one.
All-add {ℓ κ} :
    {A : Type ℓ} (P : A → Type κ) (o : Option A) (outs : List A)
    → ((a : A) → o ≡ some a → P a)
    → All P outs
    → All P (elim o [ none ↦ outs | some a ↦ a ∷ outs ])
All-add P none outs h rest = rest
All-add P (some a) outs h rest = (h a refl, rest)

module _ {S E G A : Type 0} (send_datagram : S → Bytes → Option E) (addr_from4 : ℕ → ℕ → ℕ → ℕ → A)
    (addr_string : A → String) where
  write_inbound_keeps_sess :
      (es : ExitSession S G) (pkt : Bytes)
      → let (es', out) = write_inbound addr_from4 addr_string es pkt in
        (es'.sess ≡ es.sess) × (es'.client_ip ≡ es.client_ip)
  unfolding write_inbound
  write_inbound_keeps_sess es pkt = ground arith

  packet_from_owner :
      (es : ExitSession S G) (dg out : Bytes)
      → (write_inbound addr_from4 addr_string es dg).1 ≡ some out
      → IsOwn addr_from4 addr_string es.client_ip out
  unfolding write_inbound
  packet_from_owner es dg out h = elim (Option-cases (ipv4_src addr_from4 dg)) [
    | inl other ↦ elim (none_ne (rw (other, write_inbound) at h)) [ ]
    | inr (src, from) ↦ elim (Bool-cases (str_eq (addr_string src) es.client_ip)) [
      | inr differs ↦ elim (none_ne (rw (from, differs, write_inbound) at h)) [ ]
      | inl same ↦
          let whole : dg ≡ out = some_inj (rw (from, same, write_inbound) at h) in
          (src, rw (← whole) from, (eq_iff (addr_string src) es.client_ip).0 same)
    ]
  ]

  exit_events_moves :
      (es : ExitSession S G) (events : List LinkEvent)
      → IsWord send_datagram es.sess
      → let (es', t, outs) = exit_events send_datagram addr_from4 addr_string es events in
        Moved es.sess es'.sess es.sess.m.state es.sess.path t
        × (es'.client_ip ≡ es.client_ip)
        × All (IsOwn addr_from4 addr_string es.client_ip) outs
  unfolding exit_events
  exit_events_moves es [] w = (stays send_datagram es.sess w, refl, tt)
  exit_events_moves es (receives dg ∷ events) w =
      let es1 = (write_inbound addr_from4 addr_string es dg).0 in
      let (same, ip) = write_inbound_keeps_sess es dg in
      let (m, ip', own) = exit_events_moves es1 events (rw same w) in
      let own' =
        subst
          (λ c.
            All (IsOwn addr_from4 addr_string c)
              (exit_events send_datagram addr_from4 addr_string es1 events).2)
          ip own in
      (
        subst
            (λ s.
              Moved s (exit_events send_datagram addr_from4 addr_string es1 events).0.sess s.m.state
                s.path (exit_events send_datagram addr_from4 addr_string es1 events).1)
            same m,
        ip' ∙ ip,
        All-add _ _ _ (packet_from_owner es dg) own',
      )
  exit_events_moves es (sends now pkt ∷ events) w =
      let s1 = (send send_datagram es.sess now pkt).0 in
      let here = send_moves send_datagram es.sess now pkt w in
      let (rest, ip, own) =
        exit_events_moves (record es { sess = s1 }) events
          (Moved-IsWord send_datagram es.sess s1 _ _ _ here) in
      (chain es.sess s1 _ _ _ _ _ _ _ here (rw (here.in_state, here.on_path) at rest), ip, own)

  -- How the exit's runDirect goes on after the negotiation, for a session that is not over.
  exit_rest :
      ExitSession S G
      → EgressPath S
      → List LinkEvent
      → Session S × Tally × Bool
      → ExitSession S G × Tally × List Bytes
  exit_rest es relay events (s1, t, on_direct) =
      let (es2, u, outs) =
        exit_events send_datagram addr_from4 addr_string (record es { sess = s1 }) events in
      if on_direct
      then (record es2 { sess = (fallback_relay es2.sess relay).0 }, add_tally t u, outs)
      else (record es { sess = s1 }, t, [])

  abbrev IsReturned : ExitSession S G → EgressPath S → ExitSession S G × Tally × List Bytes → Type 0
  IsReturned es relay (es', t, outs) =
      Moved es.sess es'.sess relaying relay t
      × (es'.client_ip ≡ es.client_ip)
      × All (IsOwn addr_from4 addr_string es.client_ip) outs

  exit_connected :
      (es : ExitSession S G) (relay : EgressPath S) (qc : S) (calls : List (ℕ × Bytes))
      (events : List LinkEvent)
      → IsWord send_datagram es.sess
      → IsReturned es relay (
          exit_rest es relay events (
            upgraded send_datagram (waited send_datagram es.sess calls) qc,
            (send_all send_datagram (checked send_datagram es.sess) calls).1,
            true,
          ))
  unfolding exit_rest
  exit_connected es relay qc calls events w =
      let m = waited_moves send_datagram es.sess calls w in
      let up =
        put es.sess (waited send_datagram es.sess calls) _ direct _ (direct_path_on qc) _ m in
      let s1 = upgraded send_datagram (waited send_datagram es.sess calls) qc in
      let (life, ip, own) =
        exit_events_moves (record es { sess = s1 }) events
          (Moved-IsWord send_datagram es.sess _ _ _ _ up) in
      (
        fallback_moves send_datagram es.sess _ _ relay _ (chain es.sess _ _ _ _ _ _ _ _ up life),
        ip,
        own,
      )

  -- When the exit's runDirect of a session on the relay is done and the session's context is not
  -- over, the session is on the relay again under the same id, whatever came in and whatever the TUN
  -- pump sent meanwhile; its path goes over the broker connection that the exit has then, if it did so
  -- before; its counters have grown, as 64-bit words, by exactly what the calls of Send have seen; and
  -- every packet that was brought to the TUN came from the session's own address.
  pub exit_direct_returns :
      (es : ExitSession S G) (sid : ℕ) (conn : S) (result : Negotiation S)
      → IsU64 send_datagram es.sess
      → es.sess.m.state ≡ relaying
      → es.sess.path ≡ relay_over conn sid
      → let (es', t, outs) =
          exit_direct send_datagram addr_from4 addr_string es sid conn result false in
        Moved es.sess es'.sess relaying (relay_over conn sid) t
        × (es'.client_ip ≡ es.client_ip)
        × All (IsOwn addr_from4 addr_string es.client_ip) outs
  unfolding exit_direct exit_rest negotiate
  exit_direct_returns es sid conn agent_failed w h on = (
    subst (λ p. Moved es.sess es.sess relaying p no_calls) on
        (subst (λ st. Moved es.sess es.sess st es.sess.path no_calls) h
          (stays send_datagram es.sess w)),
    refl,
    tt,
  )
  exit_direct_returns es sid conn (negotiation_failed calls) w h on =
      let m = waited_moves send_datagram es.sess calls w in
      let relay = relay_over conn sid in
      let failed = failed_moves send_datagram es.sess calls w in
      subst (λ n. IsReturned es relay (exit_rest es relay [] n))
        (sym (negotiate_failed send_datagram es.sess calls h m.in_state))
        (
          subst
              (λ p.
                Moved es.sess
                  (record (waited send_datagram es.sess calls) { m = record { state = relaying } })
                  relaying p (send_all send_datagram (checked send_datagram es.sess) calls).1)
              on failed,
          refl,
          tt,
        )
  exit_direct_returns es sid conn (connected qc calls events) w h on =
      let m = waited_moves send_datagram es.sess calls w in
      let relay = relay_over conn sid in
      subst (λ n. IsReturned es relay (exit_rest es relay events n))
        (sym (negotiate-connected send_datagram es.sess qc calls events h m.in_state))
        (exit_connected es relay qc calls events w)
