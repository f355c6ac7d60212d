-- ===== src/Exit/Spoof.antt =====
-- Who gets which packet at the exit of cmd/revquic-exit/main.go, and through the broker before it.
use revquic.Prelude.{
  none_ne, some_inj, ℕ, ◌≡◌, ◌≢◌, ◌<◌, ==_iff, ◌^◌, refl, sym, ap, ◌∙◌, inl, inr, true, Option,
  some, List, [], ◌∷◌, String, Option-cases, Bool-cases, str_eq, eq_iff, length,
}
use revquic.Prelude.Assoc.{Key, lookup, lookup-insert, nat_key}
use revquic.Proto.Datagram.{
  Bytes, decode_datagram, decoded, encode_datagram, decode_datagram-encode_datagram,
}
use revquic.Session.{SendResult, send}
use revquic.Broker.{Broker, Session as Filed, client_conn, datagram_to_exit, add_bytes, relay}
use revquic.Broker.Relay.{relay_injects}
use revquic.Exit.{Exit, ExitSession, bind}
use revquic.Exit.Packet.{ipv4_dst, ipv4_src}
use revquic.Exit.Pump.{write_inbound, datagram_to_tun, tun_to_datagram}
use revquic.Exit.Steps.{Step, Calls, run}
use revquic.Exit.Demux.Run.{decode_cases, write_inbound-keeps, run-IsRouted}
use revquic.Exit.Routing.Run.{AllFresh, bind-IsFull, bind-IsRouted, run-IsFull, receive-IsFull}

module _ {S G A E : Type 0} ⦃k : Key A⦄ where
  -- What tunToDatagram sends goes where the two tables lead.
  tun_to_datagram_found :
      (addr_from4 : ℕ → ℕ → ℕ → ℕ → A) (send_datagram : S → Bytes → Option E) (e : Exit S G A)
      (now : ℕ) (pkt : Bytes) (sid : ℕ) (r : SendResult S E)
      → (tun_to_datagram addr_from4 send_datagram e now pkt).1 ≡ some (sid, r)
      → (dst : A) × (ipv4_dst addr_from4 pkt ≡ some dst) × (lookup dst e.by_ip ≡ some sid)
  unfolding tun_to_datagram
  tun_to_datagram_found addr_from4 send_datagram e now pkt sid r sent =
      elim (Option-cases (ipv4_dst addr_from4 pkt)) [
        | inl other ↦ elim (none_ne (rw (other, tun_to_datagram) at sent)) [ ]
        | inr (dst, eq) ↦ elim (Option-cases (lookup dst e.by_ip)) [
          | inl unknown ↦ elim (none_ne (rw (eq, unknown, tun_to_datagram) at sent)) [ ]
          | inr (n, to) ↦ elim (Option-cases (lookup n e.sessions)) [
            | inl absent ↦ elim (none_ne (rw (eq, to, absent, tun_to_datagram) at sent)) [ ]
            | inr (es, held) ↦
                let same = some_inj (rw (eq, to, held, tun_to_datagram) at sent) in
                (dst, eq, rw (ap (λ w. w.0) same) at to)
          ]
        ]
      ]

module _ {S G A : Type 0} where
  -- What datagramToTun writes is the packet of a datagram whose session is there and whose source is
  -- the address of the session.
  datagram_to_tun_wrote :
      (addr_from4 : ℕ → ℕ → ℕ → ℕ → A) (addr_string : A → String) (e : Exit S G A) (dg out : Bytes)
      → (datagram_to_tun addr_from4 addr_string e dg).1 ≡ some out
      → (sid : ℕ) × (es : ExitSession S G) × (src : A) × (decode_datagram dg ≡ decoded sid out)
        × (lookup sid e.sessions ≡ some es)
        × (ipv4_src addr_from4 out ≡ some src)
        × (addr_string src ≡ es.client_ip)
  unfolding datagram_to_tun write_inbound
  datagram_to_tun_wrote addr_from4 addr_string e dg out wrote = elim (decode_cases dg) [
    | inl (n, short) ↦ elim (none_ne (rw (short, datagram_to_tun) at wrote)) [ ]
    | inr (sid, pkt, eq) ↦ elim (Option-cases (lookup sid e.sessions)) [
      | inl absent ↦ elim (none_ne (rw (eq, absent, datagram_to_tun) at wrote)) [ ]
      | inr (es, held) ↦ elim (Option-cases (ipv4_src addr_from4 pkt)) [
        | inl other ↦
            elim (none_ne
              (rw (other, write_inbound) at (rw (eq, held, datagram_to_tun) at wrote))) [ ]
        | inr (src, from) ↦
            let put = rw (from, write_inbound) at (rw (eq, held, datagram_to_tun) at wrote) in
            elim (Bool-cases (str_eq (addr_string src) es.client_ip)) [
              | inl same ↦
                  let whole : pkt ≡ out = some_inj (rw same at put) in
                  (
                    sid,
                    es,
                    src,
                    rw (← whole) eq,
                    held,
                    rw (← whole) from,
                    (eq_iff (addr_string src) es.client_ip).0 same,
                  )
              | inr differs ↦ elim (none_ne (rw differs at put)) [ ]
            ]
      ]
    ]
  ]

-- A session is still there after a datagram of its own.
session_stays :
    {S G A : Type 0} (addr_from4 : ℕ → ℕ → ℕ → ℕ → A) (addr_string : A → String) (e : Exit S G A)
    (dg : Bytes) (sid : ℕ) (es : ExitSession S G) (pkt : Bytes)
    → decode_datagram dg ≡ decoded sid pkt
    → lookup sid e.sessions ≡ some es
    → (fs : ExitSession S G) × (lookup sid (datagram_to_tun addr_from4 addr_string e dg).0.sessions
        ≡ some fs)
      × (fs.client_ip ≡ es.client_ip)
unfolding datagram_to_tun
session_stays addr_from4 addr_string e dg sid es pkt from held =
    let fs = (write_inbound addr_from4 addr_string es pkt).0 in
    (
      fs,
      rw (from, held, datagram_to_tun)
          (rw (lookup-insert sid sid fs e.sessions, (==_iff sid sid).1 refl) refl),
      write_inbound-keeps addr_from4 addr_string es pkt,
    )

module _ {S G A R E : Type 0} ⦃k : Key A⦄ (c : Calls S G A R E) where
  -- Whatever has happened since the exit was bound to its broker connection: a packet that is sent
  -- for a session has the address of that session as its destination.
  pub reply_to_owner :
      (e0 : Exit S G A) (conn : S) (steps : List (Step S R)) (now : ℕ) (pkt : Bytes) (sid : ℕ)
      (r : SendResult S E)
      → let e = run c (bind e0 conn) steps in
        (tun_to_datagram c.addr_from4 c.send_datagram e now pkt).1 ≡ some (sid, r)
        → (es : ExitSession S G) × (lookup sid e.sessions ≡ some es)
          × (ipv4_dst c.addr_from4 pkt ≡ c.parse_addr es.client_ip)
  reply_to_owner e0 conn steps now pkt sid r sent =
      let e = run c (bind e0 conn) steps in
      let (dst, to, leads) =
        tun_to_datagram_found c.addr_from4 c.send_datagram e now pkt sid r sent in
      let there = run-IsRouted c (bind e0 conn) steps (bind-IsRouted c e0 conn) dst sid leads in
      (there.holder, there.held, to ∙ sym there.address)

  -- The session that a table leads to is the one that a packet is sent for.
  reply_sent :
      (e : Exit S G A) (now : ℕ) (pkt : Bytes) (dst : A) (sid : ℕ) (es : ExitSession S G)
      → ipv4_dst c.addr_from4 pkt ≡ some dst
      → lookup dst e.by_ip ≡ some sid
      → lookup sid e.sessions ≡ some es
      → (tun_to_datagram c.addr_from4 c.send_datagram e now pkt).1
        ≡ some (sid, (send c.send_datagram es.sess now pkt).1)
  unfolding tun_to_datagram
  reply_sent e now pkt dst sid es to leads held = rw (to, leads, held, tun_to_datagram) refl

  -- A packet that the exit writes to the TUN came in a datagram with the id of a session of its
  -- table, and as long as no SessionStart named an address that another session had then, the next
  -- packet whose destination is that packet's source is sent for that session.
  pub return_path :
      (e0 : Exit S G A) (conn : S) (steps : List (Step S R)) (dg out : Bytes) (now : ℕ)
      (reply : Bytes)
      → ((a : A) → c.parse_addr (c.addr_string a) ≡ some a)
      → AllFresh c (bind e0 conn) steps
      → let e = run c (bind e0 conn) steps in
        let (e', w) = datagram_to_tun c.addr_from4 c.addr_string e dg in
        w ≡ some out
        → ipv4_dst c.addr_from4 reply ≡ ipv4_src c.addr_from4 out
        → (sid : ℕ) × (r : SendResult S E) × (decode_datagram dg ≡ decoded sid out)
          × ((tun_to_datagram c.addr_from4 c.send_datagram e' now reply).1 ≡ some (sid, r))
  return_path e0 conn steps dg out now reply inverse fresh wrote back =
      let e = run c (bind e0 conn) steps in
      let full = run-IsFull c (bind e0 conn) steps (bind-IsFull c e0 conn) fresh in
      let (sid, es, src, from, held, source, same) =
        datagram_to_tun_wrote c.addr_from4 c.addr_string e dg out wrote in
      let (fs, held', same') = session_stays c.addr_from4 c.addr_string e dg sid es out from held in
      let there = receive-IsFull c e dg full sid fs held' in
      let meet : src ≡ there.addr =
        some_inj (sym (inverse src) ∙ ap c.parse_addr (same ∙ sym same') ∙ there.address) in
      (sid, _, from, reply_sent _ now reply src sid fs (back ∙ source) (rw meet there.leads) held')

-- Through the broker and the exit: a packet that any other client's connection sends under the id of
-- a session, with the session's address as its source, is written to the exit's TUN like the packets
-- of the session's own client.
pub stranger_reaches_tun :
    {S G A : Type 0} (addr_from4 : ℕ → ℕ → ℕ → ℕ → A) (addr_string : A → String) (b : Broker)
    (s : Filed) (stranger sid : ℕ) (pkt : Bytes) (src : A) (e : Exit S G A) (es : ExitSession S G)
    → sid < 2 ^ 64
    → lookup sid b.sessions ≡ some s
    → stranger ≢ s.client
    → lookup sid e.sessions ≡ some es
    → ipv4_src addr_from4 pkt ≡ some src
    → addr_string src ≡ es.client_ip
    → (dg : Bytes) × (relay b (client_conn stranger) (encode_datagram sid pkt)
        ≡ add_bytes sid true (length pkt) ∷ datagram_to_exit s.exit dg ∷ [])
      × ((datagram_to_tun addr_from4 addr_string e dg).1 ≡ some pkt)
unfolding datagram_to_tun write_inbound
stranger_reaches_tun addr_from4 addr_string b s stranger sid pkt src e es word held other there
      source same =
    (
      encode_datagram sid pkt,
      (relay_injects b sid s stranger pkt word held other).1,
      rw (decode_datagram-encode_datagram sid pkt word, there, datagram_to_tun)
          (rw (source, write_inbound) (rw ((eq_iff (addr_string src) es.client_ip).1 same) refl)),
    )
