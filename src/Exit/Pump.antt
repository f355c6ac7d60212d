-- ===== src/Exit/Pump.antt =====
-- The packet pumps of cmd/revquic-exit/main.go: writeInbound, datagramToTun and tunToDatagram.
-- AddrFrom4 and Addr.String of net/netip, and the sender, are parameters.
use revquic.Prelude.{ℕ, Option, none, some, String, str_eq, length, if◌then◌else◌}
use revquic.Prelude.Assoc.{Key, lookup, insert, nat_key}
use revquic.Proto.Datagram.{Bytes, decoded, short_datagram, decode_datagram}
use revquic.Session.{SendResult, add_u64, send}
use revquic.Exit.{Exit, ExitSession}
use revquic.Exit.Packet.{ipv4_src, ipv4_dst}

module _ {S G A : Type 0} where
  -- writeInbound, with what it writes to the TUN.
  unfoldable pub write_inbound :
      (ℕ → ℕ → ℕ → ℕ → A) → (A → String) → ExitSession S G → Bytes → ExitSession S G × Option Bytes
  write_inbound addr_from4 addr_string es pkt = elim (ipv4_src addr_from4 pkt) [
    | none ↦ (es, none)
    | some src ↦
        if str_eq (addr_string src) es.client_ip
        then (record es { bytes_up = add_u64 es.bytes_up (length pkt) }, some pkt)
        else (es, none)
  ]

  -- One round of datagramToTun.
  unfoldable pub datagram_to_tun :
      (ℕ → ℕ → ℕ → ℕ → A) → (A → String) → Exit S G A → Bytes → Exit S G A × Option Bytes
  unfolding write_inbound
  datagram_to_tun addr_from4 addr_string e dg = elim (decode_datagram dg) [
    | short_datagram _ ↦ (e, none)
    | decoded sid pkt ↦ elim (lookup sid e.sessions) [
      | none ↦ (e, none)
      | some es ↦
          let (es', out) = write_inbound addr_from4 addr_string es pkt in
          (record e { sessions = insert sid es' e.sessions }, out)
    ]
  ]

  -- One round of tunToDatagram at the time `now`, with the session that the packet is sent for.
  unfoldable pub tun_to_datagram :
      {E : Type 0}
      → ⦃k : Key A⦄ → (ℕ → ℕ → ℕ → ℕ → A)
      → (S → Bytes → Option E)
      → Exit S G A
      → ℕ
      → Bytes
      → Exit S G A × Option (ℕ × SendResult S E)
  tun_to_datagram addr_from4 send_datagram e now pkt = elim (ipv4_dst addr_from4 pkt) [
    | none ↦ (e, none)
    | some dst ↦ elim (lookup dst e.by_ip) [
      | none ↦ (e, none)
      | some sid ↦ elim (lookup sid e.sessions) [
        | none ↦ (e, none)
        | some es ↦
            let (sess, r) = send send_datagram es.sess now pkt in
            (
              record e { sessions = insert sid (record es { sess = sess }) e.sessions },
              some (sid, r),
            )
      ]
    ]
  ]
