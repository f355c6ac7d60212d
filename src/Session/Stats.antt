-- ===== src/Session/Stats.antt =====
-- What Send of internal/session/session.go puts on the wire and counts.
use revquic.Prelude.{ℕ, ◌+◌, ◌^◌, ◌<◌, ◌≡◌, Option, some, List, [], ◌∷◌, arith, length}
use revquic.Proto.Datagram.{Bytes, decoded, decode_datagram, decode_datagram-encode_datagram}
use revquic.Session.{Session, SendResult, rate_limited, sent, relay_encode, add_u64, send}

-- What a caller of Send has seen: the bytes and the number of the packets that went out, and the
-- number of those that were refused by the limiter.
pub record Tally : Type 0 where
  pub bytes : ℕ
  pub packets : ℕ
  pub limited : ℕ

abbrev pub no_calls : Tally
no_calls = record { bytes = 0; packets = 0; limited = 0 }

abbrev pub add_tally : Tally → Tally → Tally
add_tally t u = record {
  bytes = t.bytes + u.bytes;
  packets = t.packets + u.packets;
  limited = t.limited + u.limited;
}

abbrev pub outcome : {S E : Type 0} → SendResult S E → Bytes → Tally
outcome (sent _ _) pkt = record { bytes = length pkt; packets = 1; limited = 0 }
outcome rate_limited pkt = record { bytes = 0; packets = 0; limited = 1 }
outcome _ pkt = record { bytes = 0; packets = 0; limited = 0 }

module _ {S E : Type 0} (send_datagram : S → Bytes → Option E) where
  -- Several calls of Send, each with its time and packet.
  unfoldable pub send_all : Session S → List (ℕ × Bytes) → Session S × Tally
  send_all s [] = (s, no_calls)
  send_all s ((now, pkt) ∷ rest) =
      let (s', r) = send send_datagram s now pkt in
      let (s'', t) = send_all s' rest in (s'', add_tally (outcome r pkt) t)

  -- A session's counters are those of another after some outcomes, as 64-bit words.
  pub record Adds (s s' : Session S) (t : Tally) : Type 0 where
    pub bytes_added : s'.bytes_sent ≡ add_u64 s.bytes_sent t.bytes
    pub packets_added : s'.pkts_sent ≡ add_u64 s.pkts_sent t.packets
    pub drops_added : s'.drops ≡ add_u64 s.drops t.limited

  pub record IsU64 (s : Session S) : Type 0 where
    pub bytes_word : s.bytes_sent < 2 ^ 64
    pub packets_word : s.pkts_sent < 2 ^ 64
    pub drops_word : s.drops < 2 ^ 64

  pub send-Adds :
      (s : Session S) (now : ℕ) (pkt : Bytes)
      → IsU64 s
      → let (s', r) = send send_datagram s now pkt in Adds s s' (outcome r pkt) × IsU64 s'
  unfolding send
  send-Adds s now pkt w = ground arith

  -- Whatever the limiter and the sender answer, the three counters of Stats grow, as 64-bit words, by
  -- exactly the bytes and the number of the packets for which Send returned no error, and by the
  -- number of those that it refused as rate limited.
  pub send_all-Adds :
      (s : Session S) (calls : List (ℕ × Bytes))
      → IsU64 s
      → let (s', t) = send_all s calls in Adds s s' t
  unfolding send_all
  send_all-Adds s [] w = omega arith
  send_all-Adds s ((now, pkt) ∷ rest) w =
      let (here, w') = send-Adds s now pkt w in
      let after = send_all-Adds (send send_datagram s now pkt).0 rest w' in omega arith

  -- Every datagram that a session on its relay path hands to the sender decodes to the session's id
  -- and the packet that was given to Send.
  pub send_relay_decodes :
      (s : Session S) (now : ℕ) (pkt dg : Bytes) (peer : S)
      → s.path.encode ≡ some (relay_encode s.id)
      → s.id < 2 ^ 64
      → (send send_datagram s now pkt).1 ≡ sent peer dg
      → decode_datagram dg ≡ decoded s.id pkt
  unfolding send relay_encode
  send_relay_decodes s now pkt dg peer relayed word out =
      ground (arith, decode_datagram-encode_datagram s.id pkt)
