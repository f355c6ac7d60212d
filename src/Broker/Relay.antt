-- ===== src/Broker/Relay.antt =====
-- relayLoop of cmd/revquic-broker/main.go: which datagram goes where.
use revquic.Prelude.{ℕ, ◌≡◌, ◌≢◌, ◌<◌, ◌^◌, refl, true, false, some, [], ◌∷◌, length, ==_iff}
use revquic.Prelude.Assoc.{lookup, nat_key}
use revquic.Proto.Datagram.{Bytes, encode_datagram, decode_datagram-encode_datagram}
use revquic.Broker.{
  Broker, Session, add_bytes, datagram_to_exit, datagram_to_client, client_conn, exit_conn, relay,
}

-- A packet that the exit of a session sends for it reaches the session's client, and one that its
-- client sends reaches its exit, each as the very datagram that was sent, and each is counted with
-- its length for its direction.
pub relay_forwards :
    (b : Broker) (sid : ℕ) (s : Session) (pkt : Bytes)
    → sid < 2 ^ 64
    → lookup sid b.sessions ≡ some s
    → (relay b (exit_conn s.exit) (encode_datagram sid pkt)
        ≡ add_bytes sid false (length pkt)
          ∷ datagram_to_client s.client (encode_datagram sid pkt)
          ∷ [])
      × (relay b (client_conn s.client) (encode_datagram sid pkt)
          ≡ add_bytes sid true (length pkt)
            ∷ datagram_to_exit s.exit (encode_datagram sid pkt)
            ∷ [])
unfolding relay
relay_forwards b sid s pkt word held =
    let decoding = decode_datagram-encode_datagram sid pkt word in
    (
      rw (decoding, held, (==_iff s.exit s.exit).1 refl, relay) refl,
      rw (decoding, held, relay) refl,
    )

-- The relay does not look at which client sent a datagram: what one client connection sends under the
-- id of another client's session reaches that session's exit like the packets of its own client.
pub relay_injects :
    (b : Broker) (sid : ℕ) (s : Session) (stranger : ℕ) (pkt : Bytes)
    → sid < 2 ^ 64
    → lookup sid b.sessions ≡ some s
    → stranger ≢ s.client
    → (relay b (client_conn stranger) (encode_datagram sid pkt)
        ≡ relay b (client_conn s.client) (encode_datagram sid pkt))
      × (relay b (client_conn stranger) (encode_datagram sid pkt)
          ≡ add_bytes sid true (length pkt)
            ∷ datagram_to_exit s.exit (encode_datagram sid pkt)
            ∷ [])
unfolding relay
relay_injects b sid s stranger pkt word held other =
    let decoding = decode_datagram-encode_datagram sid pkt word in
    (refl, rw (decoding, held, relay) refl)
