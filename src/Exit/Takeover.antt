-- ===== src/Exit/Takeover.antt =====
-- Two sessions with one address at the exit of cmd/revquic-exit/main.go.
use revquic.Prelude.{
  ℕ, ◌≡◌, ◌≢◌, refl, sym, ◌∙◌, inl, inr, false, Option, none, some, String, Bool-cases, ==_iff,
  ◌==◌,
}
use revquic.Prelude.Assoc.{Key, lookup, insert, lookup-insert, lookup-delete, nat_key, beq_self}
use revquic.Proto.Datagram.{Bytes}
use revquic.DirectPath.State.{fire, transitions, new_machine}
use revquic.Session.{Session, new_session, start_relay_path, migrate, fire_machine, set_path}
use revquic.Exit.{
  Exit, ExitSession, Start, add_session, remove_session, open_sess, new_exit_session, forget_ip,
}
use revquic.Exit.Packet.{ipv4_dst}
use revquic.Exit.Pump.{tun_to_datagram}

pub ==_of_ne : (a b : ℕ) → a ≢ b → (a == b) ≡ false
==_of_ne a b ne = elim (Bool-cases (a == b)) [
  | inl eq ↦ elim (ne ((==_iff a b).0 eq)) [ ]
  | inr other ↦ other
]

open_sess-some :
    {S G A : Type 0} (e : Exit S G A) (sid : ℕ) → (sess : Session S) × (open_sess e sid ≡ some sess)
unfolding open_sess new_session start_relay_path migrate fire_machine set_path fire transitions
    new_machine
open_sess-some e sid = (_, refl)

module _ {S G A E : Type 0} ⦃k : Key A⦄ (parse_addr : String → Option A) where
  unknown_address :
      (addr_from4 : ℕ → ℕ → ℕ → ℕ → A) (send_datagram : S → Bytes → Option E) (e : Exit S G A)
      (now : ℕ) (pkt : Bytes) (ip : A)
      → ipv4_dst addr_from4 pkt ≡ some ip
      → lookup ip e.by_ip ≡ none
      → tun_to_datagram addr_from4 send_datagram e now pkt ≡ (e, none)
  unfolding tun_to_datagram
  unknown_address addr_from4 send_datagram e now pkt ip eq absent =
      rw (eq, absent, tun_to_datagram) refl

  -- While a session holds an address, a SessionStart for another session with the same address is
  -- accepted; the SessionEnd of the first one then takes the address away from the second, which
  -- stays in the table but gets no packet any more: tunToDatagram drops whatever is sent to it.
  pub takeover_drops :
      (addr_from4 : ℕ → ℕ → ℕ → ℕ → A) (send_datagram : S → Bytes → Option E) (e : Exit S G A)
      (older : ℕ) (es : ExitSession S G) (msg : Start) (ip : A) (started now : ℕ) (pkt : Bytes)
      → lookup older e.sessions ≡ some es
      → parse_addr es.client_ip ≡ some ip
      → parse_addr msg.client_ip ≡ some ip
      → lookup msg.session_id e.sessions ≡ none
      → ipv4_dst addr_from4 pkt ≡ some ip
      → let e' = remove_session parse_addr (add_session parse_addr e msg started).0 older in
        ((fs : ExitSession S G) × (lookup msg.session_id e'.sessions ≡ some fs))
        × (tun_to_datagram addr_from4 send_datagram e' now pkt ≡ (e', none))
  unfolding add_session remove_session
  takeover_drops addr_from4 send_datagram e older es msg ip started now pkt held old new absent to =
      let sid = msg.session_id in
      let (sess, opened) = open_sess-some e sid in
      let fs : ExitSession S G = new_exit_session sess msg started in
      let apart : older ≢ sid = λ eq. let bad : none ≡ some es = sym absent ∙ rw eq at held in cc in
      let still : lookup older (insert sid fs e.sessions) ≡ some es =
        rw (lookup-insert sid older fs e.sessions, ==_of_ne sid older (λ eq. apart (sym eq)))
          held in
      rw (new, absent, opened, add_session)
        (
          (
            fs,
            rw
                (
                  lookup-delete older sid (insert sid fs e.sessions),
                  ==_of_ne older sid apart,
                  lookup-insert sid sid fs e.sessions,
                  (==_iff sid sid).1 refl,
                )
                refl,
          ),
          unknown_address addr_from4 send_datagram _ now pkt ip to (
              rw (still, forget_ip)
                (rw (old, lookup-delete ip ip (insert ip sid e.by_ip), beq_self ip) refl)),
        )
