-- ===== src/Exit/Routing.antt =====
-- The address table of cmd/revquic-exit/main.go has every session, when the broker gives no address
-- to two sessions at once.
pub mod Run
use revquic.Prelude.{
  none_ne, some_inj, ℕ, ◌≡◌, ◌≢◌, refl, sym, ◌∙◌, inl, inr, true, false, Option, none, some, List,
  [], ◌∷◌, String, arith, Option-cases, Bool-cases, ==_iff, ◌==◌,
}
use revquic.Prelude.Assoc.{Key, lookup, insert, delete, lookup-insert, lookup-delete, nat_key}
use revquic.Proto.Datagram.{Bytes}
use revquic.Session.{send}
use revquic.Exit.{
  Exit, ExitSession, ExitMessage, session_start, session_suspend, session_end, pong, signal,
  unhandled, bind, unbind, at_session, push_signal, open_sess, add_session, remove_session,
  forget_ip, control, new_exit_session, Start,
}
use revquic.Exit.Packet.{ipv4_dst}
use revquic.Exit.Pump.{write_inbound, datagram_to_tun, tun_to_datagram}
use revquic.Exit.Steps.{Step, Calls, binds, unbinds, controls, receives, replies, step, run}
use revquic.Exit.Demux.Run.{decode_cases, write_inbound-keeps}

module _ {S G A : Type 0} ⦃k : Key A⦄ (parse_addr : String → Option A) where
  -- The address of a session leads to it.
  pub record IsReached (e : Exit S G A) (sid : ℕ) (es : ExitSession S G) : Type 0 where
    pub addr : A
    pub address : parse_addr es.client_ip ≡ some addr
    pub leads : lookup addr e.by_ip ≡ some sid

  abbrev pub IsFull : Exit S G A → Type 0
  IsFull e = (sid : ℕ) (es : ExitSession S G) → lookup sid e.sessions ≡ some es → IsReached e sid es

  -- A new session's address is not that of another session.
  abbrev pub IsFresh : Exit S G A → Start → Type 0
  IsFresh e msg =
      (sid : ℕ) (es : ExitSession S G)
      → lookup sid e.sessions ≡ some es
      → sid ≢ msg.session_id
      → parse_addr es.client_ip ≢ parse_addr msg.client_ip

  pub replace-IsReached :
      (e : Exit S G A) (sid : ℕ) (es es' : ExitSession S G) (n : ℕ) (fs : ExitSession S G)
      → IsFull e
      → lookup sid e.sessions ≡ some es
      → es'.client_ip ≡ es.client_ip
      → lookup n (insert sid es' e.sessions) ≡ some fs
      → IsReached (record e { sessions = insert sid es' e.sessions }) n fs
  replace-IsReached e sid es es' n fs full held same at_n = elim (Bool-cases (sid == n)) [
    | inl eq ↦
        let old = full sid es held in
        let new : es' ≡ fs = some_inj (rw (lookup-insert sid n es' e.sessions, eq) at at_n) in
        record {
          addr = old.addr;
          address = rw (← new, same) old.address;
          leads = rw (← (==_iff sid n).0 eq) old.leads;
        }
    | inr ne ↦
        let old = full n fs (rw (lookup-insert sid n es' e.sessions, ne) at at_n) in
        record { addr = old.addr; address = old.address; leads = old.leads }
  ]

  pub at_session-IsFull :
      (e : Exit S G A) (sid : ℕ) (f : ExitSession S G → ExitSession S G)
      → IsFull e
      → ((es : ExitSession S G) → (f es).client_ip ≡ es.client_ip)
      → IsFull (at_session e sid f)
  unfolding at_session
  at_session-IsFull e sid f full same = elim (Option-cases (lookup sid e.sessions)) [
    | inl absent ↦ rw (absent, at_session) full
    | inr (es, held) ↦
        rw (held, at_session)
          (λ n fs at_n. replace-IsReached e sid es (f es) n fs full held (same es) at_n)
  ]

  enter-IsFull :
      (e : Exit S G A) (ip : A) (msg : Start) (es : ExitSession S G)
      → IsFull e
      → IsFresh e msg
      → parse_addr msg.client_ip ≡ some ip
      → parse_addr es.client_ip ≡ some ip
      → IsFull (record e {
        sessions = insert msg.session_id es e.sessions;
        by_ip = insert ip msg.session_id e.by_ip;
      })
  enter-IsFull e ip msg es full fresh asked parsed n fs at_n =
      let sid = msg.session_id in
      elim (Bool-cases (sid == n)) [
        | inl eq ↦
            let new : es ≡ fs = some_inj (rw (lookup-insert sid n es e.sessions, eq) at at_n) in
            record {
              addr = ip;
              address = rw (← new) parsed;
              leads =
                  rw
                    (lookup-insert ip ip sid e.by_ip, (k.beq_iff ip ip).1 refl, (==_iff sid n).0 eq)
                    refl;
            }
        | inr ne ↦
            let there = rw (lookup-insert sid n es e.sessions, ne) at at_n in
            let old = full n fs there in
            let other : n ≢ sid =
              λ eq. let bad : true ≡ false = sym ((==_iff sid n).1 (sym eq)) ∙ ne in cc in
            let apart : k.beq ip old.addr ≡ false = elim (Bool-cases (k.beq ip old.addr)) [
              | inl eq ↦
                  elim (fresh n fs there other
                    (old.address ∙ rw (← (k.beq_iff ip old.addr).0 eq) (sym asked))) [ ]
              | inr ne ↦ ne
            ] in
            record {
              addr = old.addr;
              address = old.address;
              leads = rw (lookup-insert ip old.addr sid e.by_ip, apart) old.leads;
            }
      ]

  -- A session that stays after a removal is another one, and keeps its entry.
  stays :
      (e : Exit S G A) (sid n : ℕ) (fs : ExitSession S G)
      → lookup n (delete sid e.sessions) ≡ some fs
      → (lookup n e.sessions ≡ some fs) × ((sid == n) ≡ false)
  stays e sid n fs at_n = elim (Bool-cases (sid == n)) [
    | inl eq ↦ elim (none_ne (rw (lookup-delete sid n e.sessions, eq) at at_n)) [ ]
    | inr ne ↦ (rw (lookup-delete sid n e.sessions, ne) at at_n, ne)
  ]

  pub remove_session-IsFull :
      (e : Exit S G A) (sid : ℕ) → IsFull e → IsFull (remove_session parse_addr e sid)
  unfolding remove_session forget_ip
  remove_session-IsFull e sid full = elim (Option-cases (lookup sid e.sessions)) [
    | inl absent ↦
        rw (absent, remove_session)
          (λ n fs at_n.
            let old = full n fs (stays e sid n fs at_n).0 in
            record { addr = old.addr; address = old.address; leads = old.leads })
    | inr (es, held) ↦
        let gone = full sid es held in
        rw (held, remove_session)
          (rw (gone.address, forget_ip)
            (λ n fs at_n.
              let (there, ne) = stays e sid n fs at_n in
              let old = full n fs there in
              let apart : k.beq gone.addr old.addr ≡ false =
                elim (Bool-cases (k.beq gone.addr old.addr)) [
                  | inl eq ↦
                      let same : sid ≡ n =
                        some_inj
                          (sym gone.leads ∙ rw ((k.beq_iff gone.addr old.addr).0 eq) old.leads) in
                      let bad : true ≡ false = sym ((==_iff sid n).1 same) ∙ ne in cc
                  | inr other ↦ other
                ] in
              record {
                addr = old.addr;
                address = old.address;
                leads = rw (lookup-delete gone.addr old.addr e.by_ip, apart) old.leads;
              }))
  ]

  pub add_session-IsFull :
      (e : Exit S G A) (msg : Start) (now : ℕ)
      → IsFull e
      → IsFresh e msg
      → IsFull (add_session parse_addr e msg now).0
  unfolding add_session new_exit_session
  add_session-IsFull e msg now full fresh = elim (Option-cases (parse_addr msg.client_ip)) [
    | inl bad ↦ rw (bad, add_session) full
    | inr (ip, parsed) ↦ elim (Option-cases (lookup msg.session_id e.sessions)) [
      | inr (es, held) ↦
          rw (parsed, held, add_session)
            (λ n fs at_n.
              replace-IsReached e msg.session_id es (record es { suspended = false }) n fs full held
                refl at_n)
      | inl absent ↦ elim (Option-cases (open_sess e msg.session_id)) [
        | inl refused ↦ rw (parsed, absent, refused, add_session) full
        | inr (sess, started) ↦
            rw (parsed, absent, started, add_session)
              (enter-IsFull e ip msg (new_exit_session sess msg now) full fresh parsed parsed)
      ]
    ]
  ]
