-- ===== src/Exit/Demux.antt =====
-- Where the address table of cmd/revquic-exit/main.go leads, as sessions come and go.
pub mod Run
use revquic.Prelude.{
  none_ne, some_inj, ℕ, ◌≡◌, ◌≢◌, ◌⊎◌, refl, sym, ◌∙◌, inl, inr, true, false, Option, none, some,
  List, [], ◌∷◌, String, arith, Option-cases, Bool-cases, ==_iff, ◌==◌, str_eq,
}
use revquic.Prelude.Assoc.{Key, lookup, insert, delete, lookup-insert, lookup-delete, nat_key}
use revquic.Proto.Datagram.{Bytes, Decoded, decode_datagram, decoded, short_datagram}
use revquic.Session.{send}
use revquic.Exit.{
  Exit, ExitSession, ExitMessage, session_start, session_suspend, session_end, pong, signal,
  unhandled, bind, unbind, at_session, push_signal, open_sess, add_session, remove_session,
  forget_ip, control, new_exit_session, Start,
}
use revquic.Exit.Packet.{ipv4_dst}
use revquic.Exit.Pump.{write_inbound, datagram_to_tun, tun_to_datagram}
use revquic.Exit.Steps.{Step, Calls, binds, unbinds, controls, receives, replies, step, run}

module _ {S G A : Type 0} ⦃k : Key A⦄ (parse_addr : String → Option A) where
  -- An entry of the address table leads to a session that is there and has that address.
  pub record Leads (e : Exit S G A) (a : A) (sid : ℕ) : Type 0 where
    pub holder : ExitSession S G
    pub held : lookup sid e.sessions ≡ some holder
    pub address : parse_addr holder.client_ip ≡ some a

  abbrev pub IsRouted : Exit S G A → Type 0
  IsRouted e = (a : A) (sid : ℕ) → lookup a e.by_ip ≡ some sid → Leads e a sid

  -- A session is replaced by one with the same address.
  pub replace-Leads :
      (e : Exit S G A) (sid : ℕ) (es es' : ExitSession S G) (a : A) (n : ℕ)
      → Leads e a n
      → lookup sid e.sessions ≡ some es
      → es'.client_ip ≡ es.client_ip
      → Leads (record e { sessions = insert sid es' e.sessions }) a n
  replace-Leads e sid es es' a n old held same = elim (Bool-cases (sid == n)) [
    | inl eq ↦ record {
      holder = es';
      held = rw (lookup-insert sid n es' e.sessions, eq) refl;
      address =
          let meet : some es ≡ some old.holder = rw (← (==_iff sid n).0 eq) (sym held) ∙ old.held in
          rw (same, some_inj meet) old.address;
    }
    | inr ne ↦ record {
      holder = old.holder;
      held = rw (lookup-insert sid n es' e.sessions, ne) old.held;
      address = old.address;
    }
  ]

  pub at_session-IsRouted :
      (e : Exit S G A) (sid : ℕ) (f : ExitSession S G → ExitSession S G)
      → IsRouted e
      → ((es : ExitSession S G) → (f es).client_ip ≡ es.client_ip)
      → IsRouted (at_session e sid f)
  unfolding at_session
  at_session-IsRouted e sid f routed same = elim (Option-cases (lookup sid e.sessions)) [
    | inl absent ↦ rw (absent, at_session) routed
    | inr (es, held) ↦
        rw (held, at_session)
          (λ a n to. replace-Leads e sid es (f es) a n (routed a n to) held (same es))
  ]

  -- A session that is not there yet is entered with its address.
  enter-IsRouted :
      (e : Exit S G A) (ip : A) (sid : ℕ) (es : ExitSession S G)
      → IsRouted e
      → lookup sid e.sessions ≡ none
      → parse_addr es.client_ip ≡ some ip
      → IsRouted (record e { sessions = insert sid es e.sessions; by_ip = insert ip sid e.by_ip })
  enter-IsRouted e ip sid es routed absent parsed a n to = elim (Bool-cases (k.beq ip a)) [
    | inl here ↦
        let same : sid ≡ n = some_inj (rw (lookup-insert ip a sid e.by_ip, here) at to) in
        record {
          holder = es;
          held = rw (lookup-insert sid n es e.sessions, (==_iff sid n).1 same) refl;
          address = rw (← (k.beq_iff ip a).0 here) parsed;
        }
    | inr elsewhere ↦
        let old = routed a n (rw (lookup-insert ip a sid e.by_ip, elsewhere) at to) in
        let other : (sid == n) ≡ false = elim (Bool-cases (sid == n)) [
          | inl eq ↦
              let meet : none ≡ some old.holder =
                sym absent ∙ rw (← (==_iff sid n).0 eq) at old.held in
              cc
          | inr ne ↦ ne
        ] in
        record {
          holder = old.holder;
          held = rw (lookup-insert sid n es e.sessions, other) old.held;
          address = old.address;
        }
  ]

  leave-Leads :
      (e : Exit S G A) (sid : ℕ) (m : List (A × ℕ)) (a : A) (n : ℕ)
      → Leads e a n
      → (sid == n) ≡ false
      → Leads (record e { sessions = delete sid e.sessions; by_ip = m }) a n
  leave-Leads e sid m a n old other = record {
    holder = old.holder;
    held = rw (lookup-delete sid n e.sessions, other) old.held;
    address = old.address;
  }

  -- An entry that leads to a session with no such address leads to another session.
  other_session :
      (e : Exit S G A) (sid n : ℕ) (a : A)
      → Leads e a n
      → ((es : ExitSession S G)
          → lookup sid e.sessions ≡ some es
          → parse_addr es.client_ip ≢ some a)
      → (sid == n) ≡ false
  other_session e sid n a old foreign = elim (Bool-cases (sid == n)) [
    | inl eq ↦ elim (foreign old.holder (rw ((==_iff sid n).0 eq) old.held) old.address) [ ]
    | inr ne ↦ ne
  ]

  pub remove_session-IsRouted :
      (e : Exit S G A) (sid : ℕ) → IsRouted e → IsRouted (remove_session parse_addr e sid)
  unfolding remove_session forget_ip
  remove_session-IsRouted e sid routed = elim (Option-cases (lookup sid e.sessions)) [
    | inl absent ↦
        rw (absent, remove_session)
          (λ a n to.
            let old = routed a n to in
            leave-Leads e sid e.by_ip a n old (
              other_session e sid n a old
                (λ es held _. let bad : none ≡ some es = sym absent ∙ held in cc)))
    | inr (es, held) ↦ elim (Option-cases (parse_addr es.client_ip)) [
      | inl nothing ↦
          rw (held, remove_session)
            (rw (nothing, forget_ip)
              (λ a n to.
                let old = routed a n to in
                leave-Leads e sid e.by_ip a n old (
                  other_session e sid n a old (λ es' held' parsed.
                    let same : es ≡ es' = some_inj (sym held ∙ held') in
                    let bad : none ≡ some a = sym nothing ∙ rw same parsed in cc))))
      | inr (ip, parsed) ↦
          rw (held, remove_session)
            (rw (parsed, forget_ip)
              (λ a n to. elim (Bool-cases (k.beq ip a)) [
                | inl here ↦
                    let bad : none ≡ some n = rw (lookup-delete ip a e.by_ip, here) at to in cc
                | inr elsewhere ↦
                    let old = routed a n (rw (lookup-delete ip a e.by_ip, elsewhere) at to) in
                    leave-Leads e sid (delete ip e.by_ip) a n old (
                      other_session e sid n a old (λ es' held' parsed'.
                        let same : es ≡ es' = some_inj (sym held ∙ held') in
                        let meet : ip ≡ a = some_inj (sym parsed ∙ rw same parsed') in
                        let bad : true ≡ false = sym ((k.beq_iff ip a).1 meet) ∙ elsewhere in cc))
              ]))
    ]
  ]

  pub add_session-IsRouted :
      (e : Exit S G A) (msg : Start) (now : ℕ)
      → IsRouted e
      → IsRouted (add_session parse_addr e msg now).0
  unfolding add_session new_exit_session
  add_session-IsRouted e msg now routed = elim (Option-cases (parse_addr msg.client_ip)) [
    | inl bad ↦ rw (bad, add_session) routed
    | inr (ip, parsed) ↦ elim (Option-cases (lookup msg.session_id e.sessions)) [
      | inr (es, held) ↦
          rw (parsed, held, add_session)
            (λ a n to.
              replace-Leads e msg.session_id es (record es { suspended = false }) a n
                (routed a n to) held refl)
      | inl absent ↦ elim (Option-cases (open_sess e msg.session_id)) [
        | inl refused ↦ rw (parsed, absent, refused, add_session) routed
        | inr (sess, started) ↦
            rw (parsed, absent, started, add_session)
              (enter-IsRouted e ip msg.session_id (new_exit_session sess msg now) routed absent
                parsed)
      ]
    ]
  ]
