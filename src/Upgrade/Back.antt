-- ===== src/Upgrade/Back.antt =====
-- Where a session sends after runDirect, what its counters have grown by, and what has reached the TUN.
use revquic.Prelude.{
  ℕ, ◌≡◌, refl, sym, ap, ◌∙◌, Bool, true, false, Option, none, some, List, [], subst, if◌then◌else◌,
}
use revquic.Proto.Datagram.{Bytes}
use revquic.DirectPath.State.{relaying, checking, direct}
use revquic.Session.{EgressPath, Session, upgrade_direct, fail_checks, fallback_relay}
use revquic.Session.Stats.{Tally, no_calls, add_tally, send_all, IsU64}
use revquic.Upgrade.{
  LinkEvent, Negotiation, agent_failed, negotiation_failed, connected, events_of, direct_path_on,
  negotiate, client_events, client_direct,
}
use revquic.Upgrade.Moves.{
  received, Moved, put, chain, begin_from, fail_from, upgrade_from, fallback_from, IsWord, stays,
  Moved-IsWord, send_all_moves, client_events_moves,
}

module _ {S E : Type 0} (send_datagram : S → Bytes → Option E) where
  -- The session while ICE runs, and at the end of that.
  abbrev pub checked : Session S → Session S
  checked s = record s { m = record { state = checking } }

  abbrev pub waited : Session S → List (ℕ × Bytes) → Session S
  waited s calls = (send_all send_datagram (checked s) calls).0

  abbrev pub upgraded : Session S → S → Session S
  upgraded s qc = record s { m = record { state = direct }; path = direct_path_on qc }

  pub waited_moves :
      (s : Session S) (calls : List (ℕ × Bytes))
      → IsWord send_datagram s
      → Moved s (waited s calls) checking s.path (send_all send_datagram (checked s) calls).1
  waited_moves s calls w =
      let word : IsWord send_datagram (checked s) = record {
        bytes_word = w.bytes_word;
        packets_word = w.packets_word;
        drops_word = w.drops_word;
      } in
      let m = send_all_moves send_datagram (checked s) calls word in
      record {
        in_state = m.in_state;
        on_path = m.on_path;
        same_id = m.same_id;
        bytes_added = m.bytes_added;
        packets_added = m.packets_added;
        drops_added = m.drops_added;
      }

  pub negotiate_failed :
      (s : Session S) (calls : List (ℕ × Bytes))
      → s.m.state ≡ relaying
      → (waited s calls).m.state ≡ checking
      → negotiate send_datagram s (negotiation_failed calls) ≡ (
        record (waited s calls) { m = record { state = relaying } },
        (send_all send_datagram (checked s) calls).1,
        false,
      )
  unfolding negotiate
  negotiate_failed s calls h on =
      ap
        (λ b.
          let (s2, t) = send_all send_datagram b.0 calls in
          elim b.1 [ some _ ↦ (b.0, no_calls, false) | none ↦ ((fail_checks s2).0, t, false) ])
        (begin_from s h)
      ∙ ap (λ f. (f.0, (send_all send_datagram (checked s) calls).1, false))
          (fail_from (waited s calls) on)

  pub negotiate-connected :
      (s : Session S) (qc : S) (calls : List (ℕ × Bytes)) (events : List LinkEvent)
      → s.m.state ≡ relaying
      → (waited s calls).m.state ≡ checking
      → negotiate send_datagram s (connected qc calls events)
        ≡ (upgraded (waited s calls) qc, (send_all send_datagram (checked s) calls).1, true)
  unfolding negotiate
  negotiate-connected s qc calls events h on =
      ap
        (λ b.
          let (s2, t) = send_all send_datagram b.0 calls in
          let (s3, failed) = upgrade_direct s2 (direct_path_on qc) in
          elim b.1 [
            | some _ ↦ (b.0, no_calls, false)
            | none ↦ (s3, t, elim failed [ some _ ↦ false | none ↦ true ])
          ])
        (begin_from s h)
      ∙ ap
          (λ u. (
            u.0,
            (send_all send_datagram (checked s) calls).1,
            elim u.1 [ some _ ↦ false | none ↦ true ],
          ))
          (upgrade_from (waited s calls) (direct_path_on qc) on)

  pub failed_moves :
      (s : Session S) (calls : List (ℕ × Bytes))
      → IsWord send_datagram s
      → Moved s
          (record (waited s calls) { m = record { state = relaying } })
          relaying
          s.path
          (send_all send_datagram (checked s) calls).1
  failed_moves s calls w =
      let m = waited_moves s calls w in
      let there = put s (waited s calls) _ relaying _ (waited s calls).path _ m in
      subst
        (λ p.
          Moved s (record (waited s calls) { m = record { state = relaying } }) relaying p
            (send_all send_datagram (checked s) calls).1)
        m.on_path there

  pub fallback_moves :
      (s s2 : Session S) (p relay : EgressPath S) (t : Tally)
      → Moved s s2 direct p t
      → Moved s (fallback_relay s2 relay).0 relaying relay t
  fallback_moves s s2 p relay t m =
      subst (λ b. Moved s b relaying relay t)
        (sym (ap (λ r. r.0) (fallback_from s2 relay m.in_state)))
        (put s s2 direct relaying p relay t m)

  -- How the client's runDirect goes on after the negotiation.
  client_rest :
      EgressPath S → List LinkEvent → Session S × Tally × Bool → Session S × Tally × List Bytes
  client_rest relay events (s1, t, on_direct) =
      let (s2, u, outs) = client_events send_datagram s1 events in
      if on_direct then ((fallback_relay s2 relay).0, add_tally t u, outs) else (s1, t, [])

  abbrev IsReturned : Session S → List LinkEvent → Session S × Tally × List Bytes → Type 0
  IsReturned s events (s', t, outs) = Moved s s' relaying s.path t × (outs ≡ received events)

  client_connected :
      (s : Session S) (qc : S) (calls : List (ℕ × Bytes)) (events : List LinkEvent)
      → IsWord send_datagram s
      → IsReturned s events (
          client_rest s.path events
            (upgraded (waited s calls) qc, (send_all send_datagram (checked s) calls).1, true))
  unfolding client_rest
  client_connected s qc calls events w =
      let m = waited_moves s calls w in
      let up = put s (waited s calls) _ direct _ (direct_path_on qc) _ m in
      let (life, outs) =
        client_events_moves send_datagram (upgraded (waited s calls) qc) events
          (Moved-IsWord send_datagram s _ _ _ _ up) in
      (fallback_moves s _ _ s.path _ (chain s _ _ _ _ _ _ _ _ up life), outs)

  -- However the negotiation of the client ends, however long the direct connection lasts and whatever
  -- the TUN pump sends meanwhile, when runDirect of a session on the relay is done the session is on
  -- the relay again, on the same path and under the same id; its counters have grown, as 64-bit
  -- words, by exactly what the calls of Send have seen, and everything that the direct connection
  -- received has gone to the TUN.
  pub client_direct_returns :
      (s : Session S) (result : Negotiation S)
      → IsU64 send_datagram s
      → s.m.state ≡ relaying
      → let (s', t, outs) = client_direct send_datagram s s.path result in
        Moved s s' relaying s.path t × (outs ≡ received (events_of result))
  unfolding client_direct client_rest negotiate
  client_direct_returns s agent_failed w h =
      (subst (λ st. Moved s s st s.path no_calls) h (stays send_datagram s w), refl)
  client_direct_returns s (negotiation_failed calls) w h =
      let m = waited_moves s calls w in
      subst (λ n. IsReturned s [] (client_rest s.path [] n))
        (sym (negotiate_failed s calls h m.in_state)) (failed_moves s calls w, refl)
  client_direct_returns s (connected qc calls events) w h =
      let m = waited_moves s calls w in
      subst (λ n. IsReturned s events (client_rest s.path events n))
        (sym (negotiate-connected s qc calls events h m.in_state))
        (client_connected s qc calls events w)
