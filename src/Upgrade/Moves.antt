-- ===== src/Upgrade/Moves.antt =====
-- What the steps of runDirect and the calls of Send meanwhile change of a session.
use revquic.Prelude.{ℕ, ◌≡◌, refl, ap, ◌∙◌, Option, none, List, [], ◌∷◌, arith}
use revquic.Proto.Datagram.{Bytes}
use revquic.DirectPath.State.{PathState, relaying, checking, direct, fire, transitions}
use revquic.Session.{
  EgressPath, Session, add_u64, begin_checking, upgrade_direct, fail_checks, fallback_relay,
  migrate, signal, fire_machine, set_path, send,
}
use revquic.Session.Paths.{send_keeps}
use revquic.Session.Stats.{Tally, no_calls, add_tally, outcome, send_all, IsU64, send-Adds}
use revquic.Upgrade.{LinkEvent, receives, sends, client_events}

-- The datagrams of some events.
abbrev pub received : List LinkEvent → List Bytes
received [] = []
received (receives dg ∷ events) = dg ∷ received events
received (sends _ _ ∷ events) = received events

module _ {S : Type 0} where
  -- The session `s'` is `s` in the state `st` and on the path `p`, with the counters grown by what
  -- the callers of Send have seen, as 64-bit words.
  pub record Moved (s s' : Session S) (st : PathState) (p : EgressPath S) (t : Tally) : Type 0 where
    pub in_state : s'.m.state ≡ st
    pub on_path : s'.path ≡ p
    pub same_id : s'.id ≡ s.id
    pub bytes_added : s'.bytes_sent ≡ add_u64 s.bytes_sent t.bytes
    pub packets_added : s'.pkts_sent ≡ add_u64 s.pkts_sent t.packets
    pub drops_added : s'.drops ≡ add_u64 s.drops t.limited

  -- A step of the state machine that may change the path, and not the counters.
  pub put :
      (s s1 : Session S) (st st' : PathState) (p p' : EgressPath S) (t : Tally)
      → Moved s s1 st p t
      → Moved s (record s1 { m = record { state = st' }; path = p' }) st' p' t
  put s s1 st st' p p' t m = record {
    in_state = refl;
    on_path = refl;
    same_id = m.same_id;
    bytes_added = m.bytes_added;
    packets_added = m.packets_added;
    drops_added = m.drops_added;
  }

  pub chain :
      (s s1 s2 : Session S) (st st' : PathState) (p p' : EgressPath S) (t u : Tally)
      → Moved s s1 st p t
      → Moved s1 s2 st' p' u
      → Moved s s2 st' p' (add_tally t u)
  chain s s1 s2 st st' p p' t u a b = record {
    in_state = b.in_state;
    on_path = b.on_path;
    same_id = b.same_id ∙ a.same_id;
    bytes_added = omega (arith, a.bytes_added, b.bytes_added);
    packets_added = omega (arith, a.packets_added, b.packets_added);
    drops_added = omega (arith, a.drops_added, b.drops_added);
  }

  pub begin_from :
      (s : Session S)
      → s.m.state ≡ relaying
      → begin_checking s ≡ (record s { m = record { state = checking } }, none)
  unfolding begin_checking signal fire_machine fire transitions
  begin_from s h = ground arith

  pub fail_from :
      (s : Session S)
      → s.m.state ≡ checking
      → fail_checks s ≡ (record s { m = record { state = relaying } }, none)
  unfolding fail_checks signal fire_machine fire transitions
  fail_from s h = ground arith

  pub upgrade_from :
      (s : Session S) (p : EgressPath S)
      → s.m.state ≡ checking
      → upgrade_direct s p ≡ (record s { m = record { state = direct }; path = p }, none)
  unfolding upgrade_direct migrate fire_machine set_path fire transitions
  upgrade_from s p h = ground arith

  pub fallback_from :
      (s : Session S) (p : EgressPath S)
      → s.m.state ≡ direct
      → fallback_relay s p ≡ (record s { m = record { state = relaying }; path = p }, none)
  unfolding fallback_relay migrate fire_machine set_path fire transitions
  fallback_from s p h = ground arith

module _ {S E : Type 0} (send_datagram : S → Bytes → Option E) where
  -- A session whose counters are 64-bit words.
  abbrev pub IsWord : Session S → Type 0
  IsWord s = IsU64 send_datagram s

  pub stays : (s : Session S) → IsWord s → Moved s s s.m.state s.path no_calls
  stays s w = record {
    in_state = refl;
    on_path = refl;
    same_id = refl;
    bytes_added = omega (arith, w.bytes_word);
    packets_added = omega (arith, w.packets_word);
    drops_added = omega (arith, w.drops_word);
  }

  pub Moved-IsWord :
      (s s' : Session S) (st : PathState) (p : EgressPath S) (t : Tally)
      → Moved s s' st p t
      → IsWord s'
  Moved-IsWord s s' st p t m = record {
    bytes_word = omega (arith, m.bytes_added);
    packets_word = omega (arith, m.packets_added);
    drops_word = omega (arith, m.drops_added);
  }

  pub send_moves :
      (s : Session S) (now : ℕ) (pkt : Bytes)
      → IsWord s
      → let (s', r) = send send_datagram s now pkt in Moved s s' s.m.state s.path (outcome r pkt)
  send_moves s now pkt w =
      let (m, path, id) = send_keeps send_datagram s now pkt in
      let (adds, _) = send-Adds send_datagram s now pkt w in
      record {
        in_state = ap (λ a. a.state) m;
        on_path = path;
        same_id = id;
        bytes_added = adds.bytes_added;
        packets_added = adds.packets_added;
        drops_added = adds.drops_added;
      }

  pub send_all_moves :
      (s : Session S) (calls : List (ℕ × Bytes))
      → IsWord s
      → let (s', t) = send_all send_datagram s calls in Moved s s' s.m.state s.path t
  unfolding send_all
  send_all_moves s [] w = stays s w
  send_all_moves s ((now, pkt) ∷ calls) w =
      let s1 = (send send_datagram s now pkt).0 in
      let here = send_moves s now pkt w in
      let rest = send_all_moves s1 calls (Moved-IsWord s s1 _ _ _ here) in
      chain s s1 _ _ _ _ _ _ _ here (rw (here.in_state, here.on_path) at rest)

  pub client_events_moves :
      (s : Session S) (events : List LinkEvent)
      → IsWord s
      → let (s', t, outs) = client_events send_datagram s events in
        Moved s s' s.m.state s.path t × (outs ≡ received events)
  unfolding client_events
  client_events_moves s [] w = (stays s w, refl)
  client_events_moves s (receives dg ∷ events) w =
      let (m, outs) = client_events_moves s events w in (m, ap (λ o. dg ∷ o) outs)
  client_events_moves s (sends now pkt ∷ events) w =
      let s1 = (send send_datagram s now pkt).0 in
      let here = send_moves s now pkt w in
      let (rest, outs) = client_events_moves s1 events (Moved-IsWord s s1 _ _ _ here) in
      (chain s s1 _ _ _ _ _ _ _ here (rw (here.in_state, here.on_path) at rest), outs)
