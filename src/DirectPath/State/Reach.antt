-- ===== src/DirectPath/State/Reach.antt =====
-- What a run of events can do to a data path (internal/directpath/state.go).
use revquic.Prelude.{◌≡◌, refl, List, [], ◌∷◌, true, arith}
use revquic.DirectPath.State.{
  PathState, Event, Machine, new, relaying, checking, direct, closed, start_relay, begin_checks,
  direct_established, checks_failed, close, transitions, new_machine, fire, is_terminal,
}

-- The events in order, whatever each of them answers.
unfoldable pub fire_all : Machine → List Event → Machine
fire_all m [] = m
fire_all m (ev ∷ evs) = fire_all (fire m ev).0 evs

-- The wanted events occur in the history, in their order, with anything between them.
pub data OccurIn : List Event → List Event → Type 0 where
  all_found : {history : List Event} → OccurIn [] history
  found :
      {w : Event} {ws history : List Event} → OccurIn ws history → OccurIn (w ∷ ws) (w ∷ history)
  later : {ws history : List Event} (ev : Event) → OccurIn ws history → OccurIn ws (ev ∷ history)

closed_stays : (m : Machine) (ev : Event) → m.state ≡ closed → (fire m ev).0 ≡ m
unfolding fire transitions
closed_stays m ev h = ground arith

-- A closed path stays closed: from then on every event is refused and changes nothing.
pub fire_all-closed : (m : Machine) (evs : List Event) → is_terminal m ≡ true → fire_all m evs ≡ m
unfolding fire_all is_terminal
fire_all-closed m [] h = refl
fire_all-closed m (ev ∷ evs) h = rw (closed_stays m ev (ground arith)) (fire_all-closed m evs h)

OccurIn-tail : {w : Event} {ws history : List Event} → OccurIn (w ∷ ws) history → OccurIn ws history
OccurIn-tail (found {w} o) = later w o
OccurIn-tail (later ev o) = later ev (OccurIn-tail o)

-- The events that still lie between a state and the direct path.
abbrev Needs : PathState → List Event → Type 0
Needs new history = OccurIn (start_relay ∷ begin_checks ∷ direct_established ∷ []) history
Needs relaying history = OccurIn (begin_checks ∷ direct_established ∷ []) history
Needs checking history = OccurIn (direct_established ∷ []) history
Needs direct history = Unit {0}
Needs closed history = ⊥

Needs-step :
    (s : PathState) (ev : Event) (history : List Event)
    → Needs (fire (record { state = s }) ev).0.state history
    → Needs s (ev ∷ history)
unfolding fire transitions
Needs-step new start_relay history h = found h
Needs-step new close history h = absurd h
Needs-step new ev history h = later ev h
Needs-step relaying begin_checks history h = found h
Needs-step relaying close history h = absurd h
Needs-step relaying ev history h = later ev h
Needs-step checking direct_established history h = found all_found
Needs-step checking checks_failed history h = later checks_failed (OccurIn-tail h)
Needs-step checking close history h = absurd h
Needs-step checking ev history h = later ev h
Needs-step direct ev history h = tt
Needs-step closed start_relay history h = h
Needs-step closed _ history h = h

Needs-fire_all :
    (m : Machine) (evs : List Event) → (fire_all m evs).state ≡ direct → Needs m.state evs
unfolding fire_all
Needs-fire_all m [] h = rw h tt
Needs-fire_all m (ev ∷ evs) h = Needs-step m.state ev evs (Needs-fire_all (fire m ev).0 evs h)

-- A new path that some history of events brings onto the direct path has gone through the relay:
-- the history holds a start of the relay, after it a start of the checks, and after that the
-- nomination of a direct pair.
pub direct_needs_relay :
    (evs : List Event)
    → (fire_all new_machine evs).state ≡ direct
    → OccurIn (start_relay ∷ begin_checks ∷ direct_established ∷ []) evs
unfolding new_machine
direct_needs_relay evs h = Needs-fire_all _ evs h
