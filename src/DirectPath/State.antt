-- ===== src/DirectPath/State.antt =====
-- internal/directpath/state.go: the states of a session's data path, the events, the transition
-- table and `Machine`. The mutex makes each method one step.
pub mod Reach
use revquic.Prelude.{Bool, true, false, Option, none, some}

pub data PathState : Type 0 where
  new relaying checking direct closed : PathState

pub data Event : Type 0 where
  start_relay begin_checks direct_established checks_failed direct_lost close : Event

pub record InvalidTransition : Type 0 where
  pub from : PathState
  pub event : Event

-- A Go pair (value, error) of `Fire`.
pub data Fired : Type 0 where
  ok : PathState → Fired
  err : InvalidTransition → Fired

-- transitions[s][ev]; `none` where the table has no entry.
unfoldable pub transitions : PathState → Event → Option PathState
transitions new start_relay = some relaying
transitions new close = some closed
transitions relaying begin_checks = some checking
transitions relaying close = some closed
transitions checking direct_established = some direct
transitions checking checks_failed = some relaying
transitions checking close = some closed
transitions direct direct_lost = some relaying
transitions direct close = some closed
transitions _ _ = none

pub record Machine : Type 0 where
  pub state : PathState

unfoldable pub new_machine : Machine
new_machine = record { state = new }

unfoldable pub fire : Machine → Event → Machine × Fired
fire m ev = elim (transitions m.state ev) [
  | none ↦ (m, err (record { from = m.state; event = ev }))
  | some next ↦ (record m { state = next }, ok next)
]

unfoldable pub is_terminal : Machine → Bool
is_terminal m = elim m.state [ closed ↦ true | _ ↦ false ]
