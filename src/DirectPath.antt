-- ===== src/DirectPath.antt =====
-- internal/directpath: the data-path state machine (state.go) and the direct-or-relay policy
-- (decision.go).
pub mod State
pub mod Decision
mod Tests
