-- ===== src/Proto.antt =====
-- internal/proto/proto.go: the data-plane datagram codec and the framing of control messages.
-- A byte slice is a list of numbers, each below 256.
pub mod Datagram
pub mod Framing
pub mod Delivery
mod Tests
