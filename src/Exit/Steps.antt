-- ===== src/Exit/Steps.antt =====
-- What happens to the exit of cmd/revquic-exit/main.go, in any order.
use revquic.Prelude.{ℕ, Option, List, [], ◌∷◌, String}
use revquic.Prelude.Assoc.{Key}
use revquic.Proto.Datagram.{Bytes}
use revquic.Exit.{Exit, ExitMessage, bind, unbind, control}
use revquic.Exit.Pump.{datagram_to_tun, tun_to_datagram}

pub data Step (S R : Type 0) : Type 0 where
  binds : S → Step S R
  unbinds : Step S R
  controls : ExitMessage R → (now : ℕ) → Step S R
  receives : (dg : Bytes) → Step S R
  replies : (now : ℕ) → (pkt : Bytes) → Step S R

-- The calls of other packages that the steps make.
pub record Calls (S G A R E : Type 0) : Type 0 where
  pub unmarshal : R → Option G
  pub parse_addr : String → Option A
  pub addr_from4 : ℕ → ℕ → ℕ → ℕ → A
  pub addr_string : A → String
  pub send_datagram : S → Bytes → Option E

module _ {S G A R E : Type 0} ⦃k : Key A⦄ (c : Calls S G A R E) where
  unfoldable pub step : Exit S G A → Step S R → Exit S G A
  step e (binds conn) = bind e conn
  step e unbinds = unbind e
  step e (controls msg now) = (control c.parse_addr c.unmarshal e msg now).0
  step e (receives dg) = (datagram_to_tun c.addr_from4 c.addr_string e dg).0
  step e (replies now pkt) = (tun_to_datagram c.addr_from4 c.send_datagram e now pkt).0

  unfoldable pub run : Exit S G A → List (Step S R) → Exit S G A
  run e [] = e
  run e (s ∷ steps) = run (step e s) steps
