-- ===== src/Broker/Steps.antt =====
-- The steps that the handlers of cmd/revquic-broker/main.go take on the broker's state, in any order.
use revquic.Prelude.{ℕ, Bool, List, [], ◌∷◌, String}
use revquic.Broker.{
  Broker, ExitNode, Client, register_exit, exit_gone, select_exit, admit, try_resume,
  suspend_session, expire_park, end_session,
}

-- One step of the broker, with what the environment supplies.
pub data Step : Type 0 where
  registers : (token node_secret : String) → ExitNode → Step
  goes : (node_id : String) → Step
  selects : (requested region : String) → (ℕ → ℕ) → Step
  admits : Client → ℕ → ExitNode → Step
  resumes : (resume_key username : String) → (conn now : ℕ) → Step
  suspends : (sid : ℕ) → (intentional : Bool) → (now : ℕ) → Step
  expires : (resume_key : String) → (sid : ℕ) → Step
  ends : (sid : ℕ) → Step

unfoldable pub step : Broker → Step → Broker
step b (registers token secret e) = (register_exit b token secret e).0
step b (goes node_id) = (exit_gone b node_id).0
step b (selects requested region intn) = (select_exit b requested region intn).0
step b (admits c ex e) = (admit b c ex e).0
step b (resumes key username conn now) = (try_resume b key username conn now).0
step b (suspends sid intentional now) = (suspend_session b sid intentional now).0
step b (expires key sid) = (expire_park b key sid).0
step b (ends sid) = (end_session b sid).0

unfoldable pub run : Broker → List Step → Broker
run b [] = b
run b (s ∷ steps) = run (step b s) steps
