-- ===== src/Broker/Ownership/Run.antt =====
-- What holds of the VPN addresses after any sequence of steps of cmd/revquic-broker/main.go.
use revquic.Prelude.{
  ◌≡◌, refl, true, false, none, some, List, [], ◌∷◌, arith, Bool-cases, inl, inr, str_eq,
}
use revquic.Prelude.Assoc.{lookup}
use revquic.Ippool.{member, is_free}
use revquic.Broker.{Broker, Session, register_exit, exit_gone, select_exit}
use revquic.Broker.Steps.{
  Step, registers, goes, selects, admits, resumes, suspends, expires, ends, step, run,
}
use revquic.Broker.Ownership.{
  Place, at_session, at_parked, holder, IsSound, end_session-IsSound, expire_park-IsSound,
}
use revquic.Broker.Ownership.Moves.{
  suspend_session-IsSound, try_resume-IsSound, admit-IsSound, same_holders,
}

step-IsSound : (b : Broker) (s : Step) → IsSound b → IsSound (step b s)
unfolding step register_exit exit_gone select_exit
step-IsSound b (registers token secret e) v = elim (Bool-cases (str_eq token secret)) [
  | inl good ↦ rw (good, step, register_exit) (same_holders v refl refl refl)
  | inr bad ↦ rw (bad, step, register_exit) v
]
step-IsSound b (goes node_id) v = same_holders v refl refl refl
step-IsSound b (selects requested region intn) v = elim (Bool-cases (str_eq requested "")) [
  | inl auto ↦ rw (auto, step, select_exit) (same_holders v refl refl refl)
  | inr manual ↦ rw (manual, step, select_exit) v
]
step-IsSound b (admits c ex e) v = admit-IsSound b c ex e v
step-IsSound b (resumes key username conn now) v = try_resume-IsSound b key username conn now v
step-IsSound b (suspends sid intentional now) v = suspend_session-IsSound b sid intentional now v
step-IsSound b (expires key sid) v = expire_park-IsSound b key sid v
step-IsSound b (ends sid) v = end_session-IsSound b sid v

run-IsSound : (b : Broker) (steps : List Step) → IsSound b → IsSound (run b steps)
unfolding run
run-IsSound b [] v = v
run-IsSound b (s ∷ steps) v = run-IsSound (step b s) steps (step-IsSound b s v)

none-ne-some {ℓ} : {A : Type ℓ} {x : A} → ¬ (none ≡ some x)
none-ne-some e = cc

empty-IsSound : (b : Broker) → b.sessions ≡ [] → b.parked ≡ [] → IsSound b
unfolding holder lookup
empty-IsSound b e f = record {
  in_use = λ h s hs. absurd (vacant h s hs);
  apart = λ h k s t hs kt same. absurd (vacant h s hs);
}
  where
    vacant : (h : Place) (s : Session) → ¬ (holder b h ≡ some s)
    vacant (at_session i) s hs = none-ne-some (rw e at hs)
    vacant (at_parked k) s hs = none-ne-some (rw f at hs)

pub run_owns :
    (b : Broker) (steps : List Step) → b.sessions ≡ [] → b.parked ≡ [] → IsSound (run b steps)
run_owns b steps e f = run-IsSound b steps (empty-IsSound b e f)

-- After any steps of a broker that began without sessions, two sessions, live or parked, that hold
-- the same VPN address stand in the same place: no address is ever given to two of them.
pub run_apart :
    (b : Broker) (steps : List Step) (h k : Place) (s t : Session)
    → b.sessions ≡ []
    → b.parked ≡ []
    → holder (run b steps) h ≡ some s
    → holder (run b steps) k ≡ some t
    → s.client_addr ≡ t.client_addr
    → h ≡ k
run_apart b steps h k s t e f hs kt same =
    let sound = run_owns b steps e f in sound.apart h k s t hs kt same

-- After any steps of a broker that began without sessions, the VPN address of every session, live or
-- parked, is marked in use in the pool, and is not free to be handed out.
pub run_in_use :
    (b : Broker) (steps : List Step) (h : Place) (s : Session)
    → b.sessions ≡ []
    → b.parked ≡ []
    → holder (run b steps) h ≡ some s
    → (member s.client_addr (run b steps).pool.used ≡ true)
      × (is_free (run b steps).pool (some s.client_addr) ≡ false)
unfolding is_free
run_in_use b steps h s e f hs =
    let sound = run_owns b steps e f in let used = sound.in_use h s hs in (used, ground arith)
