-- ===== src/Session/Race.antt =====
-- The two steps of a migration of internal/session/session.go are not one: the event is fired under
-- the machine's lock, and the path is installed under the session's lock afterwards. Two methods run
-- here in any order of these steps.
use revquic.Prelude.{◌≡◌, Bool, true, false, Option, none, some, List, [], ◌∷◌, arith}
use revquic.DirectPath.State.{
  InvalidTransition, ok, err, checking, closed, direct_established, close, transitions, fire,
}
use revquic.Session.{
  EgressPath, Session, empty_path, fire_machine, set_path, migrate, signal, upgrade_direct,
  close_session,
}

-- Where a call of UpgradeDirect or Close stands: before Fire, before setPath, or returned.
pub data Call (S : Type 0) : Type 0 where
  upgrading : EgressPath S → Call S
  closing : Call S
  installing : EgressPath S → Option InvalidTransition → Call S
  returned : Option InvalidTransition → Call S

-- One step of a call: UpgradeDirect returns early if its event is refused, Close never does.
unfoldable pub call_step : {S : Type 0} → Session S → Call S → Session S × Call S
call_step s (upgrading p) =
    let (s', r) = fire_machine s direct_established in
    (s', elim r [ err e ↦ returned (some e) | ok _ ↦ installing p none ])
call_step s closing =
    let (s', r) = fire_machine s close in
    (s', installing empty_path (elim r [ err e ↦ some e | ok _ ↦ none ]))
call_step s (installing p e) = (set_path s p, returned e)
call_step s (returned e) = (s, returned e)

-- Two calls on one session, in the order of a schedule: `true` is a step of the first one.
unfoldable pub interleave :
    {S : Type 0} → Session S → Call S → Call S → List Bool → Session S × Call S × Call S
interleave s a b [] = (s, a, b)
interleave s a b (true ∷ turns) = let (s', a') = call_step s a in interleave s' a' b turns
interleave s a b (false ∷ turns) = let (s', b') = call_step s b in interleave s' a b' turns

module _ {S : Type 0} where
  -- A call that runs without a break is the method.
  upgrade_alone :
      (s : Session S) (p : EgressPath S) (b : Call S)
      → let (s', e) = upgrade_direct s p in
        interleave s (upgrading p) b (true ∷ true ∷ []) ≡ (s', returned e, b)
  unfolding interleave call_step upgrade_direct migrate
  upgrade_alone s p b = ground arith

  close_alone :
      (s : Session S) (a : Call S)
      → let (s', e) = close_session s in
        interleave s a closing (false ∷ false ∷ []) ≡ (s', a, returned e)
  unfolding interleave call_step close_session signal
  close_alone s a = ground arith

  -- One after the other, in either order, UpgradeDirect and Close leave a checking session closed and
  -- without a path. If Close runs whole between the two steps of UpgradeDirect, both return no error
  -- and the session is closed, but the direct path stays installed.
  pub close_inside_upgrade_leaks :
      (s : Session S) (p : EgressPath S)
      → s.m.state ≡ checking
      → let shut : EgressPath S → Session S =
          λ q. record s { m = record { state = closed }; path = q } in
        ((close_session (upgrade_direct s p).0).0 ≡ shut empty_path)
        × ((upgrade_direct (close_session s).0 p).0 ≡ shut empty_path)
        × (interleave s (upgrading p) closing (true ∷ false ∷ false ∷ true ∷ [])
            ≡ (shut p, returned none, returned none))
  unfolding interleave call_step upgrade_direct close_session migrate signal fire_machine set_path
      fire transitions
  close_inside_upgrade_leaks s p h = ground arith
