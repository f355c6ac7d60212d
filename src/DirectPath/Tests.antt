-- ===== src/DirectPath/Tests.antt =====
-- Runs of the path state machine and of the decision policy.
use revquic.Prelude.{◌≡◌, ◌≢◌, refl, ◌↔◌, ◌⊎◌, false, [], ◌∷◌}
use revquic.DirectPath.State.{
  direct, start_relay, begin_checks, direct_established, checks_failed, transitions, new_machine,
  fire,
}
use revquic.DirectPath.State.Reach.{fire_all, OccurIn, direct_needs_relay}
use revquic.DirectPath.Decision.{
  NatType, full_cone, symmetric, port_restricted, Mode, auto, is_unknown, punchable, decide_auto,
  decide,
}
use revquic.DirectPath.Decision.Policy.{Hopeless, decide_by_policy}
use revquic.DirectPath.Decision

upgrade_after_retry :
    (fire_all new_machine
      (start_relay ∷ begin_checks ∷ checks_failed ∷ begin_checks ∷ direct_established ∷ [])).state
    ≡ direct
unfolding fire_all new_machine fire transitions
upgrade_after_retry = refl

direct_needs_relay_example :
    OccurIn
      (start_relay ∷ begin_checks ∷ direct_established ∷ [])
      (start_relay ∷ begin_checks ∷ checks_failed ∷ begin_checks ∷ direct_established ∷ [])
direct_needs_relay_example =
    direct_needs_relay
      (start_relay ∷ begin_checks ∷ checks_failed ∷ begin_checks ∷ direct_established ∷ [])
      upgrade_after_retry

auto-ne-relay : auto ≢ Decision.relay
auto-ne-relay e = cc

auto-ne-direct : auto ≢ Decision.direct
auto-ne-direct e = cc

decide_by_policy_example :
    let d = decide auto symmetric symmetric in
    ((d.attempt_direct ≡ false) ↔ (
      (is_unknown symmetric ≡ false)
      × (is_unknown symmetric ≡ false)
      × (Hopeless symmetric symmetric ⊎ Hopeless symmetric symmetric)))
    × (d.allow_fallback ≡ d.attempt_direct)
decide_by_policy_example = decide_by_policy auto symmetric symmetric auto-ne-relay auto-ne-direct
