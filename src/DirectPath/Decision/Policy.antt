-- ===== src/DirectPath/Decision/Policy.antt =====
-- What internal/directpath/decision.go promises, against an independent reading of its policy.
use revquic.Prelude.{◌≡◌, refl, ◌⊎◌, ◌↔◌, ◌≢◌, inl, inr, true, false, arith}
use revquic.DirectPath.Decision.{
  NatType, restricted_cone, port_restricted, symmetric, Mode, auto, direct, relay, unnamed,
  is_unknown, punchable, decide_auto, decide,
}

-- The pairs that the policy text rules out, one side written first.
pub data Hopeless : NatType → NatType → Type 0 where
  both_symmetric : Hopeless symmetric symmetric
  symmetric_restricted : Hopeless symmetric restricted_cone
  symmetric_port : Hopeless symmetric port_restricted

refused_needs_hopeless : (a b : NatType) → punchable a b ≡ false → Hopeless a b ⊎ Hopeless b a
unfolding punchable
refused_needs_hopeless symmetric symmetric h = inl both_symmetric
refused_needs_hopeless symmetric restricted_cone h = inl symmetric_restricted
refused_needs_hopeless symmetric port_restricted h = inl symmetric_port
refused_needs_hopeless restricted_cone symmetric h = inr symmetric_restricted
refused_needs_hopeless port_restricted symmetric h = inr symmetric_port
refused_needs_hopeless _ _ h = absurd (ground arith)

Hopeless-punchable :
    {a b : NatType} → Hopeless a b → (punchable a b ≡ false) × (punchable b a ≡ false)
unfolding punchable
Hopeless-punchable both_symmetric = (refl, refl)
Hopeless-punchable symmetric_restricted = (refl, refl)
Hopeless-punchable symmetric_port = (refl, refl)

-- A hole punch is refused exactly for the pairs of the policy: symmetric with symmetric, with
-- restricted cone or with port-restricted, in either order.
pub punchable_iff : (a b : NatType) → (punchable a b ≡ false) ↔ (Hopeless a b ⊎ Hopeless b a)
punchable_iff a b = (refused_needs_hopeless a b, hopeless)
  where
    hopeless : Hopeless a b ⊎ Hopeless b a → punchable a b ≡ false
    hopeless (inl h) = (Hopeless-punchable h).0
    hopeless (inr h) = (Hopeless-punchable h).1

-- Who is asked first does not matter: swapping the two NAT types gives the same decision.
pub decide_comm : (requested : Mode) (a c : NatType) → decide requested a c ≡ decide requested c a
unfolding decide
decide_comm auto a c = ground arith
decide_comm _ a c = ground arith

auto_by_policy :
    (a c : NatType)
    → let d = decide_auto a c in
      ((d.attempt_direct ≡ false)
        ↔ ((is_unknown a ≡ false) × (is_unknown c ≡ false) × (Hopeless a c ⊎ Hopeless c a)))
      × (d.allow_fallback ≡ d.attempt_direct)
unfolding decide_auto
auto_by_policy a c = (
  (
    λ h. (ground arith, ground arith, (punchable_iff a c).0 (ground arith)),
    λ (p, q, h). ground (arith, (punchable_iff a c).1 h),
  ),
  ground arith,
)

-- Every decision starts on the relay, and one that allows a fallback also attempts the direct path.
pub decide_bootstrap :
    (requested : Mode) (a c : NatType)
    → let d = decide requested a c in
      (d.mode ≡ relay) × ((d.allow_fallback ≡ false) ⊎ (d.attempt_direct ≡ true))
unfolding decide
decide_bootstrap auto a c = ground arith
decide_bootstrap _ a c = ground arith

-- Unless the relay or the direct path is requested by name, a session stays on the relay exactly
-- when neither NAT type is unknown and the policy rules the pair out; and it may fall back to the
-- relay exactly when it attempts the direct path.
pub decide_by_policy :
    (requested : Mode) (a c : NatType)
    → requested ≢ relay
    → requested ≢ direct
    → let d = decide requested a c in
      ((d.attempt_direct ≡ false)
        ↔ ((is_unknown a ≡ false) × (is_unknown c ≡ false) × (Hopeless a c ⊎ Hopeless c a)))
      × (d.allow_fallback ≡ d.attempt_direct)
unfolding decide
decide_by_policy auto a c r d = auto_by_policy a c
decide_by_policy (unnamed t) a c r d = auto_by_policy a c
decide_by_policy relay a c r d = absurd (r refl)
decide_by_policy direct a c r d = absurd (d refl)
