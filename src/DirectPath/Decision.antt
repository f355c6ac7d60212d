-- ===== src/DirectPath/Decision.antt =====
-- internal/directpath/decision.go: the policy that decides between a direct path and the relay.
-- A Go string type with named constants is a data type of those constants and of any other text.
pub mod Policy
use revquic.Prelude.{Bool, true, false, ◌&&◌, ◌||◌, if◌then◌else◌, String}

pub data NatType : Type 0 where
  full_cone restricted_cone port_restricted symmetric unknown : NatType
  other : String → NatType

pub data Mode : Type 0 where
  auto direct relay : Mode
  unnamed : String → Mode

pub record Decision : Type 0 where
  pub attempt_direct : Bool
  pub allow_fallback : Bool
  pub mode : Mode
  pub reason : String

abbrev pub is_full_cone : NatType → Bool
is_full_cone full_cone = true
is_full_cone _ = false

abbrev pub is_unknown : NatType → Bool
is_unknown unknown = true
is_unknown _ = false

abbrev pub hard : NatType → Bool
hard symmetric = true
hard _ = false

abbrev pub medium_or_hard : NatType → Bool
medium_or_hard symmetric = true
medium_or_hard restricted_cone = true
medium_or_hard port_restricted = true
medium_or_hard _ = false

unfoldable pub punchable : NatType → NatType → Bool
punchable a b =
    if is_full_cone a || is_full_cone b
    then true
    else if hard a && hard b
    then false
    else if (hard a && medium_or_hard b) || (hard b && medium_or_hard a)
    then false
    else true

unfoldable pub decide_auto : NatType → NatType → Decision
decide_auto nat_a nat_c =
    if is_unknown nat_a || is_unknown nat_c
    then record {
      attempt_direct = true;
      allow_fallback = true;
      mode = relay;
      reason = "unknown NAT: attempt direct, fall back to relay";
    }
    else if punchable nat_a nat_c
    then record {
      attempt_direct = true;
      allow_fallback = true;
      mode = relay;
      reason = "NAT pair punchable: attempt direct";
    }
    else record {
      attempt_direct = false;
      allow_fallback = false;
      mode = relay;
      reason = "NAT pair not punchable (symmetric): relay";
    }

-- The `switch` of Decide; its default stands for ModeAuto and for any other text.
unfoldable pub decide : Mode → NatType → NatType → Decision
unfolding decide_auto punchable
decide relay nat_a nat_c = record {
  attempt_direct = false;
  allow_fallback = false;
  mode = relay;
  reason = "relay requested";
}
decide direct nat_a nat_c = record {
  attempt_direct = true;
  allow_fallback = false;
  mode = relay;
  reason = "direct requested (no fallback)";
}
decide _ nat_a nat_c = decide_auto nat_a nat_c
