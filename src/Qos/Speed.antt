-- ===== src/Qos/Speed.antt =====
-- The speed events of internal/qos/qos.go over a session's samples.
use revquic.Prelude.{
  ◌≡◌, Bool, true, false, Option, none, some, List, [], ◌∷◌, arith, ◌⊎◌, inl, inr,
}
use revquic.Qos.{Rate, Kind, speed_drop, recovered, SessionState, sample_session}

abbrev prepend : Option Kind → List Kind → List Kind
prepend none kinds = kinds
prepend (some k) kinds = k ∷ kinds

-- A run of samples, with the kinds of the events that it appends, in order.
unfoldable pub sample_all : SessionState → List Rate → SessionState × List Kind
sample_all ss [] = (ss, [])
sample_all ss (bps ∷ rest) =
    let (ss', kind) = sample_session ss bps in
    let (end, kinds) = sample_all ss' rest in (end, prepend kind kinds)

-- Speed drops and recoveries take turns, from a session that is degraded or not, to one that is
-- degraded or not.
pub data Alternates : Bool → List Kind → Bool → Type 0 where
  no_event : {degraded : Bool} → Alternates degraded [] degraded
  drops :
      {kinds : List Kind} {end : Bool}
      → Alternates true kinds end
      → Alternates false (speed_drop ∷ kinds) end
  recovers :
      {kinds : List Kind} {end : Bool}
      → Alternates false kinds end
      → Alternates true (recovered ∷ kinds) end

sample_cases :
    (ss : SessionState) (bps : Rate)
    → let (ss', kind) = sample_session ss bps in
      ((kind ≡ none) × (ss'.degraded ≡ ss.degraded))
      ⊎ (((kind ≡ some speed_drop) × (ss.degraded ≡ false) × (ss'.degraded ≡ true))
          ⊎ ((kind ≡ some recovered) × (ss.degraded ≡ true) × (ss'.degraded ≡ false)))
unfolding sample_session
sample_cases ss bps = ground arith

prepend-Alternates :
    (before after end : Bool) (kind : Option Kind) (kinds : List Kind)
    → ((kind ≡ none) × (after ≡ before))
      ⊎ (((kind ≡ some speed_drop) × (before ≡ false) × (after ≡ true))
          ⊎ ((kind ≡ some recovered) × (before ≡ true) × (after ≡ false)))
    → Alternates after kinds end
    → Alternates before (prepend kind kinds) end
prepend-Alternates before after end kind kinds (inl (k, same)) h = rw k (rw same at h)
prepend-Alternates before after end kind kinds (inr (inl (k, b, a))) h =
    rw (k, b) (drops (rw a at h))
prepend-Alternates before after end kind kinds (inr (inr (k, b, a))) h =
    rw (k, b) (recovers (rw a at h))

-- Over any samples of a session, its events are in turn a speed drop and a recovery: a drop comes
-- first for a session that is not degraded, a recovery for one that is, and at the end the session is
-- marked degraded exactly if the last event was a drop.
pub sample_all-Alternates :
    (ss : SessionState) (samples : List Rate)
    → let (end, kinds) = sample_all ss samples in Alternates ss.degraded kinds end.degraded
unfolding sample_all
sample_all-Alternates ss [] = no_event
sample_all-Alternates ss (bps ∷ rest) =
    let later = sample_all-Alternates (sample_session ss bps).0 rest in
    prepend-Alternates ss.degraded _ _ _ _ (sample_cases ss bps) later
