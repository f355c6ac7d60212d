-- ===== src/Qos/Totals.antt =====
-- The byte totals of a session in internal/qos/qos.go over relayed datagrams.
use revquic.Prelude.{
  ℕ, ◌+◌, ◌^◌, ◌<◌, ◌≡◌, Bool, true, false, some, List, [], ◌∷◌, String, arith, eq_iff,
  if◌then◌else◌,
}
use revquic.Prelude.Assoc.{lookup, string_key, lookup-insert}
use revquic.Qos.{
  SessionState, Tracker, add_u64, count_session, close_window, sample_session, track_bytes,
}

-- One relayed datagram: when, from which side, how long.
pub record Datagram : Type 0 where
  pub now : ℕ
  pub from_client : Bool
  pub size : ℕ

unfoldable pub track_all : Tracker → String → List Datagram → Tracker
track_all t session_id [] = t
track_all t session_id (d ∷ ds) =
    track_all (track_bytes t d.now session_id d.from_client d.size) session_id ds

-- The bytes of the datagrams of one side.
pub total : Bool → List Datagram → ℕ
total side [] = 0
total side (d ∷ ds) =
    (if side then (if d.from_client then d.size else 0) else (if d.from_client then 0 else d.size))
    + total side ds

close_window-keeps :
    (ss : SessionState) (now : ℕ)
    → let ss' = (close_window ss now).0 in
      (ss'.bytes_up ≡ ss.bytes_up) × (ss'.bytes_down ≡ ss.bytes_down)
unfolding close_window sample_session
close_window-keeps ss now = ground arith

track_bytes-adds :
    (t : Tracker) (session_id : String) (ss : SessionState) (d : Datagram)
    → lookup session_id t.sessions ≡ some ss
    → (ss' : SessionState) × (lookup session_id
          (track_bytes t d.now session_id d.from_client d.size).sessions
        ≡ some ss')
      × (ss'.bytes_up ≡ (if d.from_client then add_u64 ss.bytes_up d.size else ss.bytes_up))
      × (ss'.bytes_down ≡ (if d.from_client then ss.bytes_down else add_u64 ss.bytes_down d.size))
unfolding track_bytes count_session
track_bytes-adds t session_id ss d h =
    let counted = count_session ss d.now d.from_client d.size in
    let ss' = (close_window counted d.now).0 in
    let (up, down) = close_window-keeps counted d.now in
    (
      ss',
      rw (h, track_bytes)
          (ground (
            arith,
            lookup-insert session_id session_id ss' t.sessions,
            eq_iff session_id session_id,
          )),
      up,
      down,
    )

-- Over any datagrams that the broker relays for a session it tracks, the session's totals grow, as
-- 64-bit words, by the bytes of the datagrams of each side, whatever the windows and samples are.
pub track_all-adds :
    (t : Tracker) (session_id : String) (ss : SessionState) (ds : List Datagram)
    → lookup session_id t.sessions ≡ some ss
    → ss.bytes_up < 2 ^ 64
    → ss.bytes_down < 2 ^ 64
    → (ss' : SessionState) × (lookup session_id (track_all t session_id ds).sessions ≡ some ss')
      × (ss'.bytes_up ≡ add_u64 ss.bytes_up (total true ds))
      × (ss'.bytes_down ≡ add_u64 ss.bytes_down (total false ds))
unfolding track_all total
track_all-adds t session_id ss [] h up down = (ss, h, omega arith, omega arith)
track_all-adds t session_id ss (d ∷ ds) h up down =
    let (s1, h1, up1, down1) = track_bytes-adds t session_id ss d h in
    let up_word : s1.bytes_up < 2 ^ 64 = ground arith in
    let down_word : s1.bytes_down < 2 ^ 64 = ground arith in
    let (s2, h2, up2, down2) =
      track_all-adds (track_bytes t d.now session_id d.from_client d.size) session_id s1 ds h1
        up_word down_word in
    (s2, h2, ground arith, ground arith)
