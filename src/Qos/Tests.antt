-- ===== src/Qos/Tests.antt =====
-- A session that slows down and recovers.
use revquic.Prelude.{ℕ, ◌≡◌, refl, true, false, some, List, [], ◌∷◌, arith}
use revquic.Prelude.Assoc.{lookup, insert, string_key}
use revquic.Prelude.Text.{text_less}
use revquic.Qos.{
  preload, sessions_view, insert_stat, session_stat, history, newest_first, Rate, no_rate,
  speed_drop, recovered, relay, SessionState, Tracker, append_event, node_event, session_event,
  sample_session, track_connect, with_client, add_u64, node_up,
}
use revquic.Qos.Speed.{sample_all}
use revquic.Qos.Totals.{Datagram, track_all, total, track_all-adds}

abbrev rate : ℕ → Rate
rate n = record { amount = n; divisor = 1 }

abbrev fresh : SessionState
fresh = record {
  id = "1";
  node_id = "exit-1";
  region = "eu";
  username = "ann";
  path = relay;
  started_at = 0;
  last_seen = 0;
  bytes_up = 0;
  bytes_down = 0;
  bps = no_rate;
  peak_bps = no_rate;
  drops = 0;
  rtt_ms = 0;
  host = "";
  tun_name = "";
  os_info = "";
  degraded = false;
  win_start = 0;
  win_bytes = 0;
}

abbrev empty_tracker : Tracker
empty_tracker = record { hist_cap = 2; hist = []; sessions = []; exits = [] }

abbrev tracking : Tracker
tracking = record empty_tracker { sessions = ("1", fresh) ∷ [] }

drops_and_recovers :
    (sample_all fresh (rate 100000 ∷ rate 60000 ∷ rate 40000 ∷ rate 70000 ∷ rate 80000 ∷ [])).1
    ≡ speed_drop ∷ recovered ∷ []
unfolding sample_all sample_session
drops_and_recovers = refl

connects :
    lookup "1" (track_connect empty_tracker 0 "1" "exit-1" "eu" "ann" 0).sessions ≡ some fresh
unfolding track_connect append_event session_event with_client lookup insert
connects = refl

abbrev datagrams : List Datagram
datagrams =
    record { now = 10; from_client = true; size = 100 }
    ∷ record { now = 2_000_000_000; from_client = false; size = 900 }
    ∷ []

track_all-adds_example :
    (ss' : SessionState) × (lookup "1" (track_all tracking "1" datagrams).sessions ≡ some ss')
    × (ss'.bytes_up ≡ add_u64 0 (total true datagrams))
    × (ss'.bytes_down ≡ add_u64 0 (total false datagrams))
unfolding lookup
track_all-adds_example =
    track_all-adds tracking "1" fresh datagrams refl (omega arith) (omega arith)

two_sessions :
    sessions_view (("2", record fresh { id = "2" }) ∷ ("1", fresh) ∷ []) 3_500_000_000
    ≡ record (session_stat 3_500_000_000 fresh) { duration_sec = 3 }
      ∷ record (session_stat 3_500_000_000 fresh) { session_id = "2"; duration_sec = 3 }
      ∷ []
unfolding sessions_view insert_stat session_stat text_less
two_sessions = refl

newest_two :
    history
      (record tracking {
        hist = node_event 1 node_up "a" "eu" ∷ node_event 2 node_up "b" "eu" ∷ [];
      })
      1
    ≡ node_event 2 node_up "b" "eu" ∷ []
unfolding history newest_first
newest_two = refl

preloads_newest :
    (preload empty_tracker (
      some (
        some (
          node_event 3 node_up "c" "eu"
          ∷ node_event 2 node_up "b" "eu"
          ∷ node_event 1 node_up "a" "eu"
          ∷ [])))).0.hist
    ≡ node_event 2 node_up "b" "eu" ∷ node_event 3 node_up "c" "eu" ∷ []
unfolding preload newest_first
preloads_newest = refl
