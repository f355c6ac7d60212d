-- ===== src/Qos.antt =====
-- internal/qos/qos.go: the tracker of load, throughput and lifecycle events.
-- Times are in nanoseconds; a clock reading `now` is an argument of each operation; the
-- events that go to the optional persistent store are those of the history. The processor, memory and
-- disk gauges of a report are left out.
-- Throughputs, which the code holds in floats, are exact fractions. uint64 totals wrap at 2 ^ 64.
pub mod History
pub mod Totals
pub mod Speed
mod Tests
use revquic.Prelude.Text.{text_less}
use revquic.Prelude.{
  ◌/◌, ℕ, ◌+◌, ◌-◌, ◌*◌, ◌%◌, ◌^◌, Bool, true, false, ◌&&◌, not, Option, none, some, List, [], ◌∷◌,
  ◌++◌, String, str_eq, ltb, leb, if◌then◌else◌, length, drop, take,
}
use revquic.Prelude.Assoc.{lookup, insert, delete, string_key}

-- Bytes per second, as a fraction; the divisor is not 0.
pub record Rate : Type 0 where
  pub amount : ℕ
  pub divisor : ℕ

-- a < b
abbrev pub slower : Rate → Rate → Bool
slower a b = ltb (a.amount * b.divisor) (b.amount * a.divisor)

-- a >= b
abbrev pub not_slower : Rate → Rate → Bool
not_slower a b = not (slower a b)

-- a * p / q
abbrev pub scale : Rate → ℕ → ℕ → Rate
scale a p q = record { amount = a.amount * p; divisor = a.divisor * q }

pub data Kind : Type 0 where
  node_up node_down connect disconnect speed_drop recovered : Kind

pub data DataPath : Type 0 where
  relay direct : DataPath

pub record Event : Type 0 where
  pub ts : ℕ
  pub kind : Kind
  pub session_id : String
  pub node_id : String
  pub region : String
  pub username : String
  pub throughput : Rate

pub record Report : Type 0 where
  pub bytes_up : ℕ
  pub bytes_down : ℕ
  pub throughput : Rate
  pub drops : ℕ
  pub rtt_ms : ℕ
  pub is_direct : Bool
  pub host : String
  pub tun_name : String
  pub os_info : String

pub record SessionState : Type 0 where
  pub id : String
  pub node_id : String
  pub region : String
  pub username : String
  pub path : DataPath
  pub started_at : ℕ
  pub last_seen : ℕ
  pub bytes_up : ℕ
  pub bytes_down : ℕ
  pub bps : Rate
  pub peak_bps : Rate
  pub drops : ℕ
  pub rtt_ms : ℕ
  pub host : String
  pub tun_name : String
  pub os_info : String
  pub degraded : Bool
  pub win_start : ℕ
  pub win_bytes : ℕ

pub record ExitState : Type 0 where
  pub node_id : String
  pub region : String
  pub active : ℕ
  pub bytes_up : ℕ
  pub bytes_down : ℕ
  pub bps : Rate
  pub peak_bps : Rate
  pub connected_at : ℕ
  pub last_seen : ℕ
  pub win_start : ℕ
  pub win_bytes : ℕ

pub record Tracker : Type 0 where
  pub hist_cap : ℕ
  pub hist : List Event
  pub sessions : List (String × SessionState)
  pub exits : List (String × ExitState)

abbrev pub no_rate : Rate
no_rate = record { amount = 0; divisor = 1 }

-- defaultFloorBps
abbrev pub floor_bps : Rate
floor_bps = record { amount = 65536; divisor = 1 }

-- time.Second
abbrev pub window_dur : ℕ
window_dur = 1_000_000_000

abbrev pub add_u64 : ℕ → ℕ → ℕ
add_u64 a b = (a + b) % 2 ^ 64

abbrev pub max_u64 : ℕ → ℕ → ℕ
max_u64 reported seen = if ltb seen reported then reported else seen

-- win_bytes / d.Seconds()
abbrev pub rate_of : ℕ → ℕ → Rate
rate_of bytes nanos = record { amount = bytes * window_dur; divisor = nanos }

unfoldable pub append_event : Tracker → Event → Tracker
append_event t ev =
    let hist = t.hist ++ (ev ∷ []) in
    record t {
      hist = if ltb t.hist_cap (length hist) then drop (length hist - t.hist_cap) hist else hist;
    }

unfoldable pub node_event : ℕ → Kind → (node_id region : String) → Event
node_event ts kind node_id region = record {
  ts = ts;
  kind = kind;
  session_id = "";
  node_id = node_id;
  region = region;
  username = "";
  throughput = no_rate;
}

unfoldable pub session_event : ℕ → Kind → SessionState → Rate → Event
session_event ts kind ss throughput = record {
  ts = ts;
  kind = kind;
  session_id = ss.id;
  node_id = ss.node_id;
  region = ss.region;
  username = ss.username;
  throughput = throughput;
}

unfoldable pub track_node_up : Tracker → ℕ → (node_id region : String) → ℕ → Tracker
unfolding append_event node_event
track_node_up t now node_id region connected_at =
    let e : ExitState = record {
      node_id = node_id;
      region = region;
      active = 0;
      bytes_up = 0;
      bytes_down = 0;
      bps = no_rate;
      peak_bps = no_rate;
      connected_at = connected_at;
      last_seen = now;
      win_start = now;
      win_bytes = 0;
    } in
    append_event (record t { exits = insert node_id e t.exits })
      (node_event now node_up node_id region)

unfoldable pub track_node_down : Tracker → ℕ → String → Tracker
unfolding append_event node_event
track_node_down t now node_id =
    let region : String = elim (lookup node_id t.exits) [ none ↦ "" | some e ↦ e.region ] in
    append_event (record t { exits = delete node_id t.exits })
      (node_event now node_down node_id region)

-- The exit of a session after Connect and after Disconnect.
unfoldable pub with_client : List (String × ExitState) → ℕ → String → List (String × ExitState)
with_client exits now node_id = elim (lookup node_id exits) [
  | none ↦ exits
  | some e ↦ insert node_id (record e { active = e.active + 1; last_seen = now }) exits
]

unfoldable pub without_client : List (String × ExitState) → String → List (String × ExitState)
without_client exits node_id = elim (lookup node_id exits) [
  | none ↦ exits
  | some e ↦
      if ltb 0 e.active then insert node_id (record e { active = e.active - 1 }) exits else exits
]

unfoldable pub track_connect :
    Tracker → ℕ → (session_id node_id region username : String) → ℕ → Tracker
unfolding append_event session_event with_client
track_connect t now session_id node_id region username started_at =
    let ss : SessionState = record {
      id = session_id;
      node_id = node_id;
      region = region;
      username = username;
      path = relay;
      started_at = started_at;
      last_seen = now;
      bytes_up = 0;
      bytes_down = 0;
      bps = no_rate;
      peak_bps = no_rate;
      drops = 0;
      rtt_ms = 0;
      host = "";
      tun_name = "";
      os_info = "";
      degraded = false;
      win_start = now;
      win_bytes = 0;
    } in
    append_event
      (record t {
        sessions = insert session_id ss t.sessions;
        exits = with_client t.exits now node_id;
      })
      (session_event now connect ss no_rate)

unfoldable pub track_disconnect : Tracker → ℕ → String → Tracker
unfolding append_event session_event without_client
track_disconnect t now session_id = elim (lookup session_id t.sessions) [
  | none ↦ t
  | some ss ↦
      append_event
        (record t {
          sessions = delete session_id t.sessions;
          exits = without_client t.exits ss.node_id;
        })
        (session_event now disconnect ss no_rate)
]

-- sampleSession, with the kind of the event that it appends.
unfoldable pub sample_session : SessionState → Rate → SessionState × Option Kind
sample_session ss bps =
    let peak = if slower ss.peak_bps bps then bps else ss.peak_bps in
    let sampled : SessionState = record ss { bps = bps; peak_bps = peak } in
    if slower peak floor_bps
    then (sampled, none)
    else if not ss.degraded && slower bps (scale peak 1 2)
    then (record sampled { degraded = true }, some speed_drop)
    else if ss.degraded && not_slower bps (scale peak 4 5)
    then (record sampled { degraded = false }, some recovered)
    else (sampled, none)

-- The history after a sample.
abbrev pub note_kind : Tracker → ℕ → SessionState → Rate → Option Kind → Tracker
note_kind t now ss bps none = t
note_kind t now ss bps (some kind) = append_event t (session_event now kind ss bps)

-- The totals of a session after a datagram of `n` bytes.
unfoldable pub count_session : SessionState → ℕ → Bool → ℕ → SessionState
count_session ss now from_client n = record ss {
  last_seen = now;
  bytes_up = if from_client then add_u64 ss.bytes_up n else ss.bytes_up;
  bytes_down = if from_client then ss.bytes_down else add_u64 ss.bytes_down n;
  win_bytes = add_u64 ss.win_bytes n;
}

-- The end of a session's window: a sample, and a new window.
unfoldable pub close_window : SessionState → ℕ → SessionState × Option Kind
unfolding sample_session
close_window ss now =
    let (sampled, kind) = sample_session ss (rate_of ss.win_bytes (now - ss.win_start)) in
    if leb window_dur (now - ss.win_start)
    then (record sampled { win_start = now; win_bytes = 0 }, kind)
    else (ss, none)

unfoldable pub count_exit : ExitState → ℕ → Bool → ℕ → ExitState
count_exit e now from_client n =
    let bytes = add_u64 e.win_bytes n in
    let counted : ExitState = record e {
      last_seen = now;
      bytes_up = if from_client then add_u64 e.bytes_up n else e.bytes_up;
      bytes_down = if from_client then e.bytes_down else add_u64 e.bytes_down n;
      win_bytes = bytes;
    } in
    let bps = rate_of bytes (now - e.win_start) in
    if leb window_dur (now - e.win_start)
    then record counted {
      bps = bps;
      peak_bps = if slower e.peak_bps bps then bps else e.peak_bps;
      win_start = now;
      win_bytes = 0;
    }
    else counted

unfoldable pub track_bytes : Tracker → ℕ → String → Bool → ℕ → Tracker
unfolding count_session close_window count_exit
track_bytes t now session_id from_client n = elim (lookup session_id t.sessions) [
  | none ↦ t
  | some ss ↦
      let counted = count_session ss now from_client n in
      let (ss', kind) = close_window counted now in
      let t' = note_kind t now counted (rate_of counted.win_bytes (now - ss.win_start)) kind in
      record t' {
        sessions = insert session_id ss' t.sessions;
        exits = elim (lookup ss.node_id t.exits) [
          | none ↦ t.exits
          | some e ↦ insert ss.node_id (count_exit e now from_client n) t.exits
        ];
      }
]

-- The fields that Report takes over before the sample.
unfoldable pub apply_report : SessionState → ℕ → Report → SessionState
apply_report ss now r = record ss {
  last_seen = now;
  bytes_up = max_u64 r.bytes_up ss.bytes_up;
  bytes_down = max_u64 r.bytes_down ss.bytes_down;
  drops = max_u64 r.drops ss.drops;
  rtt_ms = if ltb 0 r.rtt_ms then r.rtt_ms else ss.rtt_ms;
  host = if str_eq r.host "" then ss.host else r.host;
  tun_name = if str_eq r.tun_name "" then ss.tun_name else r.tun_name;
  os_info = if str_eq r.os_info "" then ss.os_info else r.os_info;
  path = if r.is_direct then direct else ss.path;
}

unfoldable pub track_report : Tracker → ℕ → String → Report → Tracker
unfolding apply_report sample_session
track_report t now session_id r = elim (lookup session_id t.sessions) [
  | none ↦ t
  | some ss ↦
      let applied = apply_report ss now r in
      let (sampled, kind) = sample_session applied r.throughput in
      let noted = note_kind t now applied r.throughput kind in
      if slower no_rate r.throughput
      then record noted { sessions = insert session_id sampled t.sessions }
      else record t { sessions = insert session_id applied t.sessions }
]

pub record ExitStat : Type 0 where
  pub node_id : String
  pub region : String
  pub active_clients : ℕ
  pub bytes_up : ℕ
  pub bytes_down : ℕ
  pub throughput : Rate
  pub peak : Rate
  pub connected_at : ℕ
  pub last_seen : ℕ

-- ExitOne
unfoldable pub exit_one : Tracker → String → Option ExitStat
exit_one t id = elim (lookup id t.exits) [
  | none ↦ none
  | some e ↦ some (record {
    node_id = e.node_id;
    region = e.region;
    active_clients = e.active;
    bytes_up = e.bytes_up;
    bytes_down = e.bytes_down;
    throughput = e.bps;
    peak = e.peak_bps;
    connected_at = e.connected_at;
    last_seen = e.last_seen;
  })
]

-- ActiveClients
unfoldable pub clients_of : Tracker → String → ℕ
clients_of t node_id = elim (lookup node_id t.exits) [ none ↦ 0 | some e ↦ e.active ]

unfoldable pub newest_first : List Event → List Event
newest_first [] = []
newest_first (ev ∷ evs) = newest_first evs ++ (ev ∷ [])

-- History; a limit of 0 stands for every limit <= 0.
unfoldable pub history : Tracker → ℕ → List Event
unfolding newest_first
history t limit =
    if ltb 0 limit && ltb limit (length t.hist)
    then take limit (newest_first t.hist)
    else newest_first t.hist

pub record SessionStat : Type 0 where
  pub session_id : String
  pub node_id : String
  pub region : String
  pub username : String
  pub path : DataPath
  pub started_at : ℕ
  pub duration_sec : ℕ
  pub bytes_up : ℕ
  pub bytes_down : ℕ
  pub throughput : Rate
  pub peak : Rate
  pub drops : ℕ
  pub rtt_ms : ℕ
  pub host : String
  pub tun_name : String
  pub os_info : String
  pub degraded : Bool
  pub last_seen : ℕ

-- What Session shows of a session at the time `now`.
unfoldable pub session_stat : ℕ → SessionState → SessionStat
session_stat now ss = record {
  session_id = ss.id;
  node_id = ss.node_id;
  region = ss.region;
  username = ss.username;
  path = ss.path;
  started_at = ss.started_at;
  duration_sec = (now - ss.started_at) / window_dur;
  bytes_up = ss.bytes_up;
  bytes_down = ss.bytes_down;
  throughput = ss.bps;
  peak = ss.peak_bps;
  drops = ss.drops;
  rtt_ms = ss.rtt_ms;
  host = ss.host;
  tun_name = ss.tun_name;
  os_info = ss.os_info;
  degraded = ss.degraded;
  last_seen = ss.last_seen;
}

-- Session
unfoldable pub session_view : Tracker → ℕ → String → Option SessionStat
session_view t now id = elim (lookup id t.sessions) [
  | none ↦ none
  | some ss ↦ some (session_stat now ss)
]

-- sort.Slice by session id, which is different for different entries.
unfoldable pub insert_stat : SessionStat → List SessionStat → List SessionStat
insert_stat s [] = s ∷ []
insert_stat s (r ∷ rest) =
    let later = insert_stat s rest in
    if text_less r.session_id s.session_id then r ∷ later else s ∷ r ∷ rest

-- Sessions, which does not fill in the host, the tunnel's name and the system.
unfoldable pub sessions_view : List (String × SessionState) → ℕ → List SessionStat
sessions_view [] now = []
sessions_view ((_, ss) ∷ rest) now =
    insert_stat (session_stat now (record ss { host = ""; tun_name = ""; os_info = "" }))
      (sessions_view rest now)

-- New; a capacity of 0 stands for every capacity <= 0.
unfoldable pub new_tracker : ℕ → Tracker
new_tracker hist_cap = record {
  hist_cap = if ltb 0 hist_cap then hist_cap else 1000;
  hist = [];
  sessions = [];
  exits = [];
}

unfoldable pub insert_exit : ExitStat → List ExitStat → List ExitStat
insert_exit s [] = s ∷ []
insert_exit s (r ∷ rest) =
    let later = insert_exit s rest in
    if text_less r.node_id s.node_id then r ∷ later else s ∷ r ∷ rest

-- Exits, sorted by node id.
unfoldable pub exits_view : List (String × ExitState) → List ExitStat
exits_view [] = []
exits_view ((_, e) ∷ rest) =
    insert_exit
      (record {
        node_id = e.node_id;
        region = e.region;
        active_clients = e.active;
        bytes_up = e.bytes_up;
        bytes_down = e.bytes_down;
        throughput = e.bps;
        peak = e.peak_bps;
        connected_at = e.connected_at;
        last_seen = e.last_seen;
      })
      (exits_view rest)

-- Preload: `loaded` is what the store, if there is one, answers to Load: events, newest first, or
-- `none` for an error. The second result is whether there was no error.
unfoldable pub preload : Tracker → Option (Option (List Event)) → Tracker × Bool
unfolding newest_first
preload t none = (t, true)
preload t (some none) = (t, false)
preload t (some (some events)) =
    let hist = newest_first events in
    (
      record t {
        hist = if ltb t.hist_cap (length hist) then drop (length hist - t.hist_cap) hist else hist;
      },
      true,
    )
