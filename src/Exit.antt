-- ===== src/Exit.antt =====
-- cmd/revquic-exit/main.go: the session table of an exit node, its control loop and its packet pumps.
-- The parameters stand for net/netip (`A` is netip.Addr) and for the JSON codec of an ICE signal.
-- Pointers to an exitSession are modelled by its entry in `sessions`. The throughput samples of the
-- status page are left out.
pub mod Packet
pub mod Pump
pub mod Steps
pub mod Demux
pub mod Routing
pub mod Spoof
pub mod Takeover
pub mod Status
pub mod Naming
mod Tests
use revquic.Prelude.{
  ℕ, ◌*◌, ◌+◌, Bool, true, false, Option, none, some, List, [], ◌∷◌, ◌++◌, String, str_eq, length,
  ltb, not, if◌then◌else◌,
}
use revquic.Prelude.Assoc.{Key, lookup, insert, delete, nat_key}
use revquic.Prelude.Int.{ℤ, pos}
use revquic.Proto.Datagram.{Bytes, decoded, short_datagram, decode_datagram}
use revquic.Session.{
  EgressPath, Session, SendResult, no_path, add_u64, new_session, start_relay_path, set_rate_limit,
  relay_encode, send,
}
use revquic.Telemetry.{Rtt, Meta, observe}

-- `incoming` is the channel: the signals that wait in it.
pub record ExitSession (S G : Type 0) : Type 0 where
  pub sess : Session S
  pub incoming : List G
  pub client_ip : String
  pub stun : String
  pub turn : String
  pub turn_user : String
  pub turn_pass : String
  pub rtt : Option Rtt
  pub started_at : ℕ
  pub suspended : Bool
  pub suspended_at : Option ℕ
  pub bytes_up : ℕ

-- The fields of `exit` that its operations read or write; `host` and `os` are the machine's.
pub record Exit (S G A : Type 0) : Type 0 where
  pub conn : S
  pub host : String
  pub os : String
  pub tun_name : String
  pub node_id : String
  pub display_name : String
  pub region : String
  pub direct : Bool
  pub rate_bytes : ℕ  -- a float64 of Ratelimit/Double
  pub reports : Bool
  pub sessions : List (ℕ × ExitSession S G)
  pub by_ip : List (A × ℕ)

-- What a MsgSessionStart carries.
pub record Start : Type 0 where
  pub session_id : ℕ
  pub client_ip : String
  pub stun_url : String
  pub turn_url : String
  pub turn_user : String
  pub turn_pass : String

-- The control messages that the loop tells apart; `R` is the JSON of a signal.
pub data ExitMessage (R : Type 0) : Type 0 where
  session_start : Start → ExitMessage R
  session_suspend session_end : ℕ → ExitMessage R
  pong : (session_id : ℕ) → (ts : ℤ) → ExitMessage R
  signal : ℕ → R → ExitMessage R
  unhandled : ExitMessage R

-- The goroutines that addSession starts.
pub data Task : Type 0 where
  telemetry : ℕ → Meta → Task
  run_direct : ℕ → Task

abbrev pub incoming_cap : ℕ
incoming_cap = 64

module _ {S G : Type 0} where
  -- A session that SessionStart asks for, once StartRelay has been called on `sess`.
  unfoldable pub new_exit_session : Session S → Start → ℕ → ExitSession S G
  new_exit_session sess msg now = record {
    sess = sess;
    incoming = [];
    client_ip = msg.client_ip;
    stun = msg.stun_url;
    turn = msg.turn_url;
    turn_user = msg.turn_user;
    turn_pass = msg.turn_pass;
    rtt = some (record { ms = pos 0 });
    started_at = now;
    suspended = false;
    suspended_at = none;
    bytes_up = 0;
  }

  -- es.incoming <- &s, or nothing if the channel is full.
  unfoldable pub push_signal : ExitSession S G → G → ExitSession S G
  push_signal es g =
      if ltb (length es.incoming) incoming_cap
      then record es { incoming = es.incoming ++ g ∷ [] }
      else es

module _ {S G A : Type 0} where
  -- serve at its start: the new connection, and empty tables.
  unfoldable pub bind : Exit S G A → S → Exit S G A
  bind e conn = record e { conn = conn; sessions = []; by_ip = [] }

  -- serve at its end.
  unfoldable pub unbind : Exit S G A → Exit S G A
  unbind e = record e { sessions = []; by_ip = [] }

  unfoldable pub session_meta : Exit S G A → Start → Meta
  session_meta e msg = record {
    host = e.host;
    tun_name = e.tun_name;
    os = e.os;
    using_stun = not (str_eq msg.stun_url "");
    using_turn = not (str_eq msg.turn_url "");
    downlink = true;
    host_stat = none;
  }

  -- The goroutines of a new session.
  unfoldable pub start_tasks : Exit S G A → Start → List Task
  unfolding session_meta
  start_tasks e msg =
      (if e.reports then telemetry msg.session_id (session_meta e msg) ∷ [] else [])
      ++ (if e.direct then run_direct msg.session_id ∷ [] else [])

  -- A change of the session with an id, where there is one.
  unfoldable pub at_session : Exit S G A → ℕ → (ExitSession S G → ExitSession S G) → Exit S G A
  at_session e sid f = elim (lookup sid e.sessions) [
    | none ↦ e
    | some es ↦ record e { sessions = insert sid (f es) e.sessions }
  ]

  -- The session of addSession and its path; the rate limit is set on the new object.
  unfoldable pub open_sess : Exit S G A → ℕ → Option (Session S)
  open_sess e sid =
      let path : EgressPath S = record { sender = some e.conn; encode = some (relay_encode sid) } in
      let (sess, refused) = start_relay_path (new_session sid) path in
      elim refused [
        | some err ↦ none
        | none ↦ some (
            if ltb 0 e.rate_bytes
            then set_rate_limit sess e.rate_bytes (e.rate_bytes * 2)
            else sess)
      ]

  module _ ⦃k : Key A⦄ (parse_addr : String → Option A) where
    unfoldable pub add_session : Exit S G A → Start → ℕ → Exit S G A × List Task
    unfolding open_sess new_exit_session start_tasks
    add_session e msg now = elim (parse_addr msg.client_ip) [
      | none ↦ (e, [])
      | some ip ↦ elim (lookup msg.session_id e.sessions) [
        | some es ↦ (
          record e {
            sessions = insert msg.session_id (record es { suspended = false }) e.sessions;
          },
          [],
        )
        | none ↦ elim (open_sess e msg.session_id) [
          | none ↦ (e, [])
          | some sess ↦ (
            record e {
              sessions = insert msg.session_id (new_exit_session sess msg now) e.sessions;
              by_ip = insert ip msg.session_id e.by_ip;
            },
            start_tasks e msg,
          )
        ]
      ]
    ]

    -- delete(e.byIP, ip), for the address of the session that goes.
    unfoldable pub forget_ip : Option (ExitSession S G) → List (A × ℕ) → List (A × ℕ)
    forget_ip none m = m
    forget_ip (some es) m = elim (parse_addr es.client_ip) [ none ↦ m | some ip ↦ delete ip m ]

    unfoldable pub remove_session : Exit S G A → ℕ → Exit S G A
    unfolding forget_ip
    remove_session e sid = record e {
      sessions = delete sid e.sessions;
      by_ip = forget_ip (lookup sid e.sessions) e.by_ip;
    }

    -- One round of controlLoop at the time `now`.
    unfoldable pub control :
        {R : Type 0} → (R → Option G) → Exit S G A → ExitMessage R → ℕ → Exit S G A × List Task
    unfolding add_session remove_session at_session push_signal
    control unmarshal e (session_start msg) now = add_session e msg now
    control unmarshal e (session_suspend sid) now =
        (at_session e sid (λ es. record es { suspended = true; suspended_at = some now }), [])
    control unmarshal e (session_end sid) now = (remove_session e sid, [])
    control unmarshal e (pong sid ts) now =
        (at_session e sid (λ es. record es { rtt = observe es.rtt now ts }), [])
    control unmarshal e (signal sid raw) now =
        (elim (unmarshal raw) [ none ↦ e | some g ↦ at_session e sid (λ es. push_signal es g) ], [])
    control unmarshal e unhandled now = (e, [])
