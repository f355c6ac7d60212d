-- ===== src/Broker.antt =====
-- cmd/revquic-broker/main.go: the exits, the sessions and the parked sessions of the broker.
-- Each operation is what one handler does while it holds the broker's mutex, or between two such
-- stretches; what it writes to connections, to the QoS tracker and to the event bus comes back as a
-- list of outputs, in order. An exit object is a number (`nodes` holds what does not change in it,
-- `active` its counter), and so is a client connection. Times are in nanoseconds.
pub mod Steps
pub mod Control
pub mod Admission
pub mod Ownership
pub mod Resume
pub mod Filing
pub mod Leaks
pub mod Relay
mod Tests
use revquic.Prelude.{
  ℕ, zero, suc, ◌+◌, ◌-◌, ◌%◌, ◌^◌, Bool, true, false, ◌&&◌, ◌||◌, not, Option, none, some, List,
  [], ◌∷◌, ◌++◌, String, str_eq, ltb, leb, ◌==◌, if◌then◌else◌, length,
}
use revquic.Prelude.Int.{ℤ, pos, eq_zero, below}
use revquic.Prelude.Assoc.{lookup, insert, delete, nat_key, string_key}
use revquic.Proto.Datagram.{Bytes, decode_datagram, short_datagram, decoded}
use revquic.Ippool.{Pool}
use revquic.Ippool
use revquic.Lb.{least_conn, Strategy, Node, pick}

-- The part of `exitNode` that is set once.
pub record ExitNode : Type 0 where
  pub node_id : String
  pub name : String
  pub region : String
  pub capacity : ℤ
  pub os_info : String

-- `exit` stands for the connection and the control writer of the exit object, which a session takes
-- over together; `client` for those of the client connection.
pub record Session : Type 0 where
  pub id : ℕ
  pub region : String
  pub client_addr : ℕ
  pub username : String
  pub user_id : String
  pub name : String
  pub resume_key : String
  pub suspended : Bool
  pub parked_at : ℕ
  pub node_id : String
  pub client : ℕ
  pub exit : ℕ

pub record Broker : Type 0 where
  pub exits : List (String × ℕ)
  pub nodes : List (ℕ × ExitNode)
  pub next_node : ℕ
  pub active : ℕ → ℕ
  pub sessions : List (ℕ × Session)
  pub parked : List (String × Session)
  pub resume_ttl : ℕ
  pub next_session : ℕ
  pub pool : Pool
  pub lb_strategy : Strategy
  pub rr : ℕ

-- newBroker: one hour to resume, and the pool 10.99.0.0/24 without its gateway 10.99.0.1.
unfoldable pub new_broker : Broker
new_broker = record {
  exits = [];
  nodes = [];
  next_node = 0;
  active = λ ex. 0;
  sessions = [];
  parked = [];
  resume_ttl = 3_600_000_000_000;
  next_session = 0;
  pool = record {
    prefix = record { addr = 174260224; bits = 24 };
    reserved = 174260225 ∷ [];
    used = [];
    next = some 174260225;
  };
  lb_strategy = least_conn;
  rr = 0;
}

-- The control messages that the operations send.
pub data Message : Type 0 where
  register_ok : Message
  error : String → Message
  -- "exit node <id> disconnected; please reconnect"
  exit_disconnected : String → Message
  session_end session_suspend : ℕ → Message

-- What an operation does outside the broker's own state.
pub data Output : Type 0 where
  to_exit to_client : ℕ → Message → Output
  close_client : ℕ → Output
  datagram_to_exit datagram_to_client : ℕ → Bytes → Output
  node_up : String → String → Output
  node_down : String → Output
  qos_connect : ℕ → String → String → String → Output
  qos_disconnect : ℕ → Output
  add_bytes : ℕ → Bool → ℕ → Output
  node_connected session_started session_ended : ℕ → Output
  node_disconnected : String → Output

-- ex.active.Add(1) and ex.active.Add(-1), on the counter of the sessions that the exit carries.
abbrev pub add_active : ℕ → (ℕ → ℕ) → ℕ → ℕ
add_active ex active r = if r == ex then active r + 1 else active r

abbrev pub sub_active : ℕ → (ℕ → ℕ) → ℕ → ℕ
sub_active ex active r = if r == ex then active r - 1 else active r

-- handleExit up to its read loop: `msg` carries the fields of the Register message.
unfoldable pub register_exit :
    Broker → (token node_secret : String) → ExitNode → Broker × List Output
register_exit b token node_secret msg =
    let capacity = if eq_zero msg.capacity then pos 100 else msg.capacity in
    let ex = b.next_node in
    if str_eq token node_secret
    then (
      record b {
        exits = insert msg.node_id ex b.exits;
        nodes = insert ex (record msg { capacity = capacity }) b.nodes;
        next_node = b.next_node + 1;
        active = λ r. if r == ex then 0 else b.active r;
      },
      to_exit ex register_ok ∷ node_up msg.node_id msg.region ∷ node_connected ex ∷ [],
    )
    else (b, to_exit ex (error "bad node token") ∷ [])

-- The loop of failExit over b.sessions.
unfoldable pub fail_sessions : String → List (ℕ × Session) → List Output
fail_sessions node_id [] = []
fail_sessions node_id ((sid, s) ∷ rest) =
    let later = fail_sessions node_id rest in
    if str_eq s.node_id node_id
    then to_client s.client (exit_disconnected node_id) ∷ close_client s.client ∷ later
    else later

-- handleExit behind its read loop, for an exit that registered as `node_id`.
unfoldable pub exit_gone : Broker → String → Broker × List Output
unfolding fail_sessions
exit_gone b node_id = (
  record b { exits = delete node_id b.exits },
  node_down node_id ∷ node_disconnected node_id ∷ fail_sessions node_id b.sessions,
)

-- What the broker shows to the load balancer: one node for each registered exit.
unfoldable pub candidates : Broker → List (String × ℕ) → List Node
candidates b [] = []
candidates b ((_, ex) ∷ exits) =
    let rest = candidates b exits in
    elim (lookup ex b.nodes) [
      | none ↦ rest
      | some e ↦
          record { id = e.node_id; region = e.region; active = b.active ex; capacity = e.capacity }
          ∷ rest
    ]

-- The manual selection of handleClient.
unfoldable pub named_exit : Broker → (requested region : String) → Option ℕ
named_exit b requested region = elim (lookup requested b.exits) [
  | none ↦ none
  | some ex ↦ elim (lookup ex b.nodes) [
    | none ↦ none
    | some e ↦
        if str_eq e.region region && (eq_zero e.capacity || below (b.active ex) e.capacity)
        then some ex
        else none
  ]
]

-- The choice of an exit in handleClient: manual if the client names one, by the load balancer if not.
-- `intn` is what rand.Intn answers to a bound.
unfoldable pub select_exit : Broker → (requested region : String) → (ℕ → ℕ) → Broker × Option ℕ
unfolding named_exit candidates
select_exit b requested region intn =
    let (chosen, rr) = pick b.lb_strategy region (candidates b b.exits) (some b.rr) intn in
    if str_eq requested ""
    then (
      record b { rr = elim rr [ none ↦ b.rr | some i ↦ i ] },
      elim chosen [ none ↦ none | some id ↦ lookup id b.exits ],
    )
    else (b, named_exit b requested region)

pub record Client : Type 0 where
  pub conn : ℕ
  pub username : String
  pub user_id : String
  pub name : String
  pub resume_key : String

-- A new session of handleClient on the exit object `ex`, from the new session id on.
unfoldable pub admit : Broker → Client → ℕ → ExitNode → Broker × Option Session × List Output
admit b c ex e =
    let sid = (b.next_session + 1) % 2 ^ 64 in
    let (pool, got) = Ippool.allocate b.pool in
    let counted : Broker = record b { next_session = sid; pool = pool } in
    elim got [
      | Ippool.Result.ok addr ↦
          let s : Session = record {
            id = sid;
            region = e.region;
            client_addr = addr;
            username = c.username;
            user_id = c.user_id;
            name = c.name;
            resume_key = c.resume_key;
            suspended = false;
            parked_at = 0;
            node_id = e.node_id;
            client = c.conn;
            exit = ex;
          } in
          (
            record counted { sessions = insert sid s b.sessions; active = add_active ex b.active },
            some s,
            qos_connect sid e.node_id e.region c.username ∷ [],
          )
      | _ ↦ (counted, none, to_client c.conn (error "exit address pool exhausted") ∷ [])
    ]

-- tryResume, with the current time. `none` leaves the broker to a new session.
unfoldable pub try_resume :
    Broker → (resume_key username : String) → (conn now : ℕ) → Broker × Option Session
try_resume b resume_key username conn now = elim (lookup resume_key b.parked) [
  | none ↦ (b, none)
  | some ps ↦ elim (lookup ps.node_id b.exits) [
    | none ↦ (b, none)
    | some ex ↦
        let s : Session = record ps { suspended = false; client = conn; exit = ex } in
        if not (str_eq ps.username username) || leb b.resume_ttl (now - ps.parked_at)
        then (b, none)
        else (
          record b {
            parked = delete resume_key b.parked;
            sessions = insert ps.id s b.sessions;
            active = add_active ex b.active;
          },
          some s,
        )
  ]
]

-- suspendSession at the end of the client connection of session `sid`.
unfoldable pub suspend_session :
    Broker → (sid : ℕ) → (intentional : Bool) → (now : ℕ) → Broker × List Output
suspend_session b sid intentional now = elim (lookup sid b.sessions) [
  | none ↦ (b, [])
  | some s ↦
      let b1 : Broker = record b {
        sessions = delete sid b.sessions;
        active = sub_active s.exit b.active;
      } in
      if not intentional && not (str_eq s.resume_key "") && ltb 0 b.resume_ttl
      then (
        record b1 {
          parked = insert s.resume_key (record s { suspended = true; parked_at = now }) b.parked;
        },
        to_exit s.exit (session_suspend sid) ∷ [],
      )
      else (
        record b1 { pool = Ippool.release b.pool s.client_addr },
        to_exit s.exit (session_end sid) ∷ qos_disconnect sid ∷ session_ended sid ∷ [],
      )
]

-- What expirePark tells the exit, if one is registered under the session's node id.
abbrev pub end_at_exit : Option ℕ → ℕ → List Output
end_at_exit none sid = []
end_at_exit (some ex) sid = to_exit ex (session_end sid) ∷ []

-- expirePark: the timer of session `sid`, which was parked under `resume_key`, has run out.
unfoldable pub expire_park : Broker → (resume_key : String) → (sid : ℕ) → Broker × List Output
expire_park b resume_key sid = elim (lookup resume_key b.parked) [
  | none ↦ (b, [])
  | some s ↦ if not (s.id == sid) || not s.suspended then (b, []) else (
    record b { parked = delete resume_key b.parked; pool = Ippool.release b.pool s.client_addr },
    end_at_exit (lookup s.node_id b.exits) sid ++ (qos_disconnect sid ∷ session_ended sid ∷ []),
  )
]

-- endSession: runSession could not send SessionStart to the exit of session `sid`.
unfoldable pub end_session : Broker → (sid : ℕ) → Broker × List Output
end_session b sid = elim (lookup sid b.sessions) [
  | none ↦ (b, [])
  | some s ↦ (
    record b {
      sessions = delete sid b.sessions;
      active = sub_active s.exit b.active;
      pool = Ippool.release b.pool s.client_addr;
    },
    to_exit s.exit (session_end sid) ∷ [],
  )
]

-- A QUIC connection of the broker.
pub data Conn : Type 0 where
  client_conn exit_conn : ℕ → Conn

-- conn == s.exitConn
abbrev pub is_exit_of : Session → Conn → Bool
is_exit_of s (client_conn c) = false
is_exit_of s (exit_conn ex) = ex == s.exit

-- One round of relayLoop: the datagram `dg` has come in on `conn`.
unfoldable pub relay : Broker → Conn → Bytes → List Output
relay b conn dg = elim (decode_datagram dg) [
  | short_datagram n ↦ []
  | decoded sid pkt ↦ elim (lookup sid b.sessions) [
    | none ↦ []
    | some s ↦
        if is_exit_of s conn
        then add_bytes sid false (length pkt) ∷ datagram_to_client s.client dg ∷ []
        else add_bytes sid true (length pkt) ∷ datagram_to_exit s.exit dg ∷ []
  ]
]
