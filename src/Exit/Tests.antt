-- ===== src/Exit/Tests.antt =====
-- An exit with the clients 10.8.0.2 and 10.8.0.3; an address is its text.
use revquic.Prelude.{
  ℕ, ◌≡◌, ◌≢◌, refl, sym, ap, ◌∙◌, true, false, none, some, List, [], ◌∷◌, String, arith, eq_iff,
  ◌==◌, if◌then◌else◌, Bool-cases, none_ne, some_inj, inl, inr, ==_iff,
}
use revquic.Prelude.Assoc.{lookup, insert, nat_key, string_key}
use revquic.Proto.Datagram.{Bytes, encode_datagram, decode_datagram, decoded, put_be, get_be}
use revquic.DirectPath.State.{fire, transitions, new_machine}
use revquic.Ratelimit.{allow}
use revquic.Session.{
  SendResult, sent, start_relay_path, migrate, fire_machine, set_path, new_session, send, transmit,
  relay_encode,
}
use revquic.Exit.{
  Exit, ExitSession, Start, session_start, session_suspend, bind, control, open_sess,
  new_exit_session, start_tasks, at_session, add_session, remove_session,
}
use revquic.Exit.Packet.{ipv4_dst, ipv4_src}
use revquic.Exit.Pump.{write_inbound, datagram_to_tun, tun_to_datagram}
use revquic.Exit.Steps.{Step, Calls, controls, run, step}
use revquic.Exit.Spoof.{reply_to_owner, return_path, stranger_reaches_tun}
use revquic.Exit.Routing.Run.{AllFresh, IsFreshStep}
use revquic.Exit.Takeover.{takeover_drops}
use revquic.Lb.{least_conn}
use revquic.Broker.{Broker, Session as Filed, relay, client_conn, add_bytes, datagram_to_exit}
use revquic.Exit.Naming.{Text, slugify, slug_loop, trim_left, trim_right}
use revquic.Exit.Naming.Slugs.{is_slug, is_words}

abbrev addr_of : ℕ → ℕ → ℕ → ℕ → String
addr_of a b c d = if d == 2 then "10.8.0.2" else "10.8.0.3"

abbrev calls : Calls ℕ ℕ String ℕ ℕ
calls = record {
  unmarshal = λ r. some r;
  parse_addr = λ s. some s;
  addr_from4 = addr_of;
  addr_string = λ s. s;
  send_datagram = λ sender dg. none;
}

abbrev idle : Exit ℕ ℕ String
idle = record {
  conn = 0;
  host = "h";
  os = "linux";
  tun_name = "tun0";
  node_id = "exit-1";
  display_name = "";
  region = "eu";
  direct = false;
  rate_bytes = 0;
  reports = false;
  sessions = [];
  by_ip = [];
}

abbrev start : ℕ → String → Start
start sid ip = record {
  session_id = sid;
  client_ip = ip;
  stun_url = "";
  turn_url = "";
  turn_user = "";
  turn_pass = "";
}

-- An IPv4 packet between 10.8.0.s and 10.8.0.d.
abbrev packet : ℕ → ℕ → Bytes
packet s d =
    69 ∷ 0 ∷ 0 ∷ 20 ∷ 0 ∷ 0 ∷ 0 ∷ 0 ∷ 64 ∷ 17 ∷ 0 ∷ 0 ∷ 10 ∷ 8 ∷ 0 ∷ s ∷ 10 ∷ 8 ∷ 0 ∷ d ∷ []

abbrev steps : List (Step ℕ ℕ)
steps =
    controls (session_start (start 1 "10.8.0.2")) 0
    ∷ controls (session_start (start 2 "10.8.0.3")) 0
    ∷ controls (session_suspend 1) 5
    ∷ []

abbrev served : Exit ℕ ℕ String
served = run calls (bind idle 9) steps

-- Replies to the first client find it, also while it is suspended.
reply_found :
    (tun_to_datagram calls.addr_from4 calls.send_datagram served 7 (packet 9 2)).1
    ≡ some (1, sent 9 (encode_datagram 1 (packet 9 2)))
unfolding run step control add_session open_sess new_exit_session start_tasks at_session bind
    start_relay_path migrate fire_machine set_path new_session new_machine fire transitions lookup
    insert tun_to_datagram ipv4_dst send transmit relay_encode allow
reply_found = refl

reply_to_owner_example :
    (es : ExitSession ℕ ℕ) × (lookup 1 served.sessions ≡ some es)
    × (ipv4_dst calls.addr_from4 (packet 9 2) ≡ calls.parse_addr es.client_ip)
reply_to_owner_example =
    reply_to_owner calls idle 9 steps 7 (packet 9 2) 1 (sent 9 (encode_datagram 1 (packet 9 2)))
      reply_found

-- The first session alone.
abbrev one : Exit ℕ ℕ String
one = step calls (bind idle 9) (controls (session_start (start 1 "10.8.0.2")) 0)

nobody : AllFresh calls (bind idle 9) []
unfolding AllFresh
nobody = tt

first_held :
    (es : ExitSession ℕ ℕ) × (lookup 1 one.sessions ≡ some es) × (es.client_ip ≡ "10.8.0.2")
unfolding run step control add_session open_sess new_exit_session start_tasks at_session bind
    start_relay_path migrate fire_machine set_path new_session new_machine fire transitions lookup
    insert
first_held = (_, refl, refl)

third_absent : lookup 3 one.sessions ≡ none
unfolding run step control add_session open_sess new_exit_session start_tasks at_session bind
    start_relay_path migrate fire_machine set_path new_session new_machine fire transitions lookup
    insert
third_absent = refl

only_one : (sid : ℕ) → (1 == sid) ≡ false → lookup sid one.sessions ≡ none
unfolding run step control add_session open_sess new_exit_session start_tasks at_session bind
    start_relay_path migrate fire_machine set_path new_session new_machine fire transitions lookup
    insert
only_one sid other = rw other refl

distinct : (start 1 "10.8.0.2").client_ip ≢ (start 2 "10.8.0.3").client_ip
distinct e = let bad : false ≡ true = (eq_iff "10.8.0.2" "10.8.0.3").1 e in cc

second_is_fresh : IsFreshStep calls one (controls (session_start (start 2 "10.8.0.3")) 0)
unfolding IsFreshStep
second_is_fresh sid es held other same = elim (Bool-cases (1 == sid)) [
  | inl first ↦
      let meet : first_held.0 ≡ es =
        some_inj
          (sym first_held.1 ∙ ap (λ n. lookup n one.sessions) ((==_iff 1 sid).0 first) ∙ held) in
      distinct (sym first_held.2 ∙ ap (λ x. x.client_ip) meet ∙ some_inj same)
  | inr absent ↦ none_ne (sym (only_one sid absent) ∙ held)
]

all_fresh : AllFresh calls (bind idle 9) steps
unfolding run step control add_session open_sess new_exit_session start_tasks at_session bind
    start_relay_path migrate fire_machine set_path new_session new_machine fire transitions lookup
    insert AllFresh IsFreshStep
all_fresh = ((λ sid es held _. elim (none_ne held) [ ]), (second_is_fresh, (tt, tt)))

same_address : ipv4_dst calls.addr_from4 (packet 9 2) ≡ ipv4_src calls.addr_from4 (packet 2 9)
unfolding ipv4_dst ipv4_src
same_address = refl

first_written :
    (datagram_to_tun calls.addr_from4 calls.addr_string served (encode_datagram 1 (packet 2 9))).1
    ≡ some (packet 2 9)
unfolding run step control add_session open_sess new_exit_session start_tasks at_session bind
    start_relay_path migrate fire_machine set_path new_session new_machine fire transitions lookup
    insert datagram_to_tun write_inbound ipv4_src encode_datagram decode_datagram put_be get_be
first_written = refl

return_path_example :
    (sid : ℕ) × (r : SendResult ℕ ℕ) × (decode_datagram (encode_datagram 1 (packet 2 9))
      ≡ decoded sid (packet 2 9))
    × ((tun_to_datagram calls.addr_from4 calls.send_datagram
          (datagram_to_tun calls.addr_from4 calls.addr_string served
            (encode_datagram 1 (packet 2 9))).0
          7
          (packet 9 2)).1
        ≡ some (sid, r))
return_path_example =
    return_path calls idle 9 steps (encode_datagram 1 (packet 2 9)) (packet 2 9) 7 (packet 9 2)
      (λ a. refl) all_fresh first_written same_address

to_first : ipv4_dst calls.addr_from4 (packet 9 2) ≡ some "10.8.0.2"
unfolding ipv4_dst
to_first = refl

takeover_drops_example :
    let e' =
      remove_session calls.parse_addr
        (add_session calls.parse_addr one (start 3 "10.8.0.2") 1).0
        1 in
    ((fs : ExitSession ℕ ℕ) × (lookup 3 e'.sessions ≡ some fs))
    × (tun_to_datagram calls.addr_from4 calls.send_datagram e' 7 (packet 9 2) ≡ (e', none))
takeover_drops_example =
    takeover_drops calls.parse_addr calls.addr_from4 calls.send_datagram one 1 first_held.0
      (start 3 "10.8.0.2") "10.8.0.2" 1 7 (packet 9 2) first_held.1 (ap some first_held.2) refl
      third_absent to_first

-- The broker with the session of a first client, whose connection is 11.
abbrev filed : Filed
filed = record {
  id = 1;
  region = "eu";
  client_addr = 168296450;
  username = "alice";
  user_id = "u1";
  name = "laptop";
  resume_key = "key-a";
  suspended = false;
  parked_at = 0;
  node_id = "exit-1";
  client = 11;
  exit = 0;
}

abbrev broker : Broker
broker = record {
  exits = [];
  nodes = [];
  next_node = 0;
  active = λ ex. 1;
  sessions = (1, filed) ∷ [];
  parked = [];
  resume_ttl = 100;
  next_session = 1;
  pool = record {
    prefix = record { addr = 168296448; bits = 29 };
    reserved = [];
    used = 168296450 ∷ [];
    next = none;
  };
  lb_strategy = least_conn;
  rr = 0;
}

filed_held : lookup 1 broker.sessions ≡ some filed
unfolding lookup
filed_held = refl

from_first : ipv4_src calls.addr_from4 (packet 2 9) ≡ some "10.8.0.2"
unfolding ipv4_src
from_first = refl

stranger_reaches_tun_example :
    (dg : Bytes) × (relay broker (client_conn 12) (encode_datagram 1 (packet 2 9))
      ≡ add_bytes 1 true 20 ∷ datagram_to_exit 0 dg ∷ [])
    × ((datagram_to_tun calls.addr_from4 calls.addr_string one dg).1 ≡ some (packet 2 9))
stranger_reaches_tun_example =
    stranger_reaches_tun calls.addr_from4 calls.addr_string broker filed 12 1 (packet 2 9)
      "10.8.0.2" one first_held.0 (omega arith) filed_held (omega arith) first_held.1 from_first
      (sym first_held.2)

abbrev same_text : Text → Text
same_text t = t

-- "my exit!" becomes "my-exit".
slugged :
    slugify same_text same_text (109 ∷ 121 ∷ 32 ∷ 32 ∷ 101 ∷ 120 ∷ 105 ∷ 116 ∷ 33 ∷ [])
    ≡ 109 ∷ 121 ∷ 45 ∷ 101 ∷ 120 ∷ 105 ∷ 116 ∷ []
unfolding slugify slug_loop trim_left trim_right
slugged = refl

abbrev slug : Text
slug = 109 ∷ 121 ∷ 45 ∷ 101 ∷ 49 ∷ []

slug_form : is_slug slug ≡ true
unfolding is_slug is_words
slug_form = refl
