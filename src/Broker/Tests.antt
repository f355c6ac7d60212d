-- ===== src/Broker/Tests.antt =====
-- A broker with one exit and two clients, one of which drops out and comes back.
use revquic.Prelude.{ℕ, String, ◌≡◌, ◌≢◌, refl, true, false, none, some, List, [], ◌∷◌, arith, ltb}
use revquic.Prelude.Int.{pos}
use revquic.Prelude.Assoc.{lookup, insert, delete, nat_key, string_key}
use revquic.Proto.Datagram.{encode_datagram, put_be}
use revquic.Ippool.{
  Pool, member, is_free, allocate, allocate_loop, grant, wrap, usable, is_broadcast, all_ones,
  bit_set,
}
use revquic.Lb.{least_conn}
use revquic.Broker.{
  Broker, Session, ExitNode, Client, admit, try_resume, suspend_session, expire_park, register_exit,
  add_bytes, datagram_to_client, datagram_to_exit, client_conn, exit_conn, relay,
}
use revquic.Userstore.{
  User, Table, authenticate_for_region, hash_token, check_access, region_allowed,
}
use revquic.Userstore
use revquic.Lb
use revquic.Lb.{pick, choose, least, id_at, sort, eligible, is_eligible, has_spare}
use revquic.Broker.{select_exit, candidates}
use revquic.Broker.Admission.{
  Hello, started, authorize, serve, start_new, handle_client, handle_client-authorized,
}
use revquic.Ippool
use revquic.Broker.{new_broker}
use revquic.Broker.Control.{exit_control, signal, signal_to_client}
use revquic.Broker.Steps.{Step, registers, admits, suspends, step, run}
use revquic.Broker.Ownership.{at_session, at_parked, holder}
use revquic.Broker.Ownership.Run.{run_owns, run_apart, run_in_use}
use revquic.Broker.Filing.{run_files}
use revquic.Broker.Resume.{Kept, try_resume_sound, suspend_resume, suspend_expire}
use revquic.Broker.Leaks.{suspend_session_leaks}
use revquic.Broker.Relay.{relay_forwards}

abbrev vpn : Pool
vpn = record {
  prefix = record { addr = 168296448; bits = 29 };
  reserved = 168296449 ∷ [];
  used = [];
  next = some 168296449;
}

abbrev empty_broker : Broker
empty_broker = record {
  exits = [];
  nodes = [];
  next_node = 0;
  active = λ ex. 0;
  sessions = [];
  parked = [];
  resume_ttl = 100;
  next_session = 0;
  pool = vpn;
  lb_strategy = least_conn;
  rr = 0;
}

abbrev exit_one : ExitNode
exit_one = record {
  node_id = "exit-1";
  name = "one";
  region = "eu";
  capacity = pos 0;
  os_info = "linux";
}

abbrev alice : Client
alice = record {
  conn = 11;
  username = "alice";
  user_id = "u1";
  name = "laptop";
  resume_key = "key-a";
}

abbrev bob : Client
bob = record { conn = 12; username = "bob"; user_id = "u2"; name = "phone"; resume_key = "key-b" }

-- Both connect; alice drops out at time 5 and is parked.
abbrev steps : List Step
steps =
    registers "secret" "secret" exit_one
    ∷ admits alice 0 exit_one
    ∷ admits bob 0 exit_one
    ∷ suspends 1 false 5
    ∷ []

abbrev alice_parked : Session
alice_parked = record {
  id = 1;
  region = "eu";
  client_addr = 168296450;
  username = "alice";
  user_id = "u1";
  name = "laptop";
  resume_key = "key-a";
  suspended = true;
  parked_at = 5;
  node_id = "exit-1";
  client = 11;
  exit = 0;
}

abbrev bob_live : Session
bob_live = record {
  id = 2;
  region = "eu";
  client_addr = 168296451;
  username = "bob";
  user_id = "u2";
  name = "phone";
  resume_key = "key-b";
  suspended = false;
  parked_at = 0;
  node_id = "exit-1";
  client = 12;
  exit = 0;
}

alice_is_parked : lookup "key-a" (run empty_broker steps).parked ≡ some alice_parked
unfolding run step register_exit admit suspend_session allocate allocate_loop grant wrap is_free
    usable is_broadcast all_ones bit_set member put_be lookup insert delete
alice_is_parked = refl

bob_is_live : lookup 2 (run empty_broker steps).sessions ≡ some bob_live
unfolding run step register_exit admit suspend_session allocate allocate_loop grant wrap is_free
    usable is_broadcast all_ones bit_set member put_be lookup insert delete
bob_is_live = refl

run_apart_example : at_session 2 ≡ at_session 2
unfolding holder
run_apart_example =
    run_apart empty_broker steps (at_session 2) (at_session 2) bob_live bob_live refl refl
      bob_is_live bob_is_live refl

run_in_use_example :
    (member 168296450 (run empty_broker steps).pool.used ≡ true)
    × (is_free (run empty_broker steps).pool (some 168296450) ≡ false)
unfolding holder
run_in_use_example =
    run_in_use empty_broker steps (at_parked "key-a") alice_parked refl refl alice_is_parked

-- The broker while both are connected.
abbrev joining : List Step
joining =
    registers "secret" "secret" exit_one ∷ admits alice 0 exit_one ∷ admits bob 0 exit_one ∷ []

abbrev alice_live : Session
alice_live = record alice_parked { suspended = false; parked_at = 0 }

abbrev alice_away : Broker
alice_away = record empty_broker {
  exits = ("exit-1", 0) ∷ [];
  nodes = (0, record exit_one { capacity = pos 100 }) ∷ [];
  pool = record vpn { used = 168296451 ∷ 168296450 ∷ []; next = some 168296452 };
  sessions = (2, bob_live) ∷ [];
  parked = ("key-a", alice_parked) ∷ [];
}

abbrev alice_back : Session
alice_back = record alice_parked { suspended = false; client = 21; exit = 0 }

alice_resumes : (try_resume alice_away "key-a" "alice" 21 60).1 ≡ some alice_back
unfolding try_resume lookup
alice_resumes = refl

too_late : (try_resume alice_away "key-a" "alice" 21 105).1 ≡ none
unfolding try_resume lookup
too_late = refl

other_user : (try_resume alice_away "key-a" "bob" 21 60).1 ≡ none
unfolding try_resume lookup
other_user = refl

try_resume_sound_example :
    (ps : Session) × (lookup "key-a" alice_away.parked ≡ some ps)
    × Kept alice_away "alice" 60 ps alice_back
    × (lookup "key-a" (try_resume alice_away "key-a" "alice" 21 60).0.parked ≡ none)
try_resume_sound_example =
    try_resume_sound alice_away "key-a" "alice" 21 60 alice_back alice_resumes

alice_is_live : lookup 1 (run empty_broker joining).sessions ≡ some alice_live
unfolding run step register_exit admit allocate allocate_loop grant wrap is_free usable is_broadcast
    all_ones bit_set member put_be lookup insert delete
alice_is_live = refl

exit_is_on : lookup "exit-1" (run empty_broker joining).exits ≡ some 0
unfolding run step register_exit admit allocate allocate_loop grant wrap is_free usable is_broadcast
    all_ones bit_set member put_be lookup insert delete
exit_is_on = refl

nothing_parked : (run empty_broker joining).parked ≡ []
unfolding run step register_exit admit allocate allocate_loop grant wrap is_free usable is_broadcast
    all_ones bit_set member put_be lookup insert delete
nothing_parked = refl

keeps_ttl : (run empty_broker joining).resume_ttl ≡ 100
unfolding run step register_exit admit allocate allocate_loop grant wrap is_free usable is_broadcast
    all_ones bit_set member put_be lookup insert delete
keeps_ttl = refl

suspend_resume_example :
    let b = run empty_broker joining in
    let parked : Broker = (suspend_session b 1 false 5).0 in
    let again : Session = record alice_live {
      suspended = false;
      client = 21;
      exit = 0;
      parked_at = 5;
    } in
    let resumed = try_resume parked "key-a" "alice" 21 60 in
    (resumed.1 ≡ some again)
    × (lookup 1 resumed.0.sessions ≡ some again)
    × (resumed.0.pool ≡ b.pool)
suspend_resume_example =
    suspend_resume (run empty_broker joining) 1 alice_live 21 0 5 60
      (run_files empty_broker joining refl refl) alice_is_live (λ e. cc) (omega (arith, keeps_ttl))
      exit_is_on

suspend_expire_example :
    let b = run empty_broker joining in
    (expire_park (suspend_session b 1 false 5).0 "key-a" 1).0 ≡ (suspend_session b 1 true 5).0
suspend_expire_example =
    suspend_expire (run empty_broker joining) 1 alice_live 5
      (run_files empty_broker joining refl refl) alice_is_live
      (rw nothing_parked (unfold lookup in refl))

-- Two connections of alice under one resume key; the first has been parked.
abbrev twice : List Step
twice =
    registers "secret" "secret" exit_one
    ∷ admits alice 0 exit_one
    ∷ admits (record alice { conn = 13 }) 0 exit_one
    ∷ suspends 1 false 5
    ∷ []

abbrev second_live : Session
second_live = record alice_live { id = 2; client = 13; client_addr = 168296451 }

second_is_live : lookup 2 (run empty_broker twice).sessions ≡ some second_live
unfolding run step register_exit admit allocate allocate_loop grant wrap is_free usable is_broadcast
    all_ones bit_set member put_be lookup insert delete suspend_session
second_is_live = refl

first_is_parked : lookup "key-a" (run empty_broker twice).parked ≡ some alice_parked
unfolding run step register_exit admit allocate allocate_loop grant wrap is_free usable is_broadcast
    all_ones bit_set member put_be lookup insert delete suspend_session
first_is_parked = refl

ttl_is_set : ltb 0 (run empty_broker twice).resume_ttl ≡ true
unfolding run step register_exit admit allocate allocate_loop grant wrap is_free usable is_broadcast
    all_ones bit_set member put_be lookup insert delete suspend_session
ttl_is_set = refl

replaces_first :
    holder (suspend_session (run empty_broker twice) 2 false 9).0 (at_parked "key-a")
    ≡ some (record second_live { suspended = true; parked_at = 9 })
unfolding run step register_exit admit allocate allocate_loop grant wrap is_free usable is_broadcast
    all_ones bit_set member put_be lookup insert delete suspend_session holder
replaces_first = refl

suspend_session_leaks_example :
    (member 168296450 (suspend_session (run empty_broker twice) 2 false 9).0.pool.used ≡ true)
    × (second_live.client_addr ≢ alice_parked.client_addr)
suspend_session_leaks_example =
    suspend_session_leaks (run empty_broker twice) 2 second_live alice_parked 9 (at_parked "key-a")
      (record second_live { suspended = true; parked_at = 9 })
      (run_owns empty_broker twice refl refl) second_is_live refl ttl_is_set first_is_parked
      replaces_first

relay_forwards_example :
    (relay (run empty_broker joining) (exit_conn 0) (encode_datagram 1 (69 ∷ []))
      ≡ add_bytes 1 false 1 ∷ datagram_to_client 11 (encode_datagram 1 (69 ∷ [])) ∷ [])
    × (relay (run empty_broker joining) (client_conn 11) (encode_datagram 1 (69 ∷ []))
        ≡ add_bytes 1 true 1 ∷ datagram_to_exit 0 (encode_datagram 1 (69 ∷ [])) ∷ [])
relay_forwards_example =
    relay_forwards (run empty_broker joining) 1 alice_live (69 ∷ []) (omega arith) alice_is_live

-- A client with a token of its own connects to the broker with one exit.
abbrev users : Table
users = record {
  by_id =
      (
        "u1",
        record {
          user = record {
            id = "u1";
            username = "alice";
            allowed_regions = "eu" ∷ [];
            status = "enabled";
            active_session_count = 0;
            created_at = 0;
            updated_at = 0;
          };
          hash = "token-a";
        },
      )
      ∷ [];
  by_hash = ("token-a", "u1") ∷ [];
  pepper = "p";
}

abbrev hello : Hello
hello = record {
  token = "token-a";
  requested_region = "eu";
  requested_exit = "";
  resume_key = "key-a";
  name = "laptop";
  list_exits = false;
}

abbrev keyed : String → String → String
keyed pepper token = token

abbrev one_exit : Broker
one_exit = record empty_broker {
  exits = ("exit-1", 0) ∷ [];
  nodes = (0, record exit_one { capacity = pos 100 }) ∷ [];
  next_node = 1;
}

alice_starts :
    (handle_client keyed none one_exit users hello 11 0 (λ n. 0)).1 ≡ started alice_live false
unfolding handle_client authorize authenticate_for_region hash_token check_access region_allowed
    serve start_new select_exit candidates pick choose least id_at sort Lb.insert eligible
    is_eligible has_spare try_resume admit allocate allocate_loop grant wrap is_free usable
    is_broadcast all_ones bit_set member put_be lookup insert delete
alice_starts = refl

handle_client-authorized_example :
    (u : User) × (authorize keyed none users hello ≡ some (Userstore.ok u))
    × (alice_live.username ≡ u.username)
handle_client-authorized_example =
    handle_client-authorized keyed none one_exit users hello 11 0 (λ n. 0) alice_live false
      alice_starts

first_address : (allocate new_broker.pool).1 ≡ Ippool.ok 174260226
unfolding new_broker allocate allocate_loop grant wrap is_free usable is_broadcast all_ones bit_set
    member put_be
first_address = refl

forwards_signal :
    exit_control {S = String} {R = ℕ} alice_away 0 (signal 2 "candidate")
    ≡ signal_to_client 12 2 "candidate" ∷ []
unfolding exit_control lookup
forwards_signal = refl
