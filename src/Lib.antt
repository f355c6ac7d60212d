-- ===== src/Lib.antt =====
-- Verification of revquic, a VPN whose clients reach exit nodes through a broker.
--
-- The program: exits and clients connect to the broker (cmd/revquic-broker) over QUIC. The broker
-- authenticates a client, chooses an exit for it (internal/lb), gives it a VPN address
-- (internal/ippool) and a session id, and relays its datagrams, each an IP packet behind the session
-- id (internal/proto). A session whose client drops out is parked under the client's resume key and
-- can be taken up again until its time is over. Exit and client may move a session from the relay to
-- a direct path (internal/directpath decides whether and tracks the state; internal/session ties the
-- state to the path that packets leave on, counts them and limits their rate with
-- internal/ratelimit).
--
-- The files, each with the code it models:
--   Prelude           numbers, lists, Go maps as association lists, signed ints, string order
--   Proto             internal/proto/proto.go: EncodeDatagram and DecodeDatagram (Proto/Datagram),
--                     WriteControl and ReadControl (Proto/Framing); what arrives (Proto/Delivery)
--   DirectPath        internal/directpath: state.go (DirectPath/State), decision.go
--                     (DirectPath/Decision), with the runs of events and the policy below them
--   Ratelimit         internal/ratelimit/ratelimit.go: Bucket, NewBucket, Allow; Ratelimit/Double
--                     (float64), Ratelimit/Rounding, Ratelimit/Seconds, Ratelimit/Calls,
--                     Ratelimit/Budget
--   Session           internal/session/session.go; Session/Paths (which path a state sends on),
--                     Session/Stats (the counters), Session/Race (two methods at once, by their steps)
--   Ippool            internal/ippool/ippool.go; Ippool/Sweep (the loop of Allocate),
--                     Ippool/Broadcast (isBroadcast by bits), Ippool/Ledger (any run of calls),
--                     Ippool/Refine (the pool as a set of addresses)
--   Lb                internal/lb/lb.go; Lb/Members, Lb/Least, Lb/Rotation
--   Broker            cmd/revquic-broker/main.go: handleExit, failExit, handleClient, tryResume,
--                     suspendSession, expirePark, endSession, relayLoop; Broker/Steps (any order of
--                     these), Broker/Admission (handleClient as a whole), Broker/Control
--                     (the control read loops), Broker/Ownership (addresses), Broker/Filing
--                     (keys), Broker/Resume, Broker/Leaks, Broker/Relay
--   Userstore         internal/userstore/userstore.go and the user types of internal/adminapi:
--                     Create, Get, List, Update, Delete, AuthenticateForRegion, AuthorizeUser;
--                     Userstore/Index (the token index), Userstore/Tokens (who gets in)
--   Qos               internal/qos/qos.go: NodeUp, NodeDown, Connect, Disconnect, AddBytes, Report,
--                     Session, Sessions, History; Qos/History, Qos/Speed, Qos/Totals
--   Exit              cmd/revquic-exit/main.go: serve, controlLoop, addSession, removeSession;
--                     Exit/Packet and Exit/Pump (datagramToTun, tunToDatagram, writeInbound),
--                     Exit/Steps (any order of these), Exit/Demux and Exit/Routing (the address
--                     table), Exit/Spoof (whose packets go where), Exit/Takeover, Exit/Naming
--                     (deriveNodeID, slugify), Exit/Status (statusViews of status.go)
--   Upgrade           runDirect of cmd/revquic-exit/main.go and cmd/revquic-client/main.go;
--                     Upgrade/Moves, Upgrade/Back (client), Upgrade/ExitBack (exit)
--   Password          internal/pwhash/pwhash.go; Password/Round (Hash, then Verify)
--   Admins            internal/adminstore/adminstore.go: Create, Verify, List, load; Admins/Accounts
--   Api               internal/auth/auth.go and internal/adminserver/adminserver.go: the token check
--                     and the logins; Api/Handlers (users, nodes, regions), Api/Access (who is let
--                     through), Api/Login (from an account to its requests), Api/Users (from the
--                     creation of a user to the token check)
--   Telemetry         internal/telemetry/telemetry.go: RTT and the ticks of Run; Telemetry/Totals
--   Socks             internal/socks/socks.go: the parsers; Socks/Server (handle), Socks/Requests
--                     and Socks/Soundness (requests as bytes), Socks/Handshake
--   Oidc              internal/oidc/oidc.go: the keys; Oidc/Verify, Oidc/Sound, Oidc/Keys
--   Conf              internal/conf/conf.go: ApplyFile; Conf/Settings
--   Shutdown          internal/shutdown/shutdown.go: OnSignals; Shutdown/Presses
--   Events            internal/events/events.go; Events/Delivery (what a subscriber receives)
-- The modules Tests hold runs and an example for each result that has hypotheses.
--
-- State is passed explicitly: an operation takes the state and returns the new one with its answer,
-- and what the broker writes to connections, to the QoS tracker and to the event bus is a list of
-- outputs. A mutex makes an operation one step; where a method has two critical sections and the gap
-- matters, Session/Race models it. admit is the stretch of handleClient from the session id to the
-- table entry as one step; the pool has its own lock there.
--
-- Bounds: the loop of Allocate has no bound but its own test, so allocate_loop has fuel, 2 ^ (host
-- bits) + 3, which Ippool/Sweep shows is never used up. Session ids and counters wrap at 2 ^ 64. The
-- rate limiter computes with float64 as the code does (Ratelimit/Double): numbers that are not
-- negative, in units of 2 ^ -1074, each result rounded to 53 bits, without NaN and infinities. The
-- load fractions of lb and the throughputs of qos are compared as fractions. Addresses are IPv4; the
-- pool's prefix has at most 32 bits.
--
-- While runDirect is under way the TUN pump goes on sending; Upgrade models this as calls of Send
-- between its steps and among the datagrams that come in. What else may happen then, the relay's
-- datagrams, signals and the reports, does not touch the session's state, path and counters.
--
-- Parameters: the JSON codec of control messages, the writer, SendDatagram, rand.Intn, HMAC-SHA256,
-- the clock, net/netip and net.IP as text, TrimSpace and ToLower, the parsers of the flag package, the
-- SOCKS proxy's resolvers and dialer, base64, JSON, RSA and HTTP of the OIDC verifier, that verifier
-- itself for the broker, the bodies of requests and what rand.Read gives.
--
-- Not modelled: the QUIC, TLS, ICE and TUN code, the views of qos and sessions and the event stream
-- of the admin server, the TURN credentials, the files and the databases of the stores of users and
-- of administrators, the history store of qos, the client but for its runDirect, the set-up of the
-- exit node, the ICE negotiation, the web front end. The order in which Go ranges over a map is not
-- fixed; the model lists a map in the order of insertion, and lb sorts what it is given.
pub mod Prelude
pub mod Proto
pub mod DirectPath
pub mod Ratelimit
pub mod Session
pub mod Ippool
pub mod Lb
pub mod Broker
pub mod Userstore
pub mod Qos
pub mod Events
pub mod Admins
pub mod Api
pub mod Conf
pub mod Exit
pub mod Oidc
pub mod Password
pub mod Shutdown
pub mod Socks
pub mod Telemetry
pub mod Upgrade
