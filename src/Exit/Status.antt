-- ===== src/Exit/Status.antt =====
-- statusViews of cmd/revquic-exit/status.go, without the throughput samples.
use revquic.Prelude.{
  ℕ, ◌+◌, ◌-◌, ◌/◌, ◌≤◌, ◌≡◌, refl, sym, inl, inr, Bool-cases, leb→le, ltb→lt, Bool, true, false,
  List, [], ◌∷◌, String, arith, str_eq, not, leb, if◌then◌else◌, length,
}
use revquic.Prelude.Int.{ℤ}
use revquic.Session.{is_direct}
use revquic.Telemetry.{millis}
use revquic.Exit.{Exit, ExitSession}

pub record StatusInfo : Type 0 where
  pub node_id : String
  pub name : String
  pub region : String
  pub os : String
  pub clients : ℕ
  pub parked : ℕ

pub record StatusSession : Type 0 where
  pub session_id : ℕ
  pub client_ip : String
  pub mode : String
  pub state : String
  pub latency_ms : ℤ
  pub bytes_up : ℕ
  pub bytes_down : ℕ
  pub using_turn : Bool
  pub duration_sec : ℕ

-- sort.Slice by the session id, one view at a time.
unfoldable pub insert_view : StatusSession → List StatusSession → List StatusSession
insert_view v [] = v ∷ []
insert_view v (w ∷ out) =
    let rest = insert_view v out in if leb v.session_id w.session_id then v ∷ w ∷ out else w ∷ rest

module _ {S G : Type 0} where
  unfoldable pub status_session : ℕ → ℕ → ExitSession S G → StatusSession
  status_session now sid es = record {
    session_id = sid;
    client_ip = es.client_ip;
    mode = if is_direct es.sess then "direct" else "relay";
    state = if es.suspended then "parked" else "active";
    latency_ms = millis es.rtt;
    bytes_up = es.bytes_up;
    bytes_down = es.sess.bytes_sent;
    using_turn = not (str_eq es.turn "");
    duration_sec = (now - es.started_at) / 1_000_000_000;
  }

  -- The views, and how many sessions are parked.
  unfoldable pub collect : ℕ → List (ℕ × ExitSession S G) → List StatusSession × ℕ
  unfolding status_session insert_view
  collect now [] = ([], 0)
  collect now ((sid, es) ∷ rest) =
      let (out, parked) = collect now rest in
      (insert_view (status_session now sid es) out, (if es.suspended then 1 else 0) + parked)

unfoldable pub status_views : {S G A : Type 0} → Exit S G A → ℕ → StatusInfo × List StatusSession
unfolding collect
status_views e now =
    let (out, parked) = collect now e.sessions in
    (
      record {
        node_id = e.node_id;
        name = e.display_name;
        region = e.region;
        os = e.os;
        clients = length out - parked;
        parked = parked;
      },
      out,
    )

-- The views in the order of their ids.
pub IsSorted : ℕ → List StatusSession → Type 0
IsSorted low [] = Unit {0}
IsSorted low (v ∷ out) = (low ≤ v.session_id) × IsSorted v.session_id out

-- How many views say "parked".
pub count_parked : List StatusSession → ℕ
count_parked [] = 0
count_parked (v ∷ out) = (if str_eq v.state "parked" then 1 else 0) + count_parked out

insert_view-IsSorted :
    (low : ℕ) (v : StatusSession) (out : List StatusSession)
    → low ≤ v.session_id
    → IsSorted low out
    → IsSorted low (insert_view v out)
unfolding insert_view IsSorted
insert_view-IsSorted low v [] h s = (h, tt)
insert_view-IsSorted low v (w ∷ out) h (first, rest) =
    elim (Bool-cases (leb v.session_id w.session_id)) [
      | inl e ↦ rw e (h, (leb→le v.session_id w.session_id e, rest))
      | inr e ↦ rw e (
        first,
        insert_view-IsSorted w.session_id v out (ground (arith, ltb→lt w.session_id v.session_id))
            rest,
      )
    ]

insert_view_counts :
    (v : StatusSession) (out : List StatusSession)
    → (length (insert_view v out) ≡ length out + 1)
      × (count_parked (insert_view v out) ≡ count_parked (v ∷ []) + count_parked out)
unfolding insert_view count_parked
insert_view_counts v [] = ground arith
insert_view_counts v (w ∷ out) = ground (arith, insert_view_counts v out)

state_text :
    (b : Bool)
    → ◌≡◌ {A = ℕ}
        (if str_eq (if b then "parked" else "active") "parked" then 1 else 0)
        (if b then 1 else 0)
state_text true = refl
state_text false = refl

module _ {S G : Type 0} where
  parked_view :
      (now sid : ℕ) (es : ExitSession S G)
      → count_parked (status_session now sid es ∷ []) ≡ (if es.suspended then 1 else 0)
  unfolding count_parked status_session
  parked_view now sid es = omega (arith, state_text es.suspended)

  collect_facts :
      (now : ℕ) (rest : List (ℕ × ExitSession S G))
      → let (out, parked) = collect now rest in
        IsSorted 0 out
        × (length out ≡ length rest)
        × (count_parked out ≡ parked)
        × (parked ≤ length rest)
  unfolding collect IsSorted count_parked
  collect_facts now [] = (tt, refl, refl, omega arith)
  collect_facts now ((sid, es) ∷ rest) =
      let (sorted, long, parked, few) = collect_facts now rest in
      let v = status_session now sid es in
      let out = (collect now rest).0 in
      (
        insert_view-IsSorted 0 v out (omega arith) sorted,
        omega (arith, insert_view_counts v out, long),
        omega (arith, insert_view_counts v out, parked_view now sid es, parked),
        ground (arith, few),
      )

-- The status page shows one view for each session of the exit, in the order of their ids; the
-- number of parked sessions that it gives is the number of views that say so, and with the number
-- of clients it makes up all sessions.
pub status_views_complete :
    {S G A : Type 0} (e : Exit S G A) (now : ℕ)
    → let (info, out) = status_views e now in
      IsSorted 0 out
      × (length out ≡ length e.sessions)
      × (info.parked ≡ count_parked out)
      × (info.clients + info.parked ≡ length e.sessions)
unfolding status_views
status_views_complete e now =
    let (sorted, long, parked, few) = collect_facts now e.sessions in
    (sorted, long, sym parked, omega (arith, long, few))
