-- ===== src/Broker/Admission.antt =====
-- handleClient of cmd/revquic-broker/main.go from the client's first message to its session.
-- The OIDC verifier is a parameter: none, or what identity it finds in a token. The error texts are
-- named by their cause.
use revquic.Prelude.{
  ℕ, ◌≡◌, refl, Bool, true, false, Option, none, some, List, [], ◌∷◌, String, str_eq, arith,
  if◌then◌else◌,
}
use revquic.Prelude.Int.{ℤ}
use revquic.Prelude.Assoc.{lookup, nat_key, string_key}
use revquic.Userstore.{User, Table, authenticate_for_region, authorize_user}
use revquic.Userstore
use revquic.Broker.{Broker, Session, Client, select_exit, admit, try_resume}
use revquic.Broker.Resume.{try_resume_sound}

-- The fields of a Connect message that handleClient reads.
pub record Hello : Type 0 where
  pub token : String
  pub requested_region : String
  pub requested_exit : String
  pub resume_key : String
  pub name : String
  pub list_exits : Bool

-- proto.ExitInfo
pub record ExitInfo : Type 0 where
  pub node_id : String
  pub name : String
  pub region : String
  pub system : String
  pub active_users : ℕ
  pub capacity : ℤ

pub data Refusal : Type 0 where
  bad_identity exit_unavailable no_exit pool_exhausted : Refusal
  by_store : Userstore.Error → Refusal

pub data Outcome : Type 0 where
  refused : Refusal → Outcome
  listed : List ExitInfo → Outcome
  -- The session that runSession goes on with, and whether it is a resumed one.
  started : Session → Bool → Outcome

-- The list of the exits of a region.
unfoldable pub exit_list : Broker → List (String × ℕ) → String → List ExitInfo
exit_list b [] region = []
exit_list b ((_, ex) ∷ exits) region =
    let rest = exit_list b exits region in
    elim (lookup ex b.nodes) [
      | none ↦ rest
      | some e ↦
          let info : ExitInfo = record {
            node_id = e.node_id;
            name = e.name;
            region = e.region;
            system = e.os_info;
            active_users = b.active ex;
            capacity = e.capacity;
          } in
          if str_eq e.region region then info ∷ rest else rest
    ]

-- What the client is told where no exit was found.
abbrev pub no_choice : String → Refusal
no_choice requested = if str_eq requested "" then no_exit else exit_unavailable

abbrev pub admitted : Option Session → Outcome
admitted none = refused pool_exhausted
admitted (some s) = started s false

-- handleClient behind the resume: the choice of an exit and the new session.
unfoldable pub start_new : Broker → Hello → Client → (ℕ → ℕ) → Broker × Outcome
start_new b msg c intn =
    let (b1, chosen) = select_exit b msg.requested_exit msg.requested_region intn in
    elim chosen [
      | none ↦ (b1, refused (no_choice msg.requested_exit))
      | some ex ↦ elim (lookup ex b1.nodes) [
        | none ↦ (b1, refused (no_choice msg.requested_exit))
        | some e ↦ let (b2, s, _) = admit b1 c ex e in (b2, admitted s)
      ]
    ]

-- handleClient from the authorised user on.
unfoldable pub serve : Broker → Hello → User → (conn now : ℕ) → (ℕ → ℕ) → Broker × Outcome
serve b msg u conn now intn =
    let c : Client = record {
      conn = conn;
      username = u.username;
      user_id = u.id;
      name = msg.name;
      resume_key = msg.resume_key;
    } in
    let (b1, back) =
      if str_eq msg.resume_key ""
      then (b, none)
      else try_resume b msg.resume_key u.username conn now in
    if msg.list_exits
    then (b, listed (exit_list b b.exits msg.requested_region))
    else elim back [ some s ↦ (b1, started s true) | none ↦ start_new b1 msg c intn ]

module _ (hmac : String → String → String) (verifier : Option (String → Option String)) where
  -- The two ways of authorisation.
  unfoldable pub authorize : Table → Hello → Option (Userstore.Result User)
  authorize users msg = elim verifier [
    | none ↦ some (authenticate_for_region hmac users msg.token msg.requested_region)
    | some verify ↦ elim (verify msg.token) [
      | none ↦ none
      | some identity ↦ some (authorize_user users identity msg.requested_region)
    ]
  ]

  unfoldable pub handle_client :
      Broker → Table → Hello → (conn now : ℕ) → (ℕ → ℕ) → Broker × Outcome
  unfolding authorize serve
  handle_client b users msg conn now intn = elim (authorize users msg) [
    | none ↦ (b, refused bad_identity)
    | some (Userstore.err e) ↦ (b, refused (by_store e))
    | some (Userstore.ok u) ↦ serve b msg u conn now intn
  ]

refused-ne-started : {r : Refusal} {s : Session} {again : Bool} → ¬ (refused r ≡ started s again)
refused-ne-started e = cc

start_new-username :
    (b : Broker) (msg : Hello) (c : Client) (intn : ℕ → ℕ) (s : Session) (again : Bool)
    → (start_new b msg c intn).1 ≡ started s again
    → s.username ≡ c.username
unfolding start_new admit
start_new-username b msg c intn s again h = ground arith

try_resume-username :
    (b : Broker) (key username : String) (conn now : ℕ) (s : Session)
    → (try_resume b key username conn now).1 ≡ some s
    → s.username ≡ username
try_resume-username b key username conn now s h =
    let (ps, found, kept, gone) = try_resume_sound b key username conn now s h in kept.own_user

serve-username :
    (b : Broker) (msg : Hello) (u : User) (conn now : ℕ) (intn : ℕ → ℕ) (s : Session) (again : Bool)
    → (serve b msg u conn now intn).1 ≡ started s again
    → s.username ≡ u.username
unfolding serve
serve-username b msg u conn now intn s again h =
    let c : Client = record {
      conn = conn;
      username = u.username;
      user_id = u.id;
      name = msg.name;
      resume_key = msg.resume_key;
    } in
    ground (
      arith,
      try_resume-username b msg.resume_key u.username conn now s,
      start_new-username b msg c intn s again,
      start_new-username (try_resume b msg.resume_key u.username conn now).0 msg c intn s again,
    )

-- Whenever handleClient goes on with a session, new or resumed, its client has been authorised for
-- the region it asked for, by its token or by the identity that the OIDC verifier found in it, and
-- the session belongs to that user.
pub handle_client-authorized :
    (hmac : String → String → String) (verifier : Option (String → Option String)) (b : Broker)
    (users : Table) (msg : Hello) (conn now : ℕ) (intn : ℕ → ℕ) (s : Session) (again : Bool)
    → (handle_client hmac verifier b users msg conn now intn).1 ≡ started s again
    → (u : User) × (authorize hmac verifier users msg ≡ some (Userstore.ok u))
      × (s.username ≡ u.username)
unfolding handle_client
handle_client-authorized hmac verifier b users msg conn now intn s again h =
    go (authorize hmac verifier users msg) refl
  where
    go :
        (a : Option (Userstore.Result User))
        → authorize hmac verifier users msg ≡ a
        → (u : User) × (authorize hmac verifier users msg ≡ some (Userstore.ok u))
          × (s.username ≡ u.username)
    go none e = absurd (refused-ne-started (rw (e, handle_client) at h))
    go (some (Userstore.err x)) e = absurd (refused-ne-started (rw (e, handle_client) at h))
    go (some (Userstore.ok u)) e =
        (u, e, serve-username b msg u conn now intn s again (rw (e, handle_client) at h))
