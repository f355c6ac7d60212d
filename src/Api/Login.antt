-- ===== src/Api/Login.antt =====
-- From the account of an administrator to the requests that its login allows.
use revquic.Prelude.{arith, true, ℕ, ◌+◌, ◌≡◌, ◌≢◌, refl, Option, none, some, String, length}
use revquic.Prelude.Assoc.{lookup, insert, string_key, lookup-insert, beq_self}
use revquic.Proto.Datagram.{Bytes}
use revquic.Password.Round.{IsPlain}
use revquic.Admins.{Public, AccountTable, ok, create_account, verify_account}
use revquic.Admins.Accounts.{given_role, create_verifies}
use revquic.Api.{Entry, Server, Request, Response, answered, session_life, issue, token_of, login}
use revquic.Api.Access.{Serves, login-Serves}

module _ (hmac : Bytes → Bytes → Bytes) (encode64 : Bytes → Bytes)
    (decode64 : Bytes → Option Bytes) where
  -- The server after a login.
  abbrev pub logged_in : Server → (role tok : String) → (now : ℕ) → Server
  logged_in s role tok now = record s {
    sessions = insert tok (record { role = role; exp = now + session_life }) s.sessions;
  }

  login_accepted :
      (s : Server) (t : AccountTable) (username : String) (password : Bytes) (who : Public)
      (tok : String) (now : ℕ)
      → s.admins ≡ some t
      → verify_account hmac encode64 decode64 t username password ≡ ok who
      → login hmac encode64 decode64 s (some (username, password)) tok now
        ≡ (logged_in s who.role tok now, answered 200 (tok, who.role, now + session_life))
  unfolding login issue
  login_accepted s t username password who tok now held good = ground arith

  module _ (full : (key msg : Bytes) → length (hmac key msg) ≡ 32)
      (decodes : (b : Bytes) → decode64 (encode64 b) ≡ some b)
      (plain : (b : Bytes) → IsPlain (encode64 b)) where
    -- Once Create has made an account under a free name, whatever its role, a login with its password
    -- is answered with the token and the role. A request that carries this token, which is not blank,
    -- then runs its handler for eight hours; after that it is refused and the token is forgotten, if
    -- it is not the bootstrap token.
    pub account_opens :
        (trim : String → String) {A : Type 0} (next : Server → Server × Response A) (s : Server)
        (t : AccountTable) (username : String) (password : Bytes) (role : String) (salt : Bytes)
        (created now later : ℕ) (tok : String) (r : Request)
        → lookup username t ≡ none
        → s.admins
          ≡ some
              (create_account hmac encode64 decode64 t username password role
                (some salt)
                created
                true).0
        → token_of trim r ≡ tok
        → tok ≢ ""
        → let (s', reply) = login hmac encode64 decode64 s (some (username, password)) tok now in
          (reply ≡ answered 200 (tok, given_role role, now + session_life))
          × Serves trim next s' r tok (now + session_life) later
    account_opens trim next s t username password role salt created now later tok r free held own
          filled =
        let (good, _, _) =
          create_verifies hmac full encode64 decode64 decodes plain t username password role salt
            created true free in
        let e : Entry = record { role = given_role role; exp = now + session_life } in
        rw (login_accepted s _ username password _ tok now held good) (
          refl,
          login-Serves trim next (logged_in s (given_role role) tok now) r tok e later own filled
              (rw (lookup-insert tok tok e s.sessions, beq_self tok) refl),
        )
