-- ===== src/Api.antt =====
-- internal/adminserver/adminserver.go and internal/auth/auth.go: who is let through to the handlers of
-- the management API. Api/Handlers has the handlers themselves.
-- The mutexes make each method of the session manager one step. The random token, the time in
-- nanoseconds, the decoded body of a request and strings.TrimSpace are parameters. Of an error the
-- answer keeps the status and the code, not the message.
pub mod Access
pub mod Login
pub mod Users
pub mod Handlers
mod Tests
use Prim.Native.Char.{Char, code}
use revquic.Prelude.{
  ℕ, ◌+◌, ◌*◌, Bool, true, false, ◌&&◌, ◌||◌, not, Option, none, some, List, [], ◌∷◌, String,
  str_eq, ltb, ◌==◌, if◌then◌else◌,
}
use revquic.Prelude.Assoc.{lookup, insert, delete, string_key}
use revquic.Userstore as users
use revquic.Admins as admins
use revquic.Proto.Datagram.{Bytes}

pub record Entry : Type 0 where
  pub role : String
  pub exp : ℕ

-- The users, the administrators, the token that is accepted beside those of logins, and the logins.
pub record Server : Type 0 where
  pub users : users.Table
  pub admins : Option admins.AccountTable
  pub bootstrap_token : String
  pub sessions : List (String × Entry)

-- Of a request: the Authorization header and the query parameter access_token.
pub record Request : Type 0 where
  pub authorization : String
  pub access_token : String

pub data Response {ℓ} (A : Type ℓ) : Type ℓ where
  answered : (status : ℕ) → A → Response A
  failed : (status : ℕ) → (err_code : String) → Response A
  empty : (status : ℕ) → Response A

-- subtle.ConstantTimeCompare
abbrev pub constant_equal : String → String → Bool
constant_equal a b = str_eq a b

-- strings.CutPrefix
unfoldable pub cut_prefix : String → String → Option String
cut_prefix String.[] s = some s
cut_prefix (String.◌∷◌ c p) String.[] = none
cut_prefix (String.◌∷◌ c p) (String.◌∷◌ d s) =
    let rest = cut_prefix p s in if code c == code d then rest else none

abbrev pub hour : ℕ
hour = 3600 * 1000000000

abbrev pub session_life : ℕ
session_life = 8 * hour

-- The sessions with the new one, its token and its end.
unfoldable pub issue :
    List (String × Entry) → (role tok : String) → (now : ℕ) → List (String × Entry) × String × ℕ
issue m role tok now =
    let exp = now + session_life in (insert tok (record { role = role; exp = exp }) m, tok, exp)

unfoldable pub valid_token : List (String × Entry) → String → ℕ → List (String × Entry) × Bool
valid_token m tok now = elim (lookup tok m) [
  | none ↦ (m, false)
  | some e ↦ if ltb e.exp now then (delete tok m, false) else (m, true)
]

unfoldable pub validate : Server → String → ℕ → Server × Bool
unfolding valid_token
validate s token now =
    if not (str_eq s.bootstrap_token "") && constant_equal token s.bootstrap_token
    then (s, true)
    else (let (m, good) = valid_token s.sessions token now in (record s { sessions = m }, good))

module _ (trim : String → String) where
  unfoldable pub bearer_token : Request → String
  unfolding cut_prefix
  bearer_token r = elim (cut_prefix "Bearer " r.authorization) [ none ↦ "" | some v ↦ trim v ]

  -- The token of RequireToken.
  unfoldable pub token_of : Request → String
  unfolding bearer_token
  token_of r = let tok = bearer_token r in if str_eq tok "" then r.access_token else tok

  -- RequireToken with the server's validate: whether the request goes on to the handler.
  unfoldable pub let_through : Server → Request → ℕ → Server × Bool
  unfolding token_of validate
  let_through s r now =
      let tok = token_of r in if str_eq tok "" then (s, false) else validate s tok now

  unfoldable pub require_token {ℓ} :
      {A : Type ℓ} → (Server → Server × Response A) → Server → Request → ℕ → Server × Response A
  unfolding let_through
  require_token next s r now =
      let (s', good) = let_through s r now in
      if good then next s' else (s', failed 401 "unauthorized")

  unfoldable pub require_admin {ℓ} : {A : Type ℓ} → String → Response A → Request → Response A
  unfolding bearer_token
  require_admin admin_token next r =
      if str_eq admin_token "" || not (constant_equal (bearer_token r) admin_token)
      then failed 401 "unauthorized"
      else next

module _ (hmac : Bytes → Bytes → Bytes) (encode64 : Bytes → Bytes)
    (decode64 : Bytes → Option Bytes) where
  -- The body is a user name and a password, if it can be decoded.
  unfoldable pub login :
      Server
      → Option (String × Bytes)
      → (tok : String) → (now : ℕ) → Server × Response (String × String × ℕ)
  unfolding issue
  login s none tok now = (s, failed 400 "bad_request")
  login s (some (username, password)) tok now = elim s.admins [
    | none ↦ (s, failed 503 "unavailable")
    | some t ↦ elim (admins.verify_account hmac encode64 decode64 t username password) [
      | admins.err _ ↦ (s, failed 401 "unauthorized")
      | admins.ok who ↦
          let (m, given, exp) = issue s.sessions who.role tok now in
          (record s { sessions = m }, answered 200 (given, who.role, exp))
    ]
  ]
