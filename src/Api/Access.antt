-- ===== src/Api/Access.antt =====
-- Who is let through, and for how long.
use revquic.Prelude.{
  ℕ, ◌≤◌, ◌<◌, ◌≡◌, ◌≢◌, refl, ◌↔◌, ◌⊎◌, true, false, some, List, String, arith, eq_iff,
  if◌then◌else◌,
}
use revquic.Prelude.Assoc.{lookup, delete, string_key}
use revquic.Api.{
  Entry, Server, Request, Response, failed, valid_token, validate, token_of, let_through,
  require_token,
}

-- The token of a login that is not over yet.
abbrev pub IsOpen : List (String × Entry) → String → ℕ → Type 0
IsOpen m tok now = (e : Entry) × (lookup tok m ≡ some e) × (now ≤ e.exp)

-- The token beside those of logins, where there is one.
abbrev pub IsBootstrap : Server → String → Type 0
IsBootstrap s tok = (s.bootstrap_token ≢ "") × (tok ≡ s.bootstrap_token)

valid_token_iff :
    (m : List (String × Entry)) (tok : String) (now : ℕ)
    → ((valid_token m tok now).1 ≡ true) ↔ IsOpen m tok now
unfolding valid_token
valid_token_iff m tok now = ground arith

validate_iff :
    (s : Server) (tok : String) (now : ℕ)
    → ((validate s tok now).1 ≡ true) ↔ (IsBootstrap s tok ⊎ IsOpen s.sessions tok now)
unfolding validate
validate_iff s tok now = ground (
  arith,
  valid_token_iff s.sessions tok now,
  eq_iff s.bootstrap_token "",
  eq_iff tok s.bootstrap_token,
)

-- A request gets through to a handler if and only if its token is not blank and either is the bootstrap
-- token of a server that has one or belongs to a login that is not over yet.
pub let_through_iff :
    (trim : String → String) (s : Server) (r : Request) (now : ℕ)
    → ((let_through trim s r now).1 ≡ true) ↔ (
        (token_of trim r ≢ "")
        × (IsBootstrap s (token_of trim r) ⊎ IsOpen s.sessions (token_of trim r) now))
unfolding let_through
let_through_iff trim s r now =
    ground (arith, validate_iff s (token_of trim r) now, eq_iff (token_of trim r) "")

-- A login that is not over leaves the sessions as they are.
valid_token_open :
    (m : List (String × Entry)) (tok : String) (now : ℕ) (e : Entry)
    → lookup tok m ≡ some e
    → now ≤ e.exp
    → valid_token m tok now ≡ (m, true)
unfolding valid_token
valid_token_open m tok now e found still = ground arith

valid_token_over :
    (m : List (String × Entry)) (tok : String) (now : ℕ) (e : Entry)
    → lookup tok m ≡ some e
    → e.exp < now
    → valid_token m tok now ≡ (delete tok m, false)
unfolding valid_token
valid_token_over m tok now e found over = ground arith

validate_by_login :
    (s : Server) (tok : String) (now : ℕ) (e : Entry)
    → lookup tok s.sessions ≡ some e
    → now ≤ e.exp
    → validate s tok now ≡ (s, true)
unfolding validate
validate_by_login s tok now e found still =
    ground (arith, valid_token_open s.sessions tok now e found still)

validate_over :
    (s : Server) (tok : String) (now : ℕ) (e : Entry)
    → lookup tok s.sessions ≡ some e
    → e.exp < now
    → tok ≢ s.bootstrap_token
    → validate s tok now ≡ (record s { sessions = delete tok s.sessions }, false)
unfolding validate
validate_over s tok now e found over other =
    ground (arith, valid_token_over s.sessions tok now e found over, eq_iff tok s.bootstrap_token)

module _ (trim : String → String) {A : Type 0} (next : Server → Server × Response A) where
  require_token_of :
      (s : Server) (r : Request) (now : ℕ) (tok : String)
      → token_of trim r ≡ tok
      → tok ≢ ""
      → require_token trim next s r now ≡ (
          let (s', good) = validate s tok now in
          if good then next s' else (s', failed 401 "unauthorized"))
  unfolding require_token let_through
  require_token_of s r now tok own filled = ground (arith, eq_iff tok "")

  -- What a request with the token of a login meets, at any time.
  abbrev pub Serves : Server → Request → String → (exp later : ℕ) → Type 0
  Serves s r tok exp later =
      (later ≤ exp → require_token trim next s r later ≡ next s)
      × (exp < later
          → tok ≢ s.bootstrap_token
          → require_token trim next s r later
            ≡ (record s { sessions = delete tok s.sessions }, failed 401 "unauthorized"))

  pub login-Serves :
      (s : Server) (r : Request) (tok : String) (e : Entry) (later : ℕ)
      → token_of trim r ≡ tok
      → tok ≢ ""
      → lookup tok s.sessions ≡ some e
      → Serves s r tok e.exp later
  login-Serves s r tok e later own filled found = (
    λ still.
        rw (require_token_of s r later tok own filled, validate_by_login s tok later e found still)
          refl,
    λ over other.
        rw (require_token_of s r later tok own filled, validate_over s tok later e found over other)
          refl,
  )
