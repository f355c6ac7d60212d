-- ===== src/Api/Users.antt =====
-- createUser, and then the token check of the broker.
use revquic.Prelude.{ℕ, ◌≡◌, ◌≢◌, ◌∙◌, arith, true, false, some, String, str_eq, if◌then◌else◌}
use revquic.Userstore.{
  User, UserCreate, ok, enabled, has_username, region_allowed, create, new_record,
  authenticate_for_region,
}
use revquic.Userstore.Tokens.{create_authenticates}
use revquic.Api.{Server, answered}
use revquic.Api.Handlers.{create_user}

-- The token that the answer shows.
abbrev pub shown : UserCreate → String → String
shown form random_token = if str_eq form.credential "" then random_token else form.credential

module _ (hmac : String → String → String) where
  -- A user who is created under a new name, enabled, with or without a token of the administrator's
  -- choice, gets in to every region that is allowed to the user with the token that the answer shows,
  -- if neither this token nor its hash is blank.
  pub create_user_gets_in :
      (s : Server) (form : UserCreate) (random_token id : String) (now : ℕ) (region : String)
      → has_username s.users.by_id form.username ≡ false
      → shown form random_token ≢ ""
      → hmac s.users.pepper (shown form random_token) ≢ ""
      → region_allowed form.allowed_regions region ≡ true
      → (if str_eq form.status "" then enabled else form.status) ≡ enabled
      → let (s', reply) = create_user hmac s (some form) random_token id now true in
        (u : User) × (reply ≡ answered 201 (u, shown form random_token))
        × (authenticate_for_region hmac s'.users (shown form random_token) region ≡ ok u)
  unfolding create_user create
  create_user_gets_in s form random_token id now region fresh filled hashed allowed on =
      let token = shown form random_token in
      let form' = record form { credential = token } in
      let r = new_record hmac s.users id now form' in
      let enters =
        create_authenticates hmac s.users id now form' region fresh filled hashed allowed on in
      (r.user, ground arith, enters ∙ ground arith)
