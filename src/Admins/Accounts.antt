-- ===== src/Admins/Accounts.antt =====
-- internal/adminstore/adminstore.go: Verify before and after Create.
use revquic.Prelude.{
  ℕ, ◌≡◌, ◌≢◌, refl, sym, inl, inr, Bool, true, Option, none, some, String, str_eq, length,
  Bool-cases, eq_iff, if◌then◌else◌,
}
use revquic.Prelude.Assoc.{lookup, insert, string_key, lookup-insert, beq_self}
use revquic.Proto.Datagram.{Bytes}
use revquic.Password.{hash_password, verify_password}
use revquic.Password.Round.{IsPlain, verify_password-hash_password}
use revquic.Admins.{
  public_view, Admin, Public, AccountTable, ok, err, flush_failed, role_admin, create_account,
  verify_account,
}

abbrev pub given_role : String → String
given_role role = if str_eq role "" then role_admin else role

module _ (hmac : Bytes → Bytes → Bytes) (full : (key msg : Bytes) → length (hmac key msg) ≡ 32)
    (encode64 : Bytes → Bytes) (decode64 : Bytes → Option Bytes)
    (decodes : (b : Bytes) → decode64 (encode64 b) ≡ some b)
    (plain : (b : Bytes) → IsPlain (encode64 b)) where
  hash_given :
      (password salt : Bytes)
      → (encoded : Bytes) × (hash_password hmac encode64 decode64 password (some salt)
          ≡ some encoded)
  unfolding hash_password
  hash_given password salt = (_, refl)

  -- The account that Create files.
  account : String → String → Bytes → ℕ → Admin
  account username role encoded now = record {
    username = username;
    role = given_role role;
    pass_hash = encoded;
    created_at = now;
  }

  create_free :
      (t : AccountTable) (username : String) (password : Bytes) (role : String)
      (salt : Option Bytes) (now : ℕ) (flushed : Bool) (encoded : Bytes)
      → hash_password hmac encode64 decode64 password salt ≡ some encoded
      → lookup username t ≡ none
      → create_account hmac encode64 decode64 t username password role salt now flushed ≡ (
        insert username (account username role encoded now) t,
        if flushed
            then ok (record { username = username; role = given_role role })
            else err flush_failed,
      )
  unfolding create_account account
  create_free t username password role salt now flushed encoded hashed free =
      rw (hashed, free, create_account) refl

  verify_account-insert_own :
      (t : AccountTable) (username : String) (a : Admin) (password : Bytes)
      → verify_password hmac encode64 decode64 password a.pass_hash ≡ true
      → verify_account hmac encode64 decode64 (insert username a t) username password
        ≡ ok (public_view a)
  unfolding verify_account
  verify_account-insert_own t username a password good =
      rw (lookup-insert username username a t, beq_self username, good, verify_account) refl

  verify_account-insert_other :
      (t : AccountTable) (username other : String) (a : Admin) (tried : Bytes)
      → other ≢ username
      → verify_account hmac encode64 decode64 (insert username a t) other tried
        ≡ verify_account hmac encode64 decode64 t other tried
  unfolding verify_account
  verify_account-insert_other t username other a tried differ =
      elim (Bool-cases (str_eq username other)) [
        | inl same ↦ elim (differ (sym ((eq_iff username other).0 same))) [ ]
        | inr apart ↦ rw (lookup-insert username other a t, apart, verify_account) refl
      ]

  -- An account that Create makes under a free name is there at once, also when the file cannot be
  -- written and Create answers with an error: Verify accepts its password and gives its role, by
  -- default that of an administrator. For another name Verify answers as before.
  pub create_verifies :
      (t : AccountTable) (username : String) (password : Bytes) (role : String) (salt : Bytes)
      (now : ℕ) (flushed : Bool)
      → lookup username t ≡ none
      → let (t', answer) =
          create_account hmac encode64 decode64 t username password role (some salt) now flushed in
        let view : Public = record { username = username; role = given_role role } in
        (verify_account hmac encode64 decode64 t' username password ≡ ok view)
        × (answer ≡ (if flushed then ok view else err flush_failed))
        × ((other : String) (tried : Bytes)
            → other ≢ username
            → verify_account hmac encode64 decode64 t' other tried
              ≡ verify_account hmac encode64 decode64 t other tried)
  unfolding account
  create_verifies t username password role salt now flushed free =
      let (encoded, hashed) = hash_given password salt in
      let a = account username role encoded now in
      let good =
        verify_password-hash_password hmac full encode64 decode64 decodes plain password salt
          encoded hashed in
      rw (create_free t username password role (some salt) now flushed encoded hashed free) (
        verify_account-insert_own t username a password good,
        refl,
        λ other tried differ. verify_account-insert_other t username other a tried differ,
      )
