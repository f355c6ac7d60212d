-- ===== src/Admins.antt =====
-- internal/adminstore/adminstore.go: the administrators' accounts.
-- A password and its hash_password are lists of bytes. What pwhash takes as parameters is one here too; the
-- salt, the time and whether flushLocked writes the file are arguments. The order of List is that of
-- the map.
pub mod Accounts
use revquic.Prelude.{
  ℕ, Bool, Option, none, some, List, [], ◌∷◌, String, str_eq, not, ◌||◌, map, if◌then◌else◌,
}
use revquic.Prelude.Assoc.{lookup, insert, string_key}
use revquic.Proto.Datagram.{Bytes}
use revquic.Password.{hash_password, verify_password}

abbrev pub role_admin : String
role_admin = "admin"

abbrev pub role_read_only : String
role_read_only = "readonly"

pub record Admin : Type 0 where
  pub username : String
  pub role : String
  pub pass_hash : Bytes
  pub created_at : ℕ

pub record Public : Type 0 where
  pub username : String
  pub role : String

-- byU
abbrev pub AccountTable : Type 0
AccountTable = List (String × Admin)

pub data AccountError : Type 0 where
  not_found conflict bad_creds no_salt flush_failed : AccountError

pub data AccountResult : Type 0 where
  ok : Public → AccountResult
  err : AccountError → AccountResult

abbrev pub public_view : Admin → Public
public_view a = record { username = a.username; role = a.role }

unfoldable pub list_accounts : AccountTable → List Public
list_accounts [] = []
list_accounts ((_, a) ∷ t) = public_view a ∷ list_accounts t

-- load_accounts from the accounts of the file.
unfoldable pub load_accounts : List Admin → AccountTable → AccountTable
load_accounts [] t = t
load_accounts (a ∷ admins) t = load_accounts admins (insert a.username a t)

module _ (hmac : Bytes → Bytes → Bytes) (encode64 : Bytes → Bytes)
    (decode64 : Bytes → Option Bytes) where
  unfoldable pub create_account :
      AccountTable
      → (username : String) → (password : Bytes) → (role : String) → (salt : Option Bytes)
      → (now : ℕ) → (flushed : Bool) → AccountTable × AccountResult
  create_account t username password role salt now flushed =
      elim (hash_password hmac encode64 decode64 password salt) [
        | none ↦ (t, err no_salt)
        | some encoded ↦ elim (lookup username t) [
          | some _ ↦ (t, err conflict)
          | none ↦
              let a : Admin = record {
                username = username;
                role = if str_eq role "" then role_admin else role;
                pass_hash = encoded;
                created_at = now;
              } in
              (insert username a t, if flushed then ok (public_view a) else err flush_failed)
        ]
      ]

  unfoldable pub verify_account : AccountTable → String → Bytes → AccountResult
  verify_account t username password = elim (lookup username t) [
    | none ↦ err bad_creds
    | some a ↦
        if not (verify_password hmac encode64 decode64 password a.pass_hash)
        then err bad_creds
        else ok (public_view a)
  ]
