-- ===== src/Userstore.antt =====
-- internal/userstore/userstore.go: the users, their region policy and their hashed tokens.
-- A record is shared by the two maps of `table`; it is named by its id here, which newID draws from 16
-- random bytes, so `by_hash` leads to an id and the record stands in `by_id`. The mutex makes each
-- method one step. HMAC-SHA256 is a parameter, the current time is an argument, and `flushed` is
-- whether flushLocked persists the records.
pub mod Index
pub mod Tokens
mod Tests
use revquic.Prelude.{
  ℕ, Bool, true, false, ◌&&◌, ◌||◌, not, Option, none, some, List, [], ◌∷◌, String, str_eq,
  if◌then◌else◌,
}
use revquic.Prelude.Assoc.{lookup, insert, delete, string_key}

pub record User : Type 0 where
  pub id : String
  pub username : String
  pub allowed_regions : List String
  pub status : String
  pub active_session_count : ℕ
  pub created_at : ℕ
  pub updated_at : ℕ

pub record UserCreate : Type 0 where
  pub username : String
  pub credential : String
  pub allowed_regions : List String
  pub status : String

-- A nil field is `none`.
pub record UserUpdate : Type 0 where
  pub allowed_regions : Option (List String)
  pub status : Option String
  pub credential : Option String

pub record Record : Type 0 where
  pub user : User
  pub hash : String

pub record Table : Type 0 where
  pub by_id : List (String × Record)
  pub by_hash : List (String × String)
  pub pepper : String

pub data Error : Type 0 where
  not_found conflict bad_token disabled region_denied flush_failed : Error

pub data Result {ℓ} (A : Type ℓ) : Type ℓ where
  ok : A → Result A
  err : Error → Result A

unfoldable pub new_table : String → Table
new_table pepper = record { by_id = []; by_hash = []; pepper = pepper }

-- adminapi.UserEnabled
abbrev pub enabled : String
enabled = "enabled"

unfoldable pub region_allowed : List String → String → Bool
region_allowed [] region = false
region_allowed (a ∷ allowed) region =
    let rest = region_allowed allowed region in
    if str_eq a "*" || str_eq a region then true else rest

-- The loop of Create over the records.
unfoldable pub has_username : List (String × Record) → String → Bool
has_username [] username = false
has_username ((_, r) ∷ rest) username =
    let later = has_username rest username in
    if str_eq r.user.username username then true else later

-- if r.Hash != "" { t.byHash[r.Hash] = r }
unfoldable pub index_hash : List (String × String) → String → String → List (String × String)
index_hash by_hash hash id = if str_eq hash "" then by_hash else insert hash id by_hash

-- The answer of a method that ends with a flush.
abbrev pub answer {ℓ} : {A : Type ℓ} → Bool → A → Result A
answer flushed a = if flushed then ok a else err flush_failed

unfoldable pub get : Table → String → Result User
get t id = elim (lookup id t.by_id) [ none ↦ err not_found | some r ↦ ok r.user ]

-- One record of the loop of List.
unfoldable pub is_listed : String → String → User → Bool
unfolding region_allowed
is_listed region status u =
    if not (str_eq status "") && not (str_eq u.status status)
    then false
    else if not (str_eq region "") && not (region_allowed u.allowed_regions region)
    then false
    else true

unfoldable pub list : List (String × Record) → String → String → List User
list [] region status = []
list ((_, r) ∷ rest) region status =
    let later = list rest region status in
    if is_listed region status r.user then r.user ∷ later else later

-- The status and region checks that both ways of access end with.
unfoldable pub check_access : User → String → Result User
check_access u region =
    if not (str_eq u.status enabled)
    then err disabled
    else if not (region_allowed u.allowed_regions region)
    then err region_denied
    else ok u

-- The loop of AuthorizeUser.
unfoldable pub find_username : List (String × Record) → String → Option User
find_username [] username = none
find_username ((_, r) ∷ rest) username =
    let later = find_username rest username in
    if str_eq r.user.username username then some r.user else later

unfoldable pub authorize_user : Table → String → String → Result User
authorize_user t username region = elim (find_username t.by_id username) [
  | none ↦ err not_found
  | some u ↦ check_access u region
]

module _ (hmac : String → String → String) where
  unfoldable pub hash_token : Table → String → String
  hash_token t token = if str_eq token "" then "" else hmac t.pepper token

  -- The record that Create builds.
  unfoldable pub new_record : Table → String → ℕ → UserCreate → Record
  unfolding hash_token
  new_record t id now form = record {
    user = record {
      id = id;
      username = form.username;
      allowed_regions = form.allowed_regions;
      status = if str_eq form.status "" then enabled else form.status;
      active_session_count = 0;
      created_at = now;
      updated_at = now;
    };
    hash = hash_token t form.credential;
  }

  unfoldable pub create : Table → String → ℕ → Bool → UserCreate → Table × Result User
  create t id now flushed form =
      let r = new_record t id now form in
      if has_username t.by_id form.username then (t, err conflict) else (
        record t { by_id = insert id r t.by_id; by_hash = index_hash t.by_hash r.hash id },
        answer flushed r.user,
      )

  -- The user and the time after Update's first two fields.
  unfoldable pub patched : User → ℕ → UserUpdate → User
  patched u now form = record u {
    allowed_regions = elim form.allowed_regions [ none ↦ u.allowed_regions | some rs ↦ rs ];
    status = elim form.status [ none ↦ u.status | some s ↦ s ];
    updated_at = now;
  }

  unfoldable pub update : Table → String → ℕ → Bool → UserUpdate → Table × Result User
  unfolding hash_token patched
  update t id now flushed form = elim (lookup id t.by_id) [
    | none ↦ (t, err not_found)
    | some r ↦
        let u = patched r.user now form in
        elim form.credential [
          | none ↦
              (record t { by_id = insert id (record r { user = u }) t.by_id }, answer flushed u)
          | some credential ↦
              let hash = hash_token t credential in
              (
                record t {
                  by_id = insert id (record { user = u; hash = hash }) t.by_id;
                  by_hash = index_hash (delete r.hash t.by_hash) hash id;
                },
                answer flushed u,
              )
        ]
  ]

  unfoldable pub authenticate_for_region : Table → String → String → Result User
  unfolding hash_token
  authenticate_for_region t token region = elim (lookup (hash_token t token) t.by_hash) [
    | none ↦ err bad_token
    | some id ↦
        if str_eq token ""
        then err bad_token
        else elim (lookup id t.by_id) [ none ↦ err bad_token | some r ↦ check_access r.user region ]
  ]

-- Delete, with whether the flush goes well.
unfoldable pub delete_user : Table → String → Bool → Table × Option Error
delete_user t id flushed = elim (lookup id t.by_id) [
  | none ↦ (t, some not_found)
  | some r ↦ (
    record t { by_id = delete id t.by_id; by_hash = delete r.hash t.by_hash },
    if flushed then none else some flush_failed,
  )
]
