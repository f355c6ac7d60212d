-- ===== src/Api/Handlers.antt =====
-- internal/adminserver/adminserver.go: the handlers of users, exit nodes and regions behind the token
-- check. The decoded body of a request is an argument, as are the results of rand.Read and newID.
use revquic.Prelude.{ℕ, ◌+◌, Bool, Option, none, some, List, [], ◌∷◌, String, str_eq, if◌then◌else◌}
use revquic.Prelude.Assoc.{lookup, insert, string_key}
use revquic.Userstore.{
  User, UserCreate, UserUpdate, ok, err, conflict, create, get, list, update, delete_user,
}
use revquic.Api.{Server, Response, answered, failed, empty}

-- Of a device view, the fields that the handlers read.
pub record DeviceView : Type 0 where
  pub node_id : String
  pub region : String
  pub status : String
  pub active_users : ℕ

pub record Region : Type 0 where
  pub code : String
  pub name : String
  pub node_count : ℕ
  pub online_nodes : ℕ
  pub active_users : ℕ

-- The aggregate of one region.
pub record Agg : Type 0 where
  pub online : ℕ
  pub users : ℕ

abbrev pub node_online : String
node_online = "online"

unfoldable pub list_users : Server → String → String → Response (List User)
list_users s region status = answered 200 (list s.users.by_id region status)

unfoldable pub get_user : Server → String → Response User
get_user s id = elim (get s.users id) [ err _ ↦ failed 404 "not_found" | ok u ↦ answered 200 u ]

module _ (hmac : String → String → String) where
  unfoldable pub create_user :
      Server
      → Option UserCreate
      → (random_token id : String) → (now : ℕ) → (flushed : Bool)
      → Server × Response (User × String)
  create_user s none random_token id now flushed = (s, failed 422 "validation_error")
  create_user s (some form) random_token id now flushed =
      let credential = if str_eq form.credential "" then random_token else form.credential in
      let (t, result) =
        create hmac s.users id now flushed (record form { credential = credential }) in
      (
        record s { users = t },
        elim result [
          | ok u ↦ answered 201 (u, credential)
          | err conflict ↦ failed 409 "conflict"
          | err _ ↦ failed 422 "validation_error"
        ],
      )

  unfoldable pub update_user :
      Server → String → Option UserUpdate → (now : ℕ) → (flushed : Bool) → Server × Response User
  update_user s id none now flushed = (s, failed 422 "validation_error")
  update_user s id (some form) now flushed =
      let (t, result) = update hmac s.users id now flushed form in
      (
        record s { users = t },
        elim result [ err _ ↦ failed 404 "not_found" | ok u ↦ answered 200 u ],
      )

-- deleteUser
unfoldable pub remove_user : Server → String → (flushed : Bool) → Server × Response User
remove_user s id flushed =
    let (t, problem) = delete_user s.users id flushed in
    (record s { users = t }, elim problem [ some _ ↦ failed 404 "not_found" | none ↦ empty 204 ])

-- The loop of listNodes.
unfoldable pub in_region : String → List DeviceView → List DeviceView
in_region region [] = []
in_region region (n ∷ nodes) =
    let rest = in_region region nodes in if str_eq n.region region then n ∷ rest else rest

unfoldable pub list_nodes : String → List DeviceView → Response (List DeviceView)
unfolding in_region
list_nodes region nodes = answered 200 (if str_eq region "" then nodes else in_region region nodes)

unfoldable pub get_node : String → List DeviceView → Response DeviceView
get_node id [] = failed 404 "not_found"
get_node id (n ∷ nodes) =
    let rest = get_node id nodes in if str_eq n.node_id id then answered 200 n else rest

-- One node of the loop of listRegions.
unfoldable pub count_node : List (String × Agg) → DeviceView → List (String × Agg)
count_node m n =
    let a : Agg = elim (lookup n.region m) [
      | none ↦ record { online = 0; users = 0 }
      | some a ↦ a
    ] in
    let online = if str_eq n.status node_online then a.online + 1 else a.online in
    insert n.region (record { online = online; users = a.users + n.active_users }) m

unfoldable pub count_nodes : List DeviceView → List (String × Agg) → List (String × Agg)
unfolding count_node
count_nodes [] m = m
count_nodes (n ∷ nodes) m = count_nodes nodes (count_node m n)

unfoldable pub region_views : List (String × Agg) → List Region
region_views [] = []
region_views ((code, a) ∷ m) =
    record {
      code = code;
      name = code;
      node_count = a.online;
      online_nodes = a.online;
      active_users = a.users;
    }
    ∷ region_views m

unfoldable pub list_regions : List DeviceView → Response (List Region)
unfolding count_nodes region_views
list_regions nodes = answered 200 (region_views (count_nodes nodes []))
