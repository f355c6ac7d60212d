-- ===== src/Api/Tests.antt =====
-- Runs of the management API, from an account to the requests of its login.
use revquic.Prelude.{
  ℕ, ◌+◌, ◌-◌, ◌≡◌, ◌≢◌, ◌↔◌, ◌⊎◌, refl, ap, ap₂, true, false, Option, none, some, List, [], ◌∷◌,
  ◌++◌, String, length, arith,
}
use revquic.Prelude.Assoc.{lookup, insert, delete}
use revquic.Proto.Datagram.{Bytes, put_be, get_be, length-put_be}
use revquic.Password.Round.{IsPlain}
use revquic.Admins as admins
use revquic.Admins.Accounts.{given_role}
use revquic.Api.{
  Entry, Server, Request, Response, answered, session_life, valid_token, cut_prefix, bearer_token,
  token_of, let_through, login,
}
use revquic.Api.Handlers.{DeviceView, list_regions, count_nodes, count_node, region_views}
use revquic.Api.Access.{IsOpen, IsBootstrap, Serves, let_through_iff}
use revquic.Userstore as users
use revquic.Api.Login.{account_opens}
use revquic.Api.Users.{create_user_gets_in}
use revquic.Api.Handlers.{create_user}

-- A code without '$' for any list of numbers.
abbrev encode64 : Bytes → Bytes
encode64 [] = []
encode64 (b ∷ bs) = (b + 64) ∷ encode64 bs

abbrev decode : Bytes → Bytes
decode [] = []
decode (c ∷ cs) = (c - 64) ∷ decode cs

abbrev decode64 : Bytes → Option Bytes
decode64 cs = some (decode cs)

abbrev hmac : Bytes → Bytes → Bytes
hmac key msg = put_be 32 (get_be 0 (key ++ msg))

hmac_full : (key msg : Bytes) → length (hmac key msg) ≡ 32
hmac_full key msg = length-put_be 32 (get_be 0 (key ++ msg))

decode-encode64 : (b : Bytes) → decode (encode64 b) ≡ b
decode-encode64 [] = refl
decode-encode64 (b ∷ bs) = ap₂ ◌∷◌ (omega arith) (decode-encode64 bs)

decodes : (b : Bytes) → decode64 (encode64 b) ≡ some b
decodes b = ap some (decode-encode64 b)

encode64-IsPlain : (b : Bytes) → IsPlain (encode64 b)
encode64-IsPlain [] = tt
encode64-IsPlain (b ∷ bs) = (ground arith, encode64-IsPlain bs)

abbrev same_text : String → String
same_text s = s

abbrev by_token : Request
by_token = record { authorization = "Bearer t1"; access_token = "" }

by_token-t1 : token_of same_text by_token ≡ "t1"
unfolding token_of bearer_token cut_prefix
by_token-t1 = refl

by_query : token_of same_text (record { authorization = "Basic x"; access_token = "t2" }) ≡ "t2"
unfolding token_of bearer_token cut_prefix
by_query = refl

abbrev server : Option admins.AccountTable → List (String × Entry) → Server
server accounts sessions = record {
  users = record { by_id = []; by_hash = []; pepper = "" };
  admins = accounts;
  bootstrap_token = "";
  sessions = sessions;
}

abbrev accounts : admins.AccountTable
accounts =
    (admins.create_account hmac encode64 decode64 [] "root" (112 ∷ []) "readonly" (some (1 ∷ [])) 5
      true).0

abbrev refuse : Server → Server × Response ℕ
refuse s = (s, answered 200 0)

account_opens_example :
    let (s', reply) =
      login hmac encode64 decode64 (server (some accounts) []) (some ("root", 112 ∷ [])) "t1" 9 in
    (reply ≡ answered 200 ("t1", given_role "readonly", 9 + session_life))
    × Serves same_text refuse s' by_token "t1" (9 + session_life) 10
unfolding lookup
account_opens_example =
    account_opens hmac encode64 decode64 hmac_full decodes encode64-IsPlain same_text refuse
      (server (some accounts) []) [] "root" (112 ∷ []) "readonly" (1 ∷ []) 5 9 10 "t1" by_token refl
      refl by_token-t1 (λ e. cc)

let_through_iff_example : ((let_through same_text (server none []) by_token 3).1 ≡ true) ↔ (
    (token_of same_text by_token ≢ "")
    × (IsBootstrap (server none []) (token_of same_text by_token)
        ⊎ IsOpen [] (token_of same_text by_token) 3))
let_through_iff_example = let_through_iff same_text (server none []) by_token 3

over_is_forgotten :
    valid_token (("t1", record { role = "admin"; exp = 4 }) ∷ []) "t1" 5 ≡ ([], false)
unfolding valid_token lookup delete
over_is_forgotten = refl

abbrev view : String → String → String → ℕ → DeviceView
view id region status n = record {
  node_id = id;
  region = region;
  status = status;
  active_users = n;
}

regions_are_counted :
    list_regions (view "a" "eu" "online" 2 ∷ view "b" "us" "down" 0 ∷ view "c" "eu" "down" 1 ∷ [])
    ≡ answered 200 (
        record { code = "eu"; name = "eu"; node_count = 1; online_nodes = 1; active_users = 3 }
        ∷ record { code = "us"; name = "us"; node_count = 0; online_nodes = 0; active_users = 0 }
        ∷ [])
unfolding list_regions count_nodes count_node region_views insert lookup
regions_are_counted = refl

abbrev form : users.UserCreate
form = record { username = "ann"; credential = ""; allowed_regions = "eu" ∷ []; status = "" }

abbrev keyed : String → String → String
keyed pepper token = token

create_user_gets_in_example :
    let (s', reply) = create_user keyed (server none []) (some form) "t-ann" "1" 9 true in
    (u : users.User) × (reply ≡ answered 201 (u, "t-ann"))
    × (users.authenticate_for_region keyed s'.users "t-ann" "eu" ≡ users.ok u)
unfolding users.has_username users.region_allowed
create_user_gets_in_example =
    create_user_gets_in keyed (server none []) form "t-ann" "1" 9 "eu" refl (λ e. cc) (λ e. cc) refl
      refl
