-- ===== src/Userstore/Tests.antt =====
-- A store with two users, first with two tokens and then with one token for both.
use revquic.Prelude.{◌≡◌, ◌≢◌, refl, true, false, some, [], ◌∷◌, String, eq_iff}
use revquic.Prelude.Assoc.{lookup, insert, string_key}
use revquic.Userstore.{
  UserCreate, Record, Table, ok, err, bad_token, region_denied, new_table, enabled, region_allowed,
  has_username, index_hash, check_access, hash_token, new_record, create, authenticate_for_region,
  delete_user, list, is_listed, authorize_user, find_username,
}
use revquic.Userstore.Index.{starts, creates}
use revquic.Userstore.Tokens.{authenticate_for_region-ok, delete_user-locks_out}

-- A stand-in for HMAC that keeps the token.
abbrev keyed : String → String → String
keyed pepper token = token

abbrev ann : UserCreate
ann = record { username = "ann"; credential = "t-ann"; allowed_regions = "eu" ∷ []; status = "" }

abbrev ben : UserCreate
ben = record { username = "ben"; credential = "t-ann"; allowed_regions = "*" ∷ []; status = "" }

abbrev ann_record : Record
ann_record = record {
  user = record {
    id = "1";
    username = "ann";
    allowed_regions = "eu" ∷ [];
    status = "enabled";
    active_session_count = 0;
    created_at = 10;
    updated_at = 10;
  };
  hash = "t-ann";
}

abbrev ben_record : Record
ben_record = record {
  user = record {
    id = "2";
    username = "ben";
    allowed_regions = "*" ∷ [];
    status = "enabled";
    active_session_count = 0;
    created_at = 11;
    updated_at = 11;
  };
  hash = "t-ann";
}

abbrev with_ann : Table
with_ann = record { by_id = ("1", ann_record) ∷ []; by_hash = ("t-ann", "1") ∷ []; pepper = "p" }

abbrev with_both : Table
with_both = record {
  by_id = ("1", ann_record) ∷ ("2", ben_record) ∷ [];
  by_hash = ("t-ann", "2") ∷ [];
  pepper = "p";
}

creates_ann : create keyed (new_table "p") "1" 10 true ann ≡ (with_ann, ok ann_record.user)
unfolding create new_table new_record hash_token index_hash has_username insert
creates_ann = refl

creates_ben : create keyed with_ann "2" 11 true ben ≡ (with_both, ok ben_record.user)
unfolding create new_record hash_token index_hash has_username insert
creates_ben = refl

lists_eu : list with_both.by_id "us" "" ≡ ben_record.user ∷ []
unfolding list is_listed region_allowed
lists_eu = refl

denied_region : authorize_user with_both "ann" "us" ≡ err region_denied
unfolding authorize_user find_username check_access region_allowed
denied_region = refl

ann_gets_in :
    authenticate_for_region keyed (create keyed (new_table "p") "1" 10 true ann).0 "t-ann" "eu"
    ≡ ok ann_record.user
unfolding authenticate_for_region create new_table new_record hash_token index_hash has_username
    insert lookup check_access region_allowed
ann_gets_in = refl

authenticate_for_region-ok_example :
    let t = (create keyed (new_table "p") "1" 10 true ann).0 in
    (ann.credential ≢ "")
    × (ann_record.user.status ≡ enabled)
    × (region_allowed ann_record.user.allowed_regions "eu" ≡ true)
    × ((r : Record) × (lookup "1" t.by_id ≡ some r)
        × (r.user ≡ ann_record.user)
        × (r.hash ≡ keyed t.pepper "t-ann"))
unfolding new_table lookup
authenticate_for_region-ok_example =
    authenticate_for_region-ok keyed (create keyed (new_table "p") "1" 10 true ann).0 "t-ann" "eu"
      ann_record.user (creates "1" 10 true ann refl (starts "p")) ann_gets_in

two-ne-one : ben_record.user.id ≢ ann_record.user.id
two-ne-one e = let same : false ≡ true = (eq_iff "2" "1").1 e in cc

delete_user-locks_out_example :
    let t' = (delete_user with_both "2" true).0 in
    (lookup "1" t'.by_id ≡ some ann_record)
    × (authenticate_for_region keyed t' "t-ann" "eu" ≡ err bad_token)
unfolding lookup hash_token
delete_user-locks_out_example =
    delete_user-locks_out keyed with_both "2" "1" "t-ann" "eu" ben_record ann_record refl refl
      two-ne-one refl refl
