-- ===== src/Userstore/Tokens.antt =====
-- What a bearer token opens in internal/userstore/userstore.go.
use revquic.Prelude.{
  ℕ, ◌≡◌, ◌≢◌, refl, sym, ◌∙◌, true, false, some, String, str_eq, eq_iff, arith, Bool-cases,
  Option-cases, inl, inr, if◌then◌else◌,
}
use revquic.Prelude.Assoc.{lookup, insert, string_key, lookup-insert, lookup-delete}
use revquic.Userstore.{
  User, UserCreate, Record, Table, Error, ok, err, bad_token, enabled, region_allowed, has_username,
  index_hash, check_access, hash_token, new_record, create, authenticate_for_region, delete_user,
}
use revquic.Userstore.Index.{Reached, Reached-IsIndexed}

check_access-ok :
    (u v : User) (region : String)
    → check_access u region ≡ ok v
    → (u ≡ v) × (u.status ≡ enabled) × (region_allowed u.allowed_regions region ≡ true)
unfolding check_access
check_access-ok u v region h = (ground arith, ground (arith, eq_iff u.status enabled), ground arith)

check_access-allowed :
    (u : User) (region : String)
    → u.status ≡ enabled
    → region_allowed u.allowed_regions region ≡ true
    → check_access u region ≡ ok u
unfolding check_access
check_access-allowed u region on allowed = ground (arith, eq_iff u.status enabled)

err-ne-ok {ℓ} : {A : Type ℓ} {e : Error} {a : A} → ¬ (err e ≡ ok a)
err-ne-ok h = cc

module _ (hmac : String → String → String) where
  refuses_empty :
      (t : Table) (token region : String)
      → str_eq token "" ≡ true
      → authenticate_for_region hmac t token region ≡ err bad_token
  unfolding authenticate_for_region hash_token
  refuses_empty t token region empty = ground arith

  passes :
      (t : Table) (token region id : String) (r : Record)
      → str_eq token "" ≡ false
      → lookup (hmac t.pepper token) t.by_hash ≡ some id
      → lookup id t.by_id ≡ some r
      → authenticate_for_region hmac t token region ≡ check_access r.user region
  unfolding authenticate_for_region hash_token
  passes t token region id r given indexed found = ground arith

  created :
      (t : Table) (id : String) (now : ℕ) (form : UserCreate)
      → has_username t.by_id form.username ≡ false
      → str_eq form.credential "" ≡ false
      → str_eq (hmac t.pepper form.credential) "" ≡ false
      → let r = new_record hmac t id now form in
        create hmac t id now true form ≡ (
          record t {
            by_id = insert id r t.by_id;
            by_hash = insert (hmac t.pepper form.credential) id t.by_hash;
          },
          ok r.user,
        )
  unfolding create index_hash hash_token new_record
  created t id now form fresh given hashed = rw (fresh, given, hashed, create) refl

  -- After any calls on an empty store, a token that is accepted for a region is not empty, and it
  -- gives the user of a record that is in the store, whose stored hash is the hash of this token;
  -- the user is enabled and allowed in the region.
  pub authenticate_for_region-ok :
      (t : Table) (token region : String) (u : User)
      → Reached hmac t
      → authenticate_for_region hmac t token region ≡ ok u
      → (token ≢ "")
        × (u.status ≡ enabled)
        × (region_allowed u.allowed_regions region ≡ true)
        × ((r : Record) × (lookup u.id t.by_id ≡ some r)
            × (r.user ≡ u)
            × (r.hash ≡ hmac t.pepper token))
  unfolding authenticate_for_region hash_token
  authenticate_for_region-ok t token region u h e = elim (Bool-cases (str_eq token "")) [
    | inl empty ↦ absurd (err-ne-ok (sym (refuses_empty t token region empty) ∙ e))
    | inr given ↦ elim (Option-cases (lookup (hmac t.pepper token) t.by_hash)) [
      | inl missing ↦ absurd (err-ne-ok (rw (given, missing, authenticate_for_region) at e))
      | inr (id, indexed) ↦
          let v = Reached-IsIndexed hmac h in
          let (r, found, same) = v.leads (hmac t.pepper token) id indexed in
          let passed = sym (passes t token region id r given indexed found) ∙ e in
          let (its, on, allowed) = check_access-ok r.user u region passed in
          let own = v.own_id id r found in
          (
            ground (arith, eq_iff token ""),
            ground arith,
            ground arith,
            (r, ground arith, its, same),
          )
    ]
  ]

  -- A user who is created with a token and an allowed region in any store gets in with that token,
  -- if the name is new and the status is enabled or left open. The hash of the token must not be
  -- empty.
  pub create_authenticates :
      (t : Table) (id : String) (now : ℕ) (form : UserCreate) (region : String)
      → has_username t.by_id form.username ≡ false
      → form.credential ≢ ""
      → hmac t.pepper form.credential ≢ ""
      → region_allowed form.allowed_regions region ≡ true
      → (if str_eq form.status "" then enabled else form.status) ≡ enabled
      → let (t', created) = create hmac t id now true form in
        authenticate_for_region hmac t' form.credential region ≡ created
  unfolding new_record
  create_authenticates t id now form region fresh given hashed allowed on =
      let token = form.credential in
      let key = hmac t.pepper token in
      let r = new_record hmac t id now form in
      let made =
        created t id now form fresh (ground (arith, eq_iff token ""))
          (ground (arith, eq_iff key "")) in
      let t' : Table = record t {
        by_id = insert id r t.by_id;
        by_hash = insert key id t.by_hash;
      } in
      let indexed : lookup key t'.by_hash ≡ some id =
        ground (arith, lookup-insert key key id t.by_hash, eq_iff key key) in
      let found : lookup id t'.by_id ≡ some r =
        ground (arith, lookup-insert id id r t.by_id, eq_iff id id) in
      rw made (
        passes t' token region id r (ground (arith, eq_iff token "")) indexed found
        ∙ check_access-allowed r.user region on allowed)

  -- If two users have the same stored hash, deleting one of them locks the other one out: the record
  -- of the other one is left in the store, but the token of that hash is refused as a bad token in
  -- every region.
  pub delete_user-locks_out :
      (t : Table) (id other token region : String) (r s : Record)
      → lookup id t.by_id ≡ some r
      → lookup other t.by_id ≡ some s
      → id ≢ other
      → r.hash ≡ hash_token hmac t token
      → s.hash ≡ r.hash
      → let t' = (delete_user t id true).0 in
        (lookup other t'.by_id ≡ some s)
        × (authenticate_for_region hmac t' token region ≡ err bad_token)
  unfolding delete_user authenticate_for_region hash_token
  delete_user-locks_out t id other token region r s at there ne hash shared = ground (
    arith,
    lookup-delete id other t.by_id,
    eq_iff id other,
    lookup-delete r.hash r.hash t.by_hash,
    eq_iff r.hash r.hash,
  )
