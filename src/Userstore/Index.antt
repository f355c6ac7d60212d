-- ===== src/Userstore/Index.antt =====
-- The token index of internal/userstore/userstore.go after any calls.
use revquic.Prelude.{
  ℕ, ◌≡◌, ◌≢◌, refl, sym, subst, ◌∙◌, Bool, false, none, some, List, String, str_eq, eq_iff, arith,
  Bool-cases, Option-cases, inl, inr,
}
use revquic.Prelude.Assoc.{lookup, insert, delete, string_key, lookup-insert, lookup-delete}
use revquic.Userstore.{
  User, UserCreate, UserUpdate, Record, Table, new_table, has_username, index_hash, hash_token,
  new_record, create, patched, update, delete_user,
}

-- Each entry of the index leads to a record that has that hash, and records stand under their ids.
pub record IsIndexed (t : Table) : Type 0 where
  pub leads :
      (hash id : String)
      → lookup hash t.by_hash ≡ some id
      → (r : Record) × (lookup id t.by_id ≡ some r) × (r.hash ≡ hash)
  pub own_id : (id : String) (r : Record) → lookup id t.by_id ≡ some r → r.user.id ≡ id

none-ne-some {ℓ} : {A : Type ℓ} {x : A} → ¬ (none ≡ some x)
none-ne-some e = cc

new_table-IsIndexed : (pepper : String) → IsIndexed (new_table pepper)
unfolding new_table lookup
new_table-IsIndexed pepper = record {
  leads = λ hash id e. absurd (none-ne-some e);
  own_id = λ id r e. absurd (none-ne-some e);
}

-- A record is put under its id, and its hash, unless empty, leads to it; no other hash did.
put-IsIndexed :
    (t : Table) (id : String) (r : Record) (by_hash : List (String × String))
    → IsIndexed t
    → r.user.id ≡ id
    → ((hash other : String)
        → lookup hash by_hash ≡ some other
        → (lookup hash t.by_hash ≡ some other) × (other ≢ id))
    → IsIndexed (record t { by_id = insert id r t.by_id; by_hash = index_hash by_hash r.hash id })
unfolding index_hash
put-IsIndexed t id r by_hash v own old = record {
  leads = λ hash k e. leads hash k e;
  own_id = λ k s e. elim (Bool-cases (str_eq id k)) [
    | inl same ↦ ground (arith, lookup-insert id k r t.by_id, eq_iff id k)
    | inr other ↦ v.own_id k s (ground (arith, lookup-insert id k r t.by_id))
  ];
}
  where
    kept :
        (hash k : String)
        → lookup hash by_hash ≡ some k
        → (s : Record) × (lookup k (insert id r t.by_id) ≡ some s) × (s.hash ≡ hash)
    kept hash k e =
        let (there, ne) = old hash k e in
        let (s, at, same) = v.leads hash k there in
        (s, ground (arith, lookup-insert id k r t.by_id, eq_iff id k), same)

    leads :
        (hash k : String)
        → lookup hash (index_hash by_hash r.hash id) ≡ some k
        → (s : Record) × (lookup k (insert id r t.by_id) ≡ some s) × (s.hash ≡ hash)
    leads hash k e = elim (Bool-cases (str_eq r.hash "")) [
      | inl empty ↦ kept hash k (ground (arith, empty))
      | inr full ↦ elim (Bool-cases (str_eq r.hash hash)) [
        | inl same ↦ (
          r,
          ground (
            arith,
            lookup-insert r.hash hash id by_hash,
            lookup-insert id k r t.by_id,
            eq_iff id k,
          ),
          ground (arith, eq_iff r.hash hash),
        )
        | inr other ↦ kept hash k (ground (arith, lookup-insert r.hash hash id by_hash))
      ]
    ]

-- An entry under another hash than that of the record at `id` does not lead to `id`.
other_hash :
    (t : Table) (id : String) (r : Record)
    → IsIndexed t
    → lookup id t.by_id ≡ some r
    → (hash other : String) → lookup hash (delete r.hash t.by_hash) ≡ some other
    → (lookup hash t.by_hash ≡ some other) × (other ≢ id)
other_hash t id r v at hash other e =
    let there : lookup hash t.by_hash ≡ some other =
      ground (arith, lookup-delete r.hash hash t.by_hash) in
    let (s, found, same) = v.leads hash other there in
    let differs : str_eq r.hash hash ≡ false =
      ground (arith, lookup-delete r.hash hash t.by_hash) in
    (there, λ same_id. ground (arith, eq_iff r.hash hash))

same_hash-IsIndexed :
    (t : Table) (id : String) (r : Record) (u : User)
    → IsIndexed t
    → lookup id t.by_id ≡ some r
    → u.id ≡ r.user.id
    → IsIndexed (record t { by_id = insert id (record r { user = u }) t.by_id })
same_hash-IsIndexed t id r u v at own = record {
  leads = λ hash k e.
      let (s, found, same) = v.leads hash k e in
      elim (Bool-cases (str_eq id k)) [
        | inl here ↦ (
          record r { user = u },
          ground (arith, lookup-insert id k (record r { user = u }) t.by_id),
          ground (arith, eq_iff id k),
        )
        | inr elsewhere ↦
            (s, ground (arith, lookup-insert id k (record r { user = u }) t.by_id), same)
      ];
  own_id = λ k s e. elim (Bool-cases (str_eq id k)) [
    | inl here ↦
        let whose = v.own_id id r at in
        ground (arith, lookup-insert id k (record r { user = u }) t.by_id, eq_iff id k)
    | inr elsewhere ↦
        v.own_id k s (ground (arith, lookup-insert id k (record r { user = u }) t.by_id))
  ];
}

module _ (hmac : String → String → String) where
  create-IsIndexed :
      (t : Table) (id : String) (now : ℕ) (flushed : Bool) (form : UserCreate)
      → lookup id t.by_id ≡ none
      → IsIndexed t
      → IsIndexed (create hmac t id now flushed form).0
  unfolding create new_record
  create-IsIndexed t id now flushed form fresh v =
      elim (Bool-cases (has_username t.by_id form.username)) [
        | inl taken ↦ rw (taken, create) v
        | inr free ↦
            rw (free, create)
              (put-IsIndexed t id (new_record hmac t id now form) t.by_hash v refl (λ hash other e.
                let (s, found, same) = v.leads hash other e in
                (
                  e,
                  λ eq. none-ne-some (sym fresh ∙ subst (λ k. lookup k t.by_id ≡ some s) eq found),
                )))
      ]

  update-IsIndexed :
      (t : Table) (id : String) (now : ℕ) (flushed : Bool) (form : UserUpdate)
      → IsIndexed t
      → IsIndexed (update hmac t id now flushed form).0
  unfolding update patched
  update-IsIndexed t id now flushed form v = elim (Option-cases (lookup id t.by_id)) [
    | inl e ↦ rw (e, update) v
    | inr (r, at) ↦
        let own = v.own_id id r at in
        elim (Option-cases form.credential) [
          | inl no_credential ↦
              rw (at, no_credential, update)
                (same_hash-IsIndexed t id r (patched hmac r.user now form) v at refl)
          | inr (credential, given) ↦
              rw (at, given, update)
                (put-IsIndexed t id
                  (record {
                    user = patched hmac r.user now form;
                    hash = hash_token hmac t credential;
                  })
                  (delete r.hash t.by_hash) v own (other_hash t id r v at))
        ]
  ]

  delete_user-IsIndexed :
      (t : Table) (id : String) (flushed : Bool)
      → IsIndexed t
      → IsIndexed (delete_user t id flushed).0
  unfolding delete_user
  delete_user-IsIndexed t id flushed v = elim (Option-cases (lookup id t.by_id)) [
    | inl e ↦ rw (e, delete_user) v
    | inr (r, at) ↦
        rw (at, delete_user)
          (record {
            leads = λ hash k e.
                let (there, ne) = other_hash t id r v at hash k e in
                let (s, found, same) = v.leads hash k there in
                (s, ground (arith, lookup-delete id k t.by_id, eq_iff id k), same);
            own_id = λ k s e. v.own_id k s (ground (arith, lookup-delete id k t.by_id));
          })
  ]

  -- The tables that calls can lead to from an empty one, the ids that Create draws being new.
  pub data Reached : Table → Type 0 where
    starts : (pepper : String) → Reached (new_table pepper)
    creates :
        {t : Table} (id : String) (now : ℕ) (flushed : Bool) (form : UserCreate)
        → lookup id t.by_id ≡ none
        → Reached t
        → Reached (create hmac t id now flushed form).0
    updates :
        {t : Table} (id : String) (now : ℕ) (flushed : Bool) (form : UserUpdate)
        → Reached t
        → Reached (update hmac t id now flushed form).0
    deletes :
        {t : Table} (id : String) (flushed : Bool)
        → Reached t
        → Reached (delete_user t id flushed).0

  pub Reached-IsIndexed : {t : Table} → Reached t → IsIndexed t
  Reached-IsIndexed (starts pepper) = new_table-IsIndexed pepper
  Reached-IsIndexed (creates id now flushed form fresh h) =
      create-IsIndexed _ id now flushed form fresh (Reached-IsIndexed h)
  Reached-IsIndexed (updates id now flushed form h) =
      update-IsIndexed _ id now flushed form (Reached-IsIndexed h)
  Reached-IsIndexed (deletes id flushed h) =
      delete_user-IsIndexed _ id flushed (Reached-IsIndexed h)
