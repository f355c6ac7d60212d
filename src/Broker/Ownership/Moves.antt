-- ===== src/Broker/Ownership/Moves.antt =====
-- The steps of cmd/revquic-broker/main.go that park, resume and admit a session.
use revquic.Prelude.{
  ℕ, ◌+◌, ◌%◌, ◌^◌, ◌≡◌, ◌≢◌, refl, sym, ap, subst, ◌∙◌, ◌⊎◌, inl, inr, Bool, true, false, some,
  ◌∷◌, String, str_eq, eq_iff, arith, ◌==◌, if◌then◌else◌, Bool-cases, Option-cases, ==_iff, ◌&&◌,
  not, ltb, leb, ◌-◌, ◌||◌,
}
use revquic.Prelude.Assoc.{
  lookup, insert, delete, nat_key, string_key, lookup-insert, lookup-delete,
}
use revquic.Ippool.{Pool, member}
use revquic.Ippool.{is_free}
use revquic.Ippool.Sweep.{allocate_any}
use revquic.Broker.{Broker, Session, ExitNode, Client, admit, try_resume, suspend_session}
use revquic.Broker.Ownership.{
  Place, at_session, at_parked, holder, IsSound, moved-IsSound, dropped-IsSound,
  delete_session_back,
}

-- Parking moves a session from its id to its resume key.
park_origin : String → ℕ → Place → Place
park_origin key sid (at_session i) = at_session i
park_origin key sid (at_parked k) = if str_eq key k then at_session sid else at_parked k

module _ (b : Broker) (sid : ℕ) (s : Session) (key : String) (now : ℕ) (active : ℕ → ℕ)
    (held : lookup sid b.sessions ≡ some s) where
  parked_at_key : Broker
  parked_at_key = record b {
    sessions = delete sid b.sessions;
    active = active;
    parked = insert key (record s { suspended = true; parked_at = now }) b.parked;
  }

  park_back :
      (h : Place) (u : Session)
      → holder parked_at_key h ≡ some u
      → (t : Session) × (holder b (park_origin key sid h) ≡ some t)
        × (t.client_addr ≡ u.client_addr)
  unfolding holder park_origin parked_at_key
  park_back (at_session i) u e = (u, ground (arith, lookup-delete sid i b.sessions), refl)
  park_back (at_parked k) u e = elim (Bool-cases (str_eq key k)) [
    | inl same ↦ (
      s,
      rw same held,
      ground (
        arith,
        same,
        e,
        lookup-insert key k (record s { suspended = true; parked_at = now }) b.parked,
      ),
    )
    | inr other ↦ (
      u,
      rw other (
          ground
            (arith, lookup-insert key k (record s { suspended = true; parked_at = now }) b.parked)),
      refl,
    )
  ]

  park_apart :
      (h k : Place) (u t : Session)
      → holder parked_at_key h ≡ some u
      → holder parked_at_key k ≡ some t
      → park_origin key sid h ≡ park_origin key sid k
      → h ≡ k
  unfolding holder park_origin parked_at_key
  park_apart (at_session i) (at_session j) u t eu et e = e
  park_apart (at_session i) (at_parked k) u t eu et e =
      ground (arith, lookup-delete sid i b.sessions)
  park_apart (at_parked k) (at_session i) u t eu et e =
      ground (arith, lookup-delete sid i b.sessions)
  park_apart (at_parked k) (at_parked l) u t eu et e = ground (arith, eq_iff key k, eq_iff key l)

  park-IsSound : IsSound b → IsSound parked_at_key
  unfolding parked_at_key
  park-IsSound v =
      moved-IsSound b parked_at_key (park_origin key sid) v park_back park_apart (λ h u e.
        let (t, et, same) = park_back h u e in
        subst (λ a. member a b.pool.used ≡ true) same (v.in_use _ t et))

pub suspend_session-IsSound :
    (b : Broker) (sid : ℕ) (intentional : Bool) (now : ℕ)
    → IsSound b
    → IsSound (suspend_session b sid intentional now).0
unfolding suspend_session parked_at_key
suspend_session-IsSound b sid intentional now v = elim (Option-cases (lookup sid b.sessions)) [
  | inl e ↦ rw (e, suspend_session) v
  | inr (s, e) ↦
      elim (Bool-cases (not intentional && not (str_eq s.resume_key "") && ltb 0 b.resume_ttl)) [
        | inl parks ↦ rw (e, parks, suspend_session) (park-IsSound b sid s s.resume_key now _ e v)
        | inr ends ↦
            rw (e, ends, suspend_session)
              (dropped-IsSound b v (at_session sid) s (unfold holder in e) _
                (delete_session_back b sid _ _) refl)
      ]
]

-- Resuming moves a parked session back under its id.
resume_origin : String → ℕ → Place → Place
resume_origin key sid (at_session i) = if sid == i then at_parked key else at_session i
resume_origin key sid (at_parked k) = at_parked k

module _ (b : Broker) (key : String) (s : Session) (conn ex : ℕ) (active : ℕ → ℕ)
    (held : lookup key b.parked ≡ some s) where
  resumed : Broker
  resumed = record b {
    parked = delete key b.parked;
    active = active;
    sessions = insert s.id (record s { suspended = false; client = conn; exit = ex }) b.sessions;
  }

  resume_back :
      (h : Place) (u : Session)
      → holder resumed h ≡ some u
      → (t : Session) × (holder b (resume_origin key s.id h) ≡ some t)
        × (t.client_addr ≡ u.client_addr)
  unfolding holder resume_origin resumed
  resume_back (at_session i) u e = elim (Bool-cases (s.id == i)) [
    | inl same ↦ (
      s,
      rw same held,
      ground (
        arith,
        lookup-insert s.id i (record s { suspended = false; client = conn; exit = ex }) b.sessions,
      ),
    )
    | inr other ↦ (
      u,
      rw other (
          ground (
            arith,
            lookup-insert s.id i (record s { suspended = false; client = conn; exit = ex })
                b.sessions,
          )),
      refl,
    )
  ]
  resume_back (at_parked k) u e = (u, ground (arith, lookup-delete key k b.parked), refl)

  resume_apart :
      (h k : Place) (u t : Session)
      → holder resumed h ≡ some u
      → holder resumed k ≡ some t
      → resume_origin key s.id h ≡ resume_origin key s.id k
      → h ≡ k
  unfolding holder resume_origin resumed
  resume_apart (at_session i) (at_session j) u t eu et e =
      ground (arith, ==_iff s.id i, ==_iff s.id j)
  resume_apart (at_session i) (at_parked k) u t eu et e =
      ground (arith, lookup-delete key k b.parked, eq_iff key k)
  resume_apart (at_parked k) (at_session i) u t eu et e =
      ground (arith, lookup-delete key k b.parked, eq_iff key k)
  resume_apart (at_parked k) (at_parked l) u t eu et e = e

  resumed-IsSound : IsSound b → IsSound resumed
  unfolding resumed
  resumed-IsSound v =
      moved-IsSound b resumed (resume_origin key s.id) v resume_back resume_apart (λ h u e.
        let (t, et, same) = resume_back h u e in
        subst (λ a. member a b.pool.used ≡ true) same (v.in_use _ t et))

pub try_resume-IsSound :
    (b : Broker) (key username : String) (conn now : ℕ)
    → IsSound b
    → IsSound (try_resume b key username conn now).0
unfolding try_resume resumed
try_resume-IsSound b key username conn now v = elim (Option-cases (lookup key b.parked)) [
  | inl e ↦ rw (e, try_resume) v
  | inr (s, e) ↦ elim (Option-cases (lookup s.node_id b.exits)) [
    | inl gone ↦ rw (e, gone, try_resume) v
    | inr (ex, on) ↦
        elim (Bool-cases
          (not (str_eq s.username username) || leb b.resume_ttl (now - s.parked_at))) [
            | inl refused ↦ rw (e, on, refused, try_resume) v
            | inr taken ↦ rw (e, on, taken, try_resume) (resumed-IsSound b key s conn ex _ e v)
          ]
  ]
]

-- A new session holds an address that no session held.
module _ (b : Broker) (sid : ℕ) (s : Session) (active : ℕ → ℕ) (pool : Pool)
    (used : pool.used ≡ s.client_addr ∷ b.pool.used)
    (unused : member s.client_addr b.pool.used ≡ false) where
  joined : Broker
  joined = record b {
    next_session = sid;
    pool = pool;
    sessions = insert sid s b.sessions;
    active = active;
  }

  joined_holds :
      (h : Place) (u : Session)
      → holder joined h ≡ some u
      → ((h ≡ at_session sid) × (u.client_addr ≡ s.client_addr)) ⊎ (holder b h ≡ some u)
  unfolding holder joined
  joined_holds (at_session i) u e = elim (Bool-cases (sid == i)) [
    | inl same ↦ inl (
      ap at_session (sym ((==_iff sid i).0 same)),
      ground (arith, lookup-insert sid i s b.sessions),
    )
    | inr other ↦ inr (ground (arith, lookup-insert sid i s b.sessions))
  ]
  joined_holds (at_parked k) u e = inr e

  joined-IsSound : IsSound b → IsSound joined
  unfolding joined member
  joined-IsSound v = record {
    in_use = λ h u e. elim (joined_holds h u e) [
      | inl (_, same) ↦ rw (used, same) (ground arith)
      | inr old ↦ rw used (ground (arith, v.in_use h u old))
    ];
    apart = λ h k u t eu et same. elim (joined_holds h u eu) [
      | inl (at_h, su) ↦ elim (joined_holds k t et) [
        | inl (at_k, st) ↦ at_h ∙ sym at_k
        | inr old ↦ absurd (clash k t old (sym same ∙ su))
      ]
      | inr old_u ↦ elim (joined_holds k t et) [
        | inl (at_k, st) ↦ absurd (clash h u old_u (same ∙ st))
        | inr old ↦ v.apart h k u t old_u old same
      ]
    ];
  }
    where
      clash : (h : Place) (u : Session) → holder b h ≡ some u → u.client_addr ≢ s.client_addr
      clash h u e same = let taken = v.in_use h u e in let free = unused in cc

free_unused : (p : Pool) (a : ℕ) → is_free p (some a) ≡ true → member a p.used ≡ false
unfolding is_free
free_unused p a free = ground arith

-- Nothing but the sessions, the parked sessions and the pool counts.
pub same_holders :
    {b b' : Broker}
    → IsSound b
    → b'.sessions ≡ b.sessions
    → b'.parked ≡ b.parked
    → b'.pool ≡ b.pool
    → IsSound b'
unfolding holder
same_holders {b} {b'} v e f g =
    moved-IsSound b b' (λ h. h) v (λ h s hs. (s, back h s hs, refl)) (λ h k s t hs kt same. same)
      (λ h s hs. rw g (v.in_use h s (back h s hs)))
  where
    back : (h : Place) (s : Session) → holder b' h ≡ some s → holder b h ≡ some s
    back (at_session i) s hs = rw (← e) hs
    back (at_parked k) s hs = rw (← f) hs

pub admit-IsSound :
    (b : Broker) (c : Client) (ex : ℕ) (e : ExitNode) → IsSound b → IsSound (admit b c ex e).0
unfolding admit joined
admit-IsSound b c ex e v = elim (allocate_any b.pool) [
  | inl (a, free, got) ↦
      rw (got, admit)
        (joined-IsSound b ((b.next_session + 1) % 2 ^ 64) _ _ _ (ap (λ r. r.0.used) got)
          (free_unused b.pool a free) v)
  | inr (inl (x, got)) ↦ rw (got, admit) (same_holders v refl refl (ap (λ r. r.0) got))
  | inr (inr got) ↦ rw (got, admit) (same_holders v refl refl (ap (λ r. r.0) got))
]
