-- ===== src/Broker/Ownership.antt =====
-- Which session of cmd/revquic-broker/main.go holds which VPN address.
pub mod Moves
pub mod Run
use revquic.Prelude.{
  ℕ, ◌+◌, ◌≡◌, ◌≢◌, refl, sym, ap, subst, ◌∙◌, ◌⊎◌, inl, inr, Bool, true, false, Option, none, some,
  List, [], ◌∷◌, String, str_eq, eq_iff, arith, ◌==◌, if◌then◌else◌, Bool-cases, Option-cases,
  ==_iff, ◌||◌, not,
}
use revquic.Prelude.Assoc.{
  lookup, insert, delete, nat_key, string_key, lookup-insert, lookup-delete,
}
use revquic.Ippool.{Pool, allocate, release, member}
use revquic.Ippool
use revquic.Ippool.Ledger.{member-remove}
use revquic.Broker.{
  Broker, Session, ExitNode, Client, admit, try_resume, suspend_session, expire_park, end_session,
}

-- Where a session can be found: under its id, or parked under its resume key.
pub data Place : Type 0 where
  at_session : ℕ → Place
  at_parked : String → Place

unfoldable pub holder : Broker → Place → Option Session
holder b (at_session sid) = lookup sid b.sessions
holder b (at_parked key) = lookup key b.parked

-- Every address held is marked in use, and no two places hold the same address.
pub record IsSound (b : Broker) : Type 0 where
  pub in_use :
      (h : Place) (s : Session) → holder b h ≡ some s → member s.client_addr b.pool.used ≡ true
  pub apart :
      (h k : Place) (s t : Session)
      → holder b h ≡ some s
      → holder b k ≡ some t
      → s.client_addr ≡ t.client_addr
      → h ≡ k

-- A step that only moves or drops sessions, `origin` saying where each one was before.
pub moved-IsSound :
    (b b' : Broker) (origin : Place → Place)
    → IsSound b
    → ((h : Place) (s : Session)
        → holder b' h ≡ some s
        → (t : Session) × (holder b (origin h) ≡ some t) × (t.client_addr ≡ s.client_addr))
    → ((h k : Place) (s t : Session)
        → holder b' h ≡ some s
        → holder b' k ≡ some t
        → origin h ≡ origin k
        → h ≡ k)
    → ((h : Place) (s : Session) → holder b' h ≡ some s → member s.client_addr b'.pool.used ≡ true)
    → IsSound b'
moved-IsSound b b' origin v back inj used = record {
  in_use = used;
  apart = λ h k s t hs kt e.
      let (s0, hs0, es) = back h s hs in
      let (t0, kt0, et) = back k t kt in
      inj h k s t hs kt (v.apart (origin h) (origin k) s0 t0 hs0 kt0 (es ∙ e ∙ sym et));
}

-- A step that only drops the session at one place and may release its address.
module _ (b : Broker) (v : IsSound b) (gone : Place) (s : Session)
    (held : holder b gone ≡ some s) where
  kept_in_use :
      (h : Place) (t : Session)
      → holder b h ≡ some t
      → h ≢ gone
      → member t.client_addr (release b.pool s.client_addr).used ≡ true
  unfolding release
  kept_in_use h t ht ne = elim (Bool-cases (s.client_addr == t.client_addr)) [
    | inl e ↦ absurd (ne (v.apart h gone t s ht held (sym ((==_iff _ _).0 e))))
    | inr e ↦ rw (member-remove s.client_addr t.client_addr b.pool.used, e) (v.in_use h t ht)
  ]

  pub dropped-IsSound :
      (b' : Broker)
      → ((h : Place) (t : Session) → holder b' h ≡ some t → (h ≢ gone) × (holder b h ≡ some t))
      → b'.pool ≡ release b.pool s.client_addr
      → IsSound b'
  dropped-IsSound b' back pool =
      moved-IsSound b b' (λ h. h) v (λ h t ht. (t, (back h t ht).1, refl)) (λ h k t u ht ku e. e)
        (λ h t ht. rw pool (kept_in_use h t (back h t ht).1 (back h t ht).0))

-- What is left when one session, or one parked session, is deleted.
pub delete_session_back :
    (b : Broker) (sid : ℕ) (active : ℕ → ℕ) (pool : Pool) (h : Place) (t : Session)
    → holder (record b { sessions = delete sid b.sessions; active = active; pool = pool }) h
      ≡ some t
    → (h ≢ at_session sid) × (holder b h ≡ some t)
unfolding holder
delete_session_back b sid active pool (at_session i) t e =
    (ground (arith, lookup-delete sid i b.sessions), ground (arith, lookup-delete sid i b.sessions))
delete_session_back b sid active pool (at_parked k) t e = ((λ c. cc), e)

delete_parked_back :
    (b : Broker) (key : String) (pool : Pool) (h : Place) (t : Session)
    → holder (record b { parked = delete key b.parked; pool = pool }) h ≡ some t
    → (h ≢ at_parked key) × (holder b h ≡ some t)
unfolding holder
delete_parked_back b key pool (at_session i) t e = ((λ c. cc), e)
delete_parked_back b key pool (at_parked k) t e = (
  ground (arith, lookup-delete key k b.parked, eq_iff key k),
  ground (arith, lookup-delete key k b.parked, eq_iff key k),
)

pub end_session-IsSound : (b : Broker) (sid : ℕ) → IsSound b → IsSound (end_session b sid).0
unfolding end_session
end_session-IsSound b sid v = elim (Option-cases (lookup sid b.sessions)) [
  | inl e ↦ rw (e, end_session) v
  | inr (s, e) ↦
      rw (e, end_session)
        (dropped-IsSound b v (at_session sid) s (unfold holder in e) _
          (delete_session_back b sid _ _) refl)
]

pub expire_park-IsSound :
    (b : Broker) (key : String) (sid : ℕ) → IsSound b → IsSound (expire_park b key sid).0
unfolding expire_park
expire_park-IsSound b key sid v = elim (Option-cases (lookup key b.parked)) [
  | inl e ↦ rw (e, expire_park) v
  | inr (s, e) ↦
      let dropped =
        dropped-IsSound b v (at_parked key) s (unfold holder in e) _
          (delete_parked_back b key (release b.pool s.client_addr)) refl in
      elim (Bool-cases (not (s.id == sid) || not s.suspended)) [
        | inl stale ↦ rw (e, stale, expire_park) v
        | inr due ↦ rw (e, due, expire_park) dropped
      ]
]
