-- ===== src/Broker/Leaks.antt =====
-- suspendSession of cmd/revquic-broker/main.go where the resume key is already in use: the session
-- parked before is forgotten, but its address is not released.
use revquic.Prelude.{
  ℕ, ◌≡◌, ◌≢◌, ap, subst, ◌∙◌, true, false, some, String, str_eq, eq_iff, arith, Bool-cases, inl,
  inr, ltb,
}
use revquic.Prelude.Assoc.{
  lookup, insert, delete, nat_key, string_key, lookup-insert, lookup-delete,
}
use revquic.Ippool.{member}
use revquic.Broker.{Broker, Session, suspend_session, sub_active}
use revquic.Broker.Ownership.{Place, at_session, at_parked, holder, IsSound}
use revquic.Broker.Resume.{parks}

at_session-ne-at_parked : {sid : ℕ} {key : String} → at_session sid ≢ at_parked key
at_session-ne-at_parked e = cc

module _ (b : Broker) (sid : ℕ) (s older : Session) (now : ℕ) (sound : IsSound b)
    (held : lookup sid b.sessions ≡ some s) (keyed : str_eq s.resume_key "" ≡ false)
    (long : ltb 0 b.resume_ttl ≡ true) (taken : lookup s.resume_key b.parked ≡ some older) where
  after : Broker
  after = record b {
    sessions = delete sid b.sessions;
    active = sub_active s.exit b.active;
    parked = insert s.resume_key (record s { suspended = true; parked_at = now }) b.parked;
  }

  unheld : (h : Place) (t : Session) → holder after h ≡ some t → t.client_addr ≢ older.client_addr
  unfolding holder after
  unheld (at_session i) t e same =
      let there : holder b (at_session i) ≡ some t =
        ground (arith, lookup-delete sid i b.sessions) in
      at_session-ne-at_parked
        (sound.apart (at_session i) (at_parked s.resume_key) t older there taken same)
  unheld (at_parked k) t e same =
      let parked : Session = record s { suspended = true; parked_at = now } in
      let put = lookup-insert s.resume_key k parked b.parked in
      elim (Bool-cases (str_eq s.resume_key k)) [
        | inl own ↦
            let its : parked.client_addr ≡ t.client_addr = ground (arith, put) in
            at_session-ne-at_parked (
              sound.apart (at_session sid) (at_parked s.resume_key) s older held taken (its ∙ same))
        | inr other ↦
            let there : holder b (at_parked k) ≡ some t = ground (arith, put) in
            let key = sound.apart (at_parked k) (at_parked s.resume_key) t older there taken same in
            ground (arith, eq_iff s.resume_key k)
      ]

-- If a session is parked under a resume key under which another session is parked already, then no
-- session, live or parked, holds the address of that older session any more, and still the address
-- stays marked in use.
pub suspend_session_leaks :
    (b : Broker) (sid : ℕ) (s older : Session) (now : ℕ) (h : Place) (t : Session)
    → IsSound b
    → lookup sid b.sessions ≡ some s
    → str_eq s.resume_key "" ≡ false
    → ltb 0 b.resume_ttl ≡ true
    → lookup s.resume_key b.parked ≡ some older
    → holder (suspend_session b sid false now).0 h ≡ some t
    → (member older.client_addr (suspend_session b sid false now).0.pool.used ≡ true)
      × (t.client_addr ≢ older.client_addr)
unfolding holder after
suspend_session_leaks b sid s older now h t sound held keyed long taken e =
    let parking = parks b sid s now held keyed long in
    (
      ap (λ c. member older.client_addr c.pool.used) parking
          ∙ sound.in_use (at_parked s.resume_key) older taken,
      unheld b sid s older now sound held keyed long taken h t
          (subst (λ c. holder c h ≡ some t) parking e),
    )
