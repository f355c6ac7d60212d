-- ===== src/Broker/Resume.antt =====
-- tryResume, suspendSession and expirePark of cmd/revquic-broker/main.go together: what becomes of a
-- session whose client drops out.
use revquic.Prelude.{
  ℕ, ◌≡◌, ◌≢◌, ◌<◌, refl, sym, ap, subst, ◌∙◌, Bool, true, false, none, some, String, str_eq,
  eq_iff, arith, Bool-cases, Option-cases, inl, inr, ==_iff, ◌&&◌, not, ltb, leb, ◌-◌, ◌||◌,
}
use revquic.Prelude.Assoc.{
  lookup, insert, delete, nat_key, string_key, lookup-insert, lookup-delete, delete-insert,
}
use revquic.Ippool.{release}
use revquic.Broker.{
  Broker, Session, try_resume, suspend_session, expire_park, add_active, sub_active,
}
use revquic.Broker.Filing.{IsFiled}

-- What a session keeps when it is resumed on another connection.
pub record Kept (b : Broker) (username : String) (now : ℕ) (ps s : Session) : Type 0 where
  pub same_id : s.id ≡ ps.id
  pub same_addr : s.client_addr ≡ ps.client_addr
  pub same_user : ps.username ≡ username
  pub own_user : s.username ≡ username
  pub in_time : now - ps.parked_at < b.resume_ttl
  pub exit_online : lookup ps.node_id b.exits ≡ some s.exit
  pub awake : s.suspended ≡ false

none-ne-some {ℓ} : {A : Type ℓ} {x : A} → ¬ (none ≡ some x)
none-ne-some e = cc

unwrap {ℓ} : {A : Type ℓ} {x y : A} → some x ≡ some y → x ≡ y
unwrap e = cc

pub parks :
    (b : Broker) (sid : ℕ) (s : Session) (now : ℕ)
    → lookup sid b.sessions ≡ some s
    → str_eq s.resume_key "" ≡ false
    → ltb 0 b.resume_ttl ≡ true
    → (suspend_session b sid false now).0 ≡ record b {
      sessions = delete sid b.sessions;
      active = sub_active s.exit b.active;
      parked = insert s.resume_key (record s { suspended = true; parked_at = now }) b.parked;
    }
unfolding suspend_session
parks b sid s now held keyed long = rw (held, keyed, long, suspend_session) refl

takes :
    (b : Broker) (key : String) (ps : Session) (conn now ex : ℕ)
    → lookup key b.parked ≡ some ps
    → lookup ps.node_id b.exits ≡ some ex
    → str_eq ps.username ps.username ≡ true
    → leb b.resume_ttl (now - ps.parked_at) ≡ false
    → try_resume b key ps.username conn now ≡ (
      record b {
        parked = delete key b.parked;
        sessions =
            insert ps.id (record ps { suspended = false; client = conn; exit = ex }) b.sessions;
        active = add_active ex b.active;
      },
      some (record ps { suspended = false; client = conn; exit = ex }),
    )
unfolding try_resume
takes b key ps conn now ex held online same in_time =
    rw (held, online, same, in_time, try_resume) refl

-- A resume that succeeds takes up the session parked under that key: it belongs to the same user, its
-- time is not over, an exit with its node id is registered and carries it now, and it keeps its id and
-- its VPN address; the key holds no parked session any more.
pub try_resume_sound :
    (b : Broker) (key username : String) (conn now : ℕ) (s : Session)
    → (try_resume b key username conn now).1 ≡ some s
    → (ps : Session) × (lookup key b.parked ≡ some ps)
      × Kept b username now ps s
      × (lookup key (try_resume b key username conn now).0.parked ≡ none)
unfolding try_resume
try_resume_sound b key username conn now s h = elim (Option-cases (lookup key b.parked)) [
  | inl e ↦ absurd (none-ne-some (rw (e, try_resume) at h))
  | inr (ps, e) ↦ elim (Option-cases (lookup ps.node_id b.exits)) [
    | inl gone ↦ absurd (none-ne-some (rw (e, gone, try_resume) at h))
    | inr (ex, on) ↦
        elim (Bool-cases
          (not (str_eq ps.username username) || leb b.resume_ttl (now - ps.parked_at))) [
            | inl refused ↦ absurd (none-ne-some (rw (e, on, refused, try_resume) at h))
            | inr taken ↦
                let got : record ps { suspended = false; client = conn; exit = ex } ≡ s =
                  unwrap (rw (e, on, taken, try_resume) at h) in
                (
                  ps,
                  e,
                  subst (Kept b username now ps) got (record {
                    same_id = refl;
                    same_addr = refl;
                    same_user = ground (arith, eq_iff ps.username username);
                    own_user = ground (arith, eq_iff ps.username username);
                    in_time = ground arith;
                    exit_online = on;
                    awake = refl;
                  }),
                  rw (e, on, taken, try_resume)
                      (ground (arith, lookup-delete key key b.parked, eq_iff key key)),
                )
          ]
  ]
]

-- If a client drops out without closing, and comes back with its resume key before the time is over
-- while an exit with its node id is registered, it gets its session back on the new connection and
-- that exit, under the same id and with the same VPN address; the addresses in use are as before.
pub suspend_resume :
    (b : Broker) (sid : ℕ) (s : Session) (conn ex dropped back : ℕ)
    → IsFiled b
    → lookup sid b.sessions ≡ some s
    → s.resume_key ≢ ""
    → back - dropped < b.resume_ttl
    → lookup s.node_id b.exits ≡ some ex
    → let parked : Broker = (suspend_session b sid false dropped).0 in
      let again : Session = record s {
        suspended = false;
        client = conn;
        exit = ex;
        parked_at = dropped;
      } in
      let resumed = try_resume parked s.resume_key s.username conn back in
      (resumed.1 ≡ some again)
      × (lookup sid resumed.0.sessions ≡ some again)
      × (resumed.0.pool ≡ b.pool)
suspend_resume b sid s conn ex dropped back f held keyed in_time online =
    let live = f.live sid s held in
    let key = s.resume_key in
    let ps : Session = record s { suspended = true; parked_at = dropped } in
    let b1 : Broker = record b {
      sessions = delete sid b.sessions;
      active = sub_active s.exit b.active;
      parked = insert key ps b.parked;
    } in
    let found : lookup key b1.parked ≡ some ps =
      ground (arith, lookup-insert key key ps b.parked, eq_iff key key) in
    let parking = parks b sid s dropped held (ground (arith, eq_iff key "")) (ground arith) in
    let taking =
      takes b1 key ps conn back ex found online (ground (arith, eq_iff s.username s.username))
        (ground arith) in
    let whole = ap (λ x. try_resume x key s.username conn back) parking ∙ taking in
    (
      ap (λ r. r.1) whole,
      ap (λ r. lookup sid r.0.sessions) whole
          ∙ ground (
            arith,
            live.own_id,
            lookup-insert s.id sid
                (record s { suspended = false; client = conn; exit = ex; parked_at = dropped })
                b1.sessions,
          ),
      ap (λ r. r.0.pool) whole,
    )

ended :
    (b : Broker) (sid : ℕ) (s : Session) (intentional : Bool) (now : ℕ)
    → lookup sid b.sessions ≡ some s
    → not intentional && not (str_eq s.resume_key "") && ltb 0 b.resume_ttl ≡ false
    → (suspend_session b sid intentional now).0 ≡ record b {
      sessions = delete sid b.sessions;
      active = sub_active s.exit b.active;
      pool = release b.pool s.client_addr;
    }
unfolding suspend_session
ended b sid s intentional now held over = rw (held, over, suspend_session) refl

unparked :
    (b : Broker) (key : String) (sid : ℕ)
    → lookup key b.parked ≡ none
    → (expire_park b key sid).0 ≡ b
unfolding expire_park
unparked b key sid e = rw (e, expire_park) refl

expired :
    (b : Broker) (key : String) (sid : ℕ) (s : Session)
    → lookup key b.parked ≡ some s
    → s.id ≡ sid
    → s.suspended ≡ true
    → (expire_park b key sid).0
      ≡ record b { parked = delete key b.parked; pool = release b.pool s.client_addr }
unfolding expire_park
expired b key sid s e own asleep = rw (e, asleep, (==_iff s.id sid).1 own, expire_park) refl

-- If the time of a client that dropped out runs over, its session ends as if the client had closed it
-- at once: the sessions, the parked sessions, the counters and the addresses in use are the same. The
-- resume key must not have been in use by another parked session.
pub suspend_expire :
    (b : Broker) (sid : ℕ) (s : Session) (now : ℕ)
    → IsFiled b
    → lookup sid b.sessions ≡ some s
    → lookup s.resume_key b.parked ≡ none
    → (expire_park (suspend_session b sid false now).0 s.resume_key sid).0
      ≡ (suspend_session b sid true now).0
suspend_expire b sid s now f held free =
    let key = s.resume_key in
    let closed = ended b sid s true now held refl in
    elim (Bool-cases (not (str_eq s.resume_key "") && ltb 0 b.resume_ttl)) [
      | inr over ↦
          let dropped = ended b sid s false now held over in
          ap (λ x. (expire_park x key sid).0) dropped ∙ unparked _ key sid free ∙ sym closed
      | inl stays ↦
          let ps : Session = record s { suspended = true; parked_at = now } in
          let b1 : Broker = record b {
            sessions = delete sid b.sessions;
            active = sub_active s.exit b.active;
            parked = insert key ps b.parked;
          } in
          let parking = parks b sid s now held (ground arith) (ground arith) in
          let found : lookup key b1.parked ≡ some ps =
            ground (arith, lookup-insert key key ps b.parked, eq_iff key key) in
          let expiry = expired b1 key sid ps found (f.live sid s held).own_id refl in
          ap (λ x. (expire_park x key sid).0) parking
          ∙ expiry
          ∙ ap
              (λ m. record b {
                sessions = delete sid b.sessions;
                active = sub_active s.exit b.active;
                parked = m;
                pool = release b.pool s.client_addr;
              })
              (delete-insert key ps b.parked free)
          ∙ sym closed
    ]
