-- ===== src/Broker/Filing.antt =====
-- Under which keys cmd/revquic-broker/main.go files its sessions and parked sessions.
use revquic.Prelude.{
  ℕ, ◌≡◌, refl, subst, Bool, true, false, none, some, List, [], ◌∷◌, String, str_eq, eq_iff, arith,
  Bool-cases, Option-cases, inl, inr, ◌==◌, ==_iff, ◌&&◌, not, ltb, leb, ◌-◌, ◌||◌,
}
use revquic.Prelude.Assoc.{
  lookup, insert, delete, nat_key, string_key, lookup-insert, lookup-delete,
}
use revquic.Ippool.Sweep.{allocate_any}
use revquic.Broker.{
  Broker, Session, ExitNode, Client, register_exit, exit_gone, select_exit, admit, try_resume,
  suspend_session, expire_park, end_session,
}
use revquic.Broker.Steps.{
  Step, registers, goes, selects, admits, resumes, suspends, expires, ends, step, run,
}

-- A live session stands under its own id and is not suspended.
pub record IsLive (sid : ℕ) (s : Session) : Type 0 where
  pub own_id : s.id ≡ sid
  pub awake : s.suspended ≡ false

-- A parked session stands under its own resume key, which is not empty, and is suspended.
pub record IsParked (key : String) (s : Session) : Type 0 where
  pub own_key : s.resume_key ≡ key
  pub keyed : str_eq key "" ≡ false
  pub asleep : s.suspended ≡ true

pub record IsFiled (b : Broker) : Type 0 where
  pub live : (sid : ℕ) (s : Session) → lookup sid b.sessions ≡ some s → IsLive sid s
  pub parked : (key : String) (s : Session) → lookup key b.parked ≡ some s → IsParked key s

insert-IsLive :
    (m : List (ℕ × Session)) (sid : ℕ) (s : Session)
    → ((i : ℕ) (t : Session) → lookup i m ≡ some t → IsLive i t)
    → IsLive sid s
    → (i : ℕ) (t : Session) → lookup i (insert sid s m) ≡ some t
    → IsLive i t
insert-IsLive m sid s live new i t e = elim (Bool-cases (sid == i)) [
  | inl same ↦
      subst (λ j. IsLive j t) ((==_iff sid i).0 same)
        (subst (λ u. IsLive sid u) {x = s} (ground (arith, lookup-insert sid i s m)) new)
  | inr other ↦ live i t (ground (arith, lookup-insert sid i s m))
]

insert-IsParked :
    (m : List (String × Session)) (key : String) (s : Session)
    → ((k : String) (t : Session) → lookup k m ≡ some t → IsParked k t)
    → IsParked key s
    → (k : String) (t : Session) → lookup k (insert key s m) ≡ some t
    → IsParked k t
insert-IsParked m key s parked new k t e = elim (Bool-cases (str_eq key k)) [
  | inl same ↦
      subst (λ j. IsParked j t) ((eq_iff key k).0 same)
        (subst (λ u. IsParked key u) {x = s} (ground (arith, same, lookup-insert key k s m)) new)
  | inr other ↦ parked k t (ground (arith, lookup-insert key k s m))
]

delete-IsLive :
    (m : List (ℕ × Session)) (sid : ℕ)
    → ((i : ℕ) (t : Session) → lookup i m ≡ some t → IsLive i t)
    → (i : ℕ) (t : Session) → lookup i (delete sid m) ≡ some t
    → IsLive i t
delete-IsLive m sid live i t e = live i t (ground (arith, lookup-delete sid i m))

delete-IsParked :
    (m : List (String × Session)) (key : String)
    → ((k : String) (t : Session) → lookup k m ≡ some t → IsParked k t)
    → (k : String) (t : Session) → lookup k (delete key m) ≡ some t
    → IsParked k t
delete-IsParked m key parked k t e = parked k t (ground (arith, lookup-delete key k m))

same_files :
    {b b' : Broker} → IsFiled b → b'.sessions ≡ b.sessions → b'.parked ≡ b.parked → IsFiled b'
same_files {b} {b'} f e g = record {
  live = λ i s h. f.live i s (rw (← e) h);
  parked = λ k s h. f.parked k s (rw (← g) h);
}

admit-IsFiled :
    (b : Broker) (c : Client) (ex : ℕ) (e : ExitNode) → IsFiled b → IsFiled (admit b c ex e).0
unfolding admit
admit-IsFiled b c ex e f = elim (allocate_any b.pool) [
  | inl (a, free, got) ↦
      rw (got, admit)
        (record {
          live = insert-IsLive b.sessions _ _ f.live (record { own_id = refl; awake = refl });
          parked = f.parked;
        })
  | inr (inl (x, got)) ↦ rw (got, admit) (same_files f refl refl)
  | inr (inr got) ↦ rw (got, admit) (same_files f refl refl)
]

try_resume-IsFiled :
    (b : Broker) (key username : String) (conn now : ℕ)
    → IsFiled b
    → IsFiled (try_resume b key username conn now).0
unfolding try_resume
try_resume-IsFiled b key username conn now f = elim (Option-cases (lookup key b.parked)) [
  | inl e ↦ rw (e, try_resume) f
  | inr (s, e) ↦ elim (Option-cases (lookup s.node_id b.exits)) [
    | inl gone ↦ rw (e, gone, try_resume) f
    | inr (ex, on) ↦
        elim (Bool-cases
          (not (str_eq s.username username) || leb b.resume_ttl (now - s.parked_at))) [
            | inl refused ↦ rw (e, on, refused, try_resume) f
            | inr taken ↦
                rw (e, on, taken, try_resume)
                  (record {
                    live =
                        insert-IsLive b.sessions _ _ f.live
                          (record { own_id = refl; awake = refl });
                    parked = delete-IsParked b.parked key f.parked;
                  })
          ]
  ]
]

suspend_session-IsFiled :
    (b : Broker) (sid : ℕ) (intentional : Bool) (now : ℕ)
    → IsFiled b
    → IsFiled (suspend_session b sid intentional now).0
unfolding suspend_session
suspend_session-IsFiled b sid intentional now f = elim (Option-cases (lookup sid b.sessions)) [
  | inl e ↦ rw (e, suspend_session) f
  | inr (s, e) ↦
      elim (Bool-cases (not intentional && not (str_eq s.resume_key "") && ltb 0 b.resume_ttl)) [
        | inl parks ↦
            rw (e, parks, suspend_session)
              (record {
                live = delete-IsLive b.sessions sid f.live;
                parked =
                    insert-IsParked b.parked s.resume_key _ f.parked
                      (record { own_key = refl; keyed = ground arith; asleep = refl });
              })
        | inr over ↦
            rw (e, over, suspend_session)
              (record { live = delete-IsLive b.sessions sid f.live; parked = f.parked })
      ]
]

expire_park-IsFiled :
    (b : Broker) (key : String) (sid : ℕ) → IsFiled b → IsFiled (expire_park b key sid).0
unfolding expire_park
expire_park-IsFiled b key sid f = elim (Option-cases (lookup key b.parked)) [
  | inl e ↦ rw (e, expire_park) f
  | inr (s, e) ↦ elim (Bool-cases (not (s.id == sid) || not s.suspended)) [
    | inl stale ↦ rw (e, stale, expire_park) f
    | inr due ↦
        rw (e, due, expire_park)
          (record { live = f.live; parked = delete-IsParked b.parked key f.parked })
  ]
]

end_session-IsFiled : (b : Broker) (sid : ℕ) → IsFiled b → IsFiled (end_session b sid).0
unfolding end_session
end_session-IsFiled b sid f = elim (Option-cases (lookup sid b.sessions)) [
  | inl e ↦ rw (e, end_session) f
  | inr (s, e) ↦
      rw (e, end_session) (record { live = delete-IsLive b.sessions sid f.live; parked = f.parked })
]

step-IsFiled : (b : Broker) (s : Step) → IsFiled b → IsFiled (step b s)
unfolding step register_exit exit_gone select_exit
step-IsFiled b (registers token secret e) f = elim (Bool-cases (str_eq token secret)) [
  | inl good ↦ rw (good, step, register_exit) (same_files f refl refl)
  | inr bad ↦ rw (bad, step, register_exit) f
]
step-IsFiled b (goes node_id) f = same_files f refl refl
step-IsFiled b (selects requested region intn) f = elim (Bool-cases (str_eq requested "")) [
  | inl auto ↦ rw (auto, step, select_exit) (same_files f refl refl)
  | inr manual ↦ rw (manual, step, select_exit) f
]
step-IsFiled b (admits c ex e) f = admit-IsFiled b c ex e f
step-IsFiled b (resumes key username conn now) f = try_resume-IsFiled b key username conn now f
step-IsFiled b (suspends sid intentional now) f = suspend_session-IsFiled b sid intentional now f
step-IsFiled b (expires key sid) f = expire_park-IsFiled b key sid f
step-IsFiled b (ends sid) f = end_session-IsFiled b sid f

run-IsFiled : (b : Broker) (steps : List Step) → IsFiled b → IsFiled (run b steps)
unfolding run
run-IsFiled b [] f = f
run-IsFiled b (s ∷ steps) f = run-IsFiled (step b s) steps (step-IsFiled b s f)

none-ne-some {ℓ} : {A : Type ℓ} {x : A} → ¬ (none ≡ some x)
none-ne-some e = cc

empty-IsFiled : (b : Broker) → b.sessions ≡ [] → b.parked ≡ [] → IsFiled b
unfolding lookup
empty-IsFiled b e f = record {
  live = λ i s h. absurd (none-ne-some (rw e at h));
  parked = λ k s h. absurd (none-ne-some (rw f at h));
}

pub run_files :
    (b : Broker) (steps : List Step) → b.sessions ≡ [] → b.parked ≡ [] → IsFiled (run b steps)
run_files b steps e f = run-IsFiled b steps (empty-IsFiled b e f)

-- After any steps of a broker that began without sessions, every live session stands under its own id
-- and is not suspended.
pub run-IsLive :
    (b : Broker) (steps : List Step) (sid : ℕ) (s : Session)
    → b.sessions ≡ []
    → b.parked ≡ []
    → lookup sid (run b steps).sessions ≡ some s
    → IsLive sid s
run-IsLive b steps sid s e f h = let filed = run_files b steps e f in filed.live sid s h

-- After any steps of a broker that began without sessions, every parked session stands under its own
-- resume key, which is not empty, and is suspended.
pub run-IsParked :
    (b : Broker) (steps : List Step) (key : String) (s : Session)
    → b.sessions ≡ []
    → b.parked ≡ []
    → lookup key (run b steps).parked ≡ some s
    → IsParked key s
run-IsParked b steps key s e f h = let filed = run_files b steps e f in filed.parked key s h
