-- ===== src/Ippool/Refine.antt =====
-- internal/ippool/ippool.go against what it promises: a set of the addresses that are out, without
-- the cursor, the order and the loop.
use revquic.Prelude.{
  ℕ, ◌≡◌, refl, sym, ap, ap₂, subst, ◌≤◌, ◌<◌, ◌^◌, ◌∙◌, inl, inr, Bool, true, false, some, List,
  [], ◌∷◌, arith, ◌==◌, if◌then◌else◌, Bool-cases,
}
use revquic.Ippool.{
  remove, Prefix, Pool, Result, ok, err, stuck, member, masked, new, allocate, release, is_free,
}
use revquic.Ippool.Sweep.{IsPrefix, allocate_cases}
use revquic.Ippool.Broadcast.{is_free_iff}
use revquic.Ippool.Ledger.{
  Call, allocates, releases, IsHost, IsValid, step, run, member-remove, allocate-IsValid,
  release-IsValid, new-IsValid,
}

-- What a caller of the pool sees of a call.
pub data Answer : Type 0 where
  granted returned : ℕ → Answer
  none_left gave_up : Answer

module _ (pfx : Prefix) (reserved : List ℕ) where
  -- A step of the specification, from one set of addresses to another.
  pub data Promise : (ℕ → Bool) → Answer → (ℕ → Bool) → Type 0 where
    grants :
        {out out' : ℕ → Bool} (a : ℕ)
        → IsHost pfx reserved a
        → out a ≡ false
        → ((b : ℕ) → out' b ≡ (if a == b then true else out b))
        → Promise out (granted a) out'
    runs_out :
        {out out' : ℕ → Bool}
        → ((b : ℕ) → IsHost pfx reserved b → out b ≡ true)
        → ((b : ℕ) → out' b ≡ out b)
        → Promise out none_left out'
    takes_back :
        {out out' : ℕ → Bool} (a : ℕ)
        → ((b : ℕ) → out' b ≡ (if a == b then false else out b))
        → Promise out (returned a) out'

  -- Steps of the specification one after the other.
  pub data Promises : (ℕ → Bool) → List Answer → (ℕ → Bool) → Type 0 where
    stop : {out : ℕ → Bool} → Promises out [] out
    next :
        {out out' last : ℕ → Bool} {r : Answer} {rs : List Answer}
        → Promise out r out'
        → Promises out' rs last
        → Promises out (r ∷ rs) last

abbrev pub granted_or : Result ℕ → Answer
granted_or (ok a) = granted a
granted_or (err e) = none_left
granted_or stuck = gave_up

pub answer : Pool → Call → Answer
answer p allocates = granted_or (allocate p).1
answer p (releases a) = returned a

pub answers : Pool → List Call → List Answer
answers p [] = []
answers p (c ∷ calls) = answer p c ∷ answers (step p c) calls

-- The set that the specification sees of a pool.
pub leases : Pool → ℕ → Bool
leases p b = member b p.used

allocate_framed :
    (p : Pool)
    → IsPrefix p.prefix
    → ((allocate p).0.prefix ≡ p.prefix) × ((allocate p).0.reserved ≡ p.reserved)
allocate_framed p v = elim (allocate_cases p v) [
  | inl (a, free, e) ↦ rw e (refl, refl)
  | inr (e, full) ↦ rw e (refl, refl)
]

free-IsHost :
    (p : Pool) (a : ℕ)
    → IsPrefix p.prefix
    → is_free p (some a) ≡ true
    → IsHost p.prefix p.reserved a × (leases p a ≡ false)
unfolding leases
free-IsHost p a v free =
    let (above, below, open_to_all, unused) = (is_free_iff p a v).0 free in
    (record { above = above; below = below; open_to_all = open_to_all }, unused)

taken_host :
    (p : Pool) (a : ℕ)
    → IsPrefix p.prefix
    → IsHost p.prefix p.reserved a
    → is_free p (some a) ≡ false
    → leases p a ≡ true
unfolding leases
taken_host p a v h taken = elim (Bool-cases (member a p.used)) [
  | inl out ↦ out
  | inr unused ↦
      let bad : false ≡ true =
        sym taken ∙ (is_free_iff p a v).1 (h.above, h.below, h.open_to_all, unused) in
      cc
]

grown : (a b : ℕ) (used : List ℕ) → member b (a ∷ used) ≡ (if a == b then true else member b used)
unfolding member
grown a b used = ground arith

step_promised :
    (p : Pool) (c : Call)
    → IsValid p
    → Promise p.prefix p.reserved (leases p) (answer p c) (leases (step p c))
unfolding answer step leases remove release
step_promised p allocates v = elim (allocate_cases p v.framed) [
  | inl (a, free, e) ↦
      let (host, unused) = free-IsHost p a v.framed free in
      rw e (grants a host unused (λ b. ap (λ r. leases r.0 b) e ∙ grown a b p.used))
  | inr (e, full) ↦
      rw e
        (runs_out (λ b host. taken_host p b v.framed host (full b)) (λ b. ap (λ r. leases r.0 b) e))
]
step_promised p (releases a) v = takes_back a (λ b. member-remove a b p.used)

step-IsValid : (p : Pool) (c : Call) → IsValid p → IsValid (step p c)
unfolding step
step-IsValid p allocates v = allocate-IsValid p v
step-IsValid p (releases a) v = release-IsValid p a v

step_framed :
    (p : Pool) (c : Call)
    → IsValid p
    → ((step p c).prefix ≡ p.prefix) × ((step p c).reserved ≡ p.reserved)
unfolding step release
step_framed p allocates v = allocate_framed p v.framed
step_framed p (releases a) v = (refl, refl)

run_promised :
    (p : Pool) (calls : List Call)
    → IsValid p
    → Promises p.prefix p.reserved (leases p) (answers p calls) (leases (run p calls))
unfolding answers run
run_promised p [] v = stop
run_promised p (c ∷ calls) v =
    let (same_prefix, same_reserved) = step_framed p c v in
    next (step_promised p c v) (
      subst
        (λ (f : Prefix × List ℕ).
          Promises f.0 f.1 (leases (step p c)) (answers (step p c) calls)
            (leases (run (step p c) calls)))
        {x = ((step p c).prefix, (step p c).reserved)} {y = (p.prefix, p.reserved)}
        (ap₂ (λ a b. (a, b)) same_prefix same_reserved)
        (run_promised (step p c) calls (step-IsValid p c v)))

empty_leases : (p : Pool) → p.used ≡ [] → leases p ≡ (λ b. false)
unfolding leases member
empty_leases p e = ap (λ u b. member b u) e

-- A pool that New built over an IPv4 prefix implements the specification, a set of addresses that
-- starts empty: whatever Allocate and Release answer in any run is what the specification allows, in
-- which an address is granted only if it is a host of the prefix that is not reserved and not out,
-- Allocate reports exhaustion only when every such host is out and never gives up otherwise, and
-- Release takes back exactly its address.
pub new_refines :
    (pfx : Prefix) (reserved : List ℕ) (p : Pool) (calls : List Call)
    → pfx.bits ≤ 32
    → pfx.addr < 2 ^ 32
    → new (some pfx) reserved ≡ ok p
    → Promises (masked pfx) reserved (λ b. false) (answers p calls) (leases (run p calls))
unfolding new
new_refines pfx reserved p calls short word e =
    let v = new-IsValid pfx reserved p short word e in
    let same_prefix : p.prefix ≡ masked pfx = ground arith in
    let same_reserved : p.reserved ≡ reserved = ground arith in
    let none_out : p.used ≡ [] = ground arith in
    subst
      (λ (f : (Prefix × List ℕ) × (ℕ → Bool)).
        Promises f.0.0 f.0.1 f.1 (answers p calls) (leases (run p calls)))
      {x = ((p.prefix, p.reserved), leases p)} {y = ((masked pfx, reserved), (λ b. false))}
      (ap₂ (λ a b. (a, b)) (ap₂ (λ a b. (a, b)) same_prefix same_reserved)
        (empty_leases p none_out))
      (run_promised p calls v)
