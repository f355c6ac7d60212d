-- ===== src/Ippool/Sweep.antt =====
-- The loop of Allocate in internal/ippool/ippool.go goes once round the hosts of the prefix.
use native.Mathlib.Nat.{div-eq_of_lt-le, add-mul, div-add-mod', mod-lt}
use mathlib.Core.Bool.{false≢true}
use native.Mathlib.Decide.{dec_lt}
use revquic.Prelude.{
  ℕ, zero, suc, ◌+◌, ◌-◌, ◌*◌, ◌/◌, ◌^◌, ◌≤◌, ◌<◌, ◌≡◌, refl, sym, ap, ◌∙◌, ◌≢◌, ◌⊎◌, inl, inr,
  true, false, none, some, ◌∷◌, arith, ltb, leb, if◌then◌else◌, ==_iff, lt→ltb, ltb_of_le,
  Bool-cases,
}
use revquic.Ippool.{
  Error, Addr, next_addr, Prefix, host_bits, contains, Pool, Result, ok, err, stuck, exhausted,
  usable, wrap, is_free, sweep_limit, allocate_loop, allocate,
}

abbrev pub size : Prefix → ℕ
size pfx = 2 ^ host_bits pfx

-- A masked prefix inside the IPv4 space.
pub record IsPrefix (pfx : Prefix) : Type 0 where
  pub aligned : pfx.addr / size pfx * size pfx ≡ pfx.addr
  pub inside : pfx.addr + size pfx ≤ 2 ^ 32
  pub has_base : 0 < size pfx

same_block :
    (n b size : ℕ) → 0 < size → b / size * size ≡ b → n / size ≡ b / size → (b ≤ n) × (n < b + size)
same_block n b size pos aligned e =
    let base : n / size * size ≡ b = ap (λ q. q * size) e ∙ aligned in
    omega (arith, div-add-mod' n size, mod-lt n pos)

pub block_quotient :
    (n b size : ℕ) → b / size * size ≡ b → b ≤ n → n < b + size → n / size ≡ b / size
block_quotient n b size aligned lo hi =
    div-eq_of_lt-le size (rw aligned lo) (rw (add-mul (b / size) 1 size, aligned) (omega arith))

module _ (pfx : Prefix) (v : IsPrefix pfx) where
  pub contains_bounds :
      (n : ℕ) → contains pfx (some n) ≡ true → (pfx.addr ≤ n) × (n < pfx.addr + size pfx)
  contains_bounds n h = same_block n pfx.addr (size pfx) v.has_base v.aligned ((==_iff _ _).0 h)

  pub bounds_contains :
      (n : ℕ) → pfx.addr ≤ n → n < pfx.addr + size pfx → contains pfx (some n) ≡ true
  bounds_contains n lo hi = (==_iff _ _).1 (block_quotient n pfx.addr (size pfx) v.aligned lo hi)

  outside_contains : (n : ℕ) → pfx.addr + size pfx ≤ n → contains pfx (some n) ≡ false
  outside_contains n out = elim (Bool-cases (contains pfx (some n))) [
    | inl h ↦ absurd (omega (arith, contains_bounds n h))
    | inr h ↦ h
  ]

module _ (p : Pool) (v : IsPrefix p.prefix) (roomy : 1 < size p.prefix) where
  -- The host behind `c`, the last one being followed by the first.
  abbrev after : ℕ → ℕ
  after c = if ltb (c + 1) (p.prefix.addr + size p.prefix) then c + 1 else p.prefix.addr + 1

  abbrev Inside : ℕ → Type 0
  Inside c = (p.prefix.addr ≤ c) × (c < p.prefix.addr + size p.prefix)

  wrap-Inside : (c : ℕ) → Inside c → wrap p (some c) ≡ some c
  unfolding wrap
  wrap-Inside c h = rw (bounds_contains p.prefix v c h.0 h.1)

  first_host : next_addr (some p.prefix.addr) ≡ some (p.prefix.addr + 1)
  first_host = let top = v.inside in ground arith

  -- A cursor that is not in the prefix is sent to the first host.
  wrap_outside :
      (cursor : Addr) → contains p.prefix cursor ≡ false → wrap p cursor ≡ some (p.prefix.addr + 1)
  unfolding wrap
  wrap_outside cursor h = rw h first_host

  next_outside :
      (c : ℕ)
      → p.prefix.addr + size p.prefix ≤ c + 1
      → contains p.prefix (next_addr (some c)) ≡ false
  next_outside c h = elim (Bool-cases (ltb (c + 1) (2 ^ 32))) [
    | inl e ↦ rw e (outside_contains p.prefix v (c + 1) h)
    | inr e ↦ rw e
  ]

  next_inside : (c : ℕ) → c + 1 < p.prefix.addr + size p.prefix → next_addr (some c) ≡ some (c + 1)
  next_inside c h = let top = v.inside in ground arith

  wrap_next : (c : ℕ) → Inside c → wrap p (next_addr (some c)) ≡ some (after c)
  wrap_next c h = elim (dec_lt (c + 1) (p.prefix.addr + size p.prefix)) [
    | yes more ↦ rw (next_inside c more, lt→ltb _ _ more) (wrap-Inside (c + 1) (omega arith))
    | no last ↦ rw (
      wrap_outside _ (next_outside c (omega arith)),
      ltb_of_le (c + 1) (p.prefix.addr + size p.prefix) (omega arith),
    )
  ]

  wrap_any : (cursor : Addr) → (c : ℕ) × (wrap p cursor ≡ some c) × Inside c
  wrap_any none = (p.prefix.addr + 1, wrap_outside none refl, omega arith)
  wrap_any (some n) = elim (Bool-cases (contains p.prefix (some n))) [
    | inl h ↦ (n, wrap-Inside n (contains_bounds p.prefix v n h), contains_bounds p.prefix v n h)
    | inr h ↦ (p.prefix.addr + 1, wrap_outside (some n) h, omega arith)
  ]

-- Whatever the loop returns is free.
loop_ok_free :
    (fuel : ℕ) (p : Pool) (i : ℕ) (cursor a : Addr)
    → allocate_loop fuel p i cursor ≡ ok a
    → is_free p a ≡ true
unfolding allocate_loop
loop_ok_free zero p i cursor a h = cc
loop_ok_free (suc fuel) p i cursor a h =
    ground (arith, loop_ok_free fuel p (i + 1) (next_addr (wrap p cursor)) a)

-- The loop ends by its own test: it runs `sweep_limit + 2` rounds at most.
loop-ne-stuck :
    (fuel : ℕ) (p : Pool) (i : ℕ) (cursor : Addr)
    → sweep_limit p.prefix + 2 ≤ fuel + i
    → i ≤ sweep_limit p.prefix + 1
    → allocate_loop fuel p i cursor ≢ stuck
unfolding allocate_loop
loop-ne-stuck zero p i cursor h k = absurd (omega arith)
loop-ne-stuck (suc fuel) p i cursor h k =
    ground (arith, loop-ne-stuck fuel p (i + 1) (next_addr (wrap p cursor)))

module _ (p : Pool) (v : IsPrefix p.prefix) (roomy : 1 < size p.prefix) (a : ℕ)
    (free : is_free p (some a) ≡ true) where
  -- How many rounds after the host `c` the host `a` comes up.
  ahead : ℕ → ℕ
  ahead c = if leb c a then a - c else size p.prefix + a - c - 1

  apart : (c : ℕ) → is_free p (some c) ≡ false → c ≢ a
  apart c taken e = false≢true (sym taken ∙ ap (λ x. is_free p (some x)) e ∙ free)

  after_inside :
      (c : ℕ)
      → (p.prefix.addr ≤ c) × (c < p.prefix.addr + size p.prefix)
      → (p.prefix.addr ≤ after p v roomy c) × (after p v roomy c < p.prefix.addr + size p.prefix)
  after_inside c h = ground arith

  ahead-after :
      (c : ℕ)
      → p.prefix.addr < a
      → a < p.prefix.addr + size p.prefix
      → (p.prefix.addr ≤ c) × (c < p.prefix.addr + size p.prefix)
      → c ≢ a
      → ahead (after p v roomy c) + 1 ≡ ahead c
  unfolding ahead
  ahead-after c lo hi inside ne = ground arith

  loop_finds :
      (fuel i : ℕ) (cursor : Addr) (c : ℕ)
      → p.prefix.addr < a
      → a < p.prefix.addr + size p.prefix
      → wrap p cursor ≡ some c
      → (p.prefix.addr ≤ c) × (c < p.prefix.addr + size p.prefix)
      → ahead c + i ≤ sweep_limit p.prefix
      → ahead c < fuel
      → (b : Addr) × (allocate_loop fuel p i cursor ≡ ok b)
  unfolding allocate_loop
  loop_finds zero i cursor c lo hi e inside bound enough = absurd (omega arith)
  loop_finds (suc fuel) i cursor c lo hi e inside bound enough =
      elim (Bool-cases (is_free p (some c))) [
        | inl here ↦ (some c, rw (e, here))
        | inr taken ↦
            let step = ahead-after c lo hi inside (apart c taken) in
            rw (e, taken, ltb_of_le (sweep_limit p.prefix) i (omega arith))
              (loop_finds fuel (i + 1) (next_addr (some c)) (after p v roomy c) lo hi
                (wrap_next p v roomy c inside) (after_inside c inside) (omega arith) (omega arith))
      ]

  ahead-lt :
      (c : ℕ)
      → a < p.prefix.addr + size p.prefix
      → (p.prefix.addr ≤ c) × (c < p.prefix.addr + size p.prefix)
      → ahead c < size p.prefix
  unfolding ahead
  ahead-lt c hi inside = ground arith

free_of_none : (p : Pool) → ¬ (is_free p none ≡ true)
unfolding is_free
free_of_none p h = cc

err-ne-ok {ℓ} : {A : Type ℓ} {e : Error} {a : A} → ¬ (err e ≡ ok a)
err-ne-ok h = cc

loop_err :
    (fuel : ℕ) (p : Pool) (i : ℕ) (cursor : Addr) (e : Error)
    → allocate_loop fuel p i cursor ≡ err e
    → e ≡ exhausted
unfolding allocate_loop
loop_err zero p i cursor e h = cc
loop_err (suc fuel) p i cursor e h =
    ground (arith, loop_err fuel p (i + 1) (next_addr (wrap p cursor)) e)

-- A free address is a host: inside the prefix and not its first address.
pub free_inside :
    (p : Pool)
    → IsPrefix p.prefix
    → (a : ℕ) → is_free p (some a) ≡ true
    → (p.prefix.addr < a) × (a < p.prefix.addr + size p.prefix)
unfolding is_free usable
free_inside p v a h =
    let bounds = contains_bounds p.prefix v a (ground arith) in
    let ne : a ≢ p.prefix.addr = ground arith in omega arith

sweep_finds :
    (p : Pool)
    → IsPrefix p.prefix
    → (a : ℕ) → is_free p (some a) ≡ true
    → (b : Addr) × (allocate_loop (sweep_limit p.prefix + 2) p 0 p.next ≡ ok b)
sweep_finds p v a free =
    let (lo, hi) = free_inside p v a free in
    let roomy : 1 < size p.prefix = omega arith in
    let (c, at_c, inside) = wrap_any p v roomy p.next in
    let near = ahead-lt p v roomy a free c hi inside in
    loop_finds p v roomy a free (sweep_limit p.prefix + 2) 0 p.next c lo hi at_c inside
      (omega arith) (omega arith)

-- Allocate hands out an address exactly when one is free: it returns a free address, marks it used
-- and moves the cursor behind it, or it changes nothing, reports exhaustion, and no address at all
-- is free. In particular its loop, which the code bounds by a count of rounds, never gives up early.
pub allocate_cases :
    (p : Pool)
    → IsPrefix p.prefix
    → ((a : ℕ) × (is_free p (some a) ≡ true)
        × (allocate p ≡ (record p { used = a ∷ p.used; next = next_addr (some a) }, ok a)))
      ⊎ ((allocate p ≡ (p, err exhausted)) × ((a : ℕ) → is_free p (some a) ≡ false))
unfolding allocate
allocate_cases p v = go (allocate_loop (sweep_limit p.prefix + 2) p 0 p.next) refl
  where
    go :
        (r : Result Addr)
        → allocate_loop (sweep_limit p.prefix + 2) p 0 p.next ≡ r
        → ((a : ℕ) × (is_free p (some a) ≡ true)
            × (allocate p ≡ (record p { used = a ∷ p.used; next = next_addr (some a) }, ok a)))
          ⊎ ((allocate p ≡ (p, err exhausted)) × ((a : ℕ) → is_free p (some a) ≡ false))
    go (ok (some a)) e = inl (a, loop_ok_free _ p 0 p.next (some a) e, rw (e, allocate))
    go (ok none) e = absurd (free_of_none p (loop_ok_free _ p 0 p.next none e))
    go (err x) e = inr (
      rw (e, allocate) (rw (loop_err _ p 0 p.next x e)),
      λ a. elim (Bool-cases (is_free p (some a))) [
        | inl free ↦ absurd (err-ne-ok (sym e ∙ (sweep_finds p v a free).1))
        | inr taken ↦ taken
      ],
    )
    go stuck e = absurd (loop-ne-stuck _ p 0 p.next (omega arith) (omega arith) e)

-- What Allocate returns was free and is marked; without a result it changes nothing.
pub allocate_any :
    (p : Pool)
    → ((a : ℕ) × (is_free p (some a) ≡ true)
        × (allocate p ≡ (record p { used = a ∷ p.used; next = next_addr (some a) }, ok a)))
      ⊎ (((x : Error) × (allocate p ≡ (p, err x))) ⊎ (allocate p ≡ (p, stuck)))
unfolding allocate
allocate_any p = go (allocate_loop (sweep_limit p.prefix + 2) p 0 p.next) refl
  where
    go :
        (r : Result Addr)
        → allocate_loop (sweep_limit p.prefix + 2) p 0 p.next ≡ r
        → ((a : ℕ) × (is_free p (some a) ≡ true)
            × (allocate p ≡ (record p { used = a ∷ p.used; next = next_addr (some a) }, ok a)))
          ⊎ (((x : Error) × (allocate p ≡ (p, err x))) ⊎ (allocate p ≡ (p, stuck)))
    go (ok (some a)) e = inl (a, loop_ok_free _ p 0 p.next (some a) e, rw (e, allocate))
    go (ok none) e = absurd (free_of_none p (loop_ok_free _ p 0 p.next none e))
    go (err x) e = inr (inl (x, rw (e, allocate)))
    go stuck e = inr (inr (rw (e, allocate)))
