-- ===== src/Ippool/Ledger.antt =====
-- Which addresses of internal/ippool/ippool.go are out, after any calls of Allocate and Release.
use native.Mathlib.Nat.{mul-div_cancel, one-le-pow, div-lt_iff_lt-mul}
use revquic.Prelude.{
  ℕ, suc, ◌+◌, ◌*◌, ◌/◌, ◌^◌, ◌≤◌, ◌<◌, ◌≡◌, refl, sym, ap, subst, ◌∙◌, inl, inr, true, false, some,
  List, [], ◌∷◌, arith, ◌==◌, if◌then◌else◌, length, All, Bool-cases,
}
use revquic.Ippool.{
  Prefix, host_bits, masked, Pool, ok, member, remove, new, usable, is_free, allocate, release,
  in_use,
}
use revquic.Ippool.Sweep.{IsPrefix, size, allocate_cases}
use revquic.Ippool.Broadcast.{is_free_iff, pow_add}

abbrev pub Distinct : List ℕ → Type 0
Distinct [] = Unit {0}
Distinct (a ∷ xs) = (member a xs ≡ false) × Distinct xs

-- An address that the pool may hand out at all.
pub record IsHost (pfx : Prefix) (reserved : List ℕ) (a : ℕ) : Type 0 where
  pub above : pfx.addr < a
  pub below : a + 1 < pfx.addr + size pfx
  pub open_to_all : member a reserved ≡ false

pub record IsValid (p : Pool) : Type 0 where
  pub framed : IsPrefix p.prefix
  pub distinct : Distinct p.used
  pub hosts : All (IsHost p.prefix p.reserved) p.used

pub member-remove :
    (a b : ℕ) (xs : List ℕ) → member b (remove a xs) ≡ (if a == b then false else member b xs)
unfolding member remove
member-remove a b [] = ground arith
member-remove a b (x ∷ xs) = ground (arith, member-remove a b xs)

Distinct-remove : (a : ℕ) (xs : List ℕ) → Distinct xs → Distinct (remove a xs)
unfolding remove
Distinct-remove a [] d = tt
Distinct-remove a (x ∷ xs) d = ground (arith, member-remove a x xs, Distinct-remove a xs d.1)

All-remove {ℓ} : (P : ℕ → Type ℓ) (a : ℕ) (xs : List ℕ) → All P xs → All P (remove a xs)
unfolding remove
All-remove P a [] h = tt
All-remove P a (x ∷ xs) h = elim (Bool-cases (x == a)) [
  | inl e ↦ rw e (All-remove P a xs h.1)
  | inr e ↦ rw e (h.0, All-remove P a xs h.1)
]

remove_absent : (a : ℕ) (xs : List ℕ) → member a xs ≡ false → remove a xs ≡ xs
unfolding member remove
remove_absent a [] h = refl
remove_absent a (x ∷ xs) h = ground (arith, remove_absent a xs)

length-remove :
    (a : ℕ) (xs : List ℕ)
    → Distinct xs
    → length (remove a xs) + (if member a xs then 1 else 0) ≡ length xs
unfolding member remove
length-remove a [] d = omega arith
length-remove a (x ∷ xs) d = ground (arith, remove_absent a xs, length-remove a xs d.1)

-- The state of a pool that New built, and what each call does to it.
pub data Call : Type 0 where
  allocates : Call
  releases : ℕ → Call

unfoldable pub step : Pool → Call → Pool
step p allocates = (allocate p).0
step p (releases a) = release p a

unfoldable pub run : Pool → List Call → Pool
run p [] = p
run p (c ∷ calls) = run (step p c) calls

pub allocate-IsValid : (p : Pool) → IsValid p → IsValid (allocate p).0
allocate-IsValid p v = elim (allocate_cases p v.framed) [
  | inl (a, free, e) ↦
      let (above, below, open_to_all, unused) = (is_free_iff p a v.framed).0 free in
      rw e (record {
        framed = v.framed;
        distinct = (unused, v.distinct);
        hosts = (record { above = above; below = below; open_to_all = open_to_all }, v.hosts);
      })
  | inr (e, _) ↦ rw e v
]

pub release-IsValid : (p : Pool) (a : ℕ) → IsValid p → IsValid (release p a)
unfolding release
release-IsValid p a v = record {
  framed = v.framed;
  distinct = Distinct-remove a p.used v.distinct;
  hosts = All-remove (IsHost p.prefix p.reserved) a p.used v.hosts;
}

run-IsValid : (p : Pool) (calls : List Call) → IsValid p → IsValid (run p calls)
unfolding run step
run-IsValid p [] v = v
run-IsValid p (allocates ∷ calls) v = run-IsValid (allocate p).0 calls (allocate-IsValid p v)
run-IsValid p (releases a ∷ calls) v = run-IsValid (release p a) calls (release-IsValid p a v)

add-one-mul : (q size : ℕ) → suc q * size ≡ q * size + size
add-one-mul q size = omega arith

mul-le_of_lt : (q m size : ℕ) → q < m → suc q * size ≤ m * size
mul-le_of_lt q m size h = grind arith

masked-IsPrefix : (pfx : Prefix) → pfx.bits ≤ 32 → pfx.addr < 2 ^ 32 → IsPrefix (masked pfx)
masked-IsPrefix pfx short word = record {
  aligned = ap (λ q. q * size pfx) (mul-div_cancel (pfx.addr / size pfx) pos);
  inside = rw (← whole) (
      rw (← add-one-mul (pfx.addr / size pfx) (size pfx))
        (mul-le_of_lt (pfx.addr / size pfx) (2 ^ pfx.bits) (size pfx) quotient));
  has_base = pos;
}
  where
    pos : 0 < size pfx
    pos = one-le-pow (host_bits pfx) 2 (omega arith)

    whole : 2 ^ pfx.bits * size pfx ≡ 2 ^ 32
    whole = sym (pow_add 2 pfx.bits (host_bits pfx)) ∙ ap (λ e. 2 ^ e) {y = 32} (omega arith)

    quotient : pfx.addr / size pfx < 2 ^ pfx.bits
    quotient = (div-lt_iff_lt-mul pos).1 (rw whole word)

fresh :
    (pfx : Prefix) (reserved : List ℕ) (p : Pool)
    → IsPrefix pfx
    → p.prefix ≡ pfx
    → p.used ≡ []
    → p.reserved ≡ reserved
    → IsValid p
fresh pfx reserved p v e u r = record {
  framed = subst IsPrefix (sym e) v;
  distinct = rw u tt;
  hosts = rw u tt;
}

pub new-IsValid :
    (pfx : Prefix) (reserved : List ℕ) (p : Pool)
    → pfx.bits ≤ 32
    → pfx.addr < 2 ^ 32
    → new (some pfx) reserved ≡ ok p
    → IsValid p
unfolding new
new-IsValid pfx reserved p short word e =
    fresh (masked pfx) reserved p (masked-IsPrefix pfx short word) (ground arith) (ground arith)
      (ground arith)

-- After any calls of Allocate and Release on a pool that New built over an IPv4 prefix, the addresses
-- in use are pairwise distinct, and each lies strictly between the first and the last address of the
-- prefix and is not a reserved one.
pub new-run-IsValid :
    (pfx : Prefix) (reserved : List ℕ) (p : Pool) (calls : List Call)
    → pfx.bits ≤ 32
    → pfx.addr < 2 ^ 32
    → new (some pfx) reserved ≡ ok p
    → IsValid (run p calls)
new-run-IsValid pfx reserved p calls short word e =
    run-IsValid p calls (new-IsValid pfx reserved p short word e)

usable_host :
    (p : Pool) (a : ℕ) → IsPrefix p.prefix → IsHost p.prefix p.reserved a → usable p (some a) ≡ true
unfolding is_free
usable_host p a v h =
    let bare : Pool = record p { used = [] } in
    let same : usable bare (some a) ≡ usable p (some a) = unfold usable in refl in
    let free = (is_free_iff bare a v).1 (h.above, h.below, h.open_to_all, unfold member in refl) in
    ground arith

usable-release : (p : Pool) (a n : ℕ) → usable (release p a) (some n) ≡ usable p (some n)
unfolding usable release
usable-release p a n = refl

-- Releasing a host makes it free, changes nothing for any other address, and lowers the number in
-- use by one exactly if the host was in use.
pub release_frees :
    (p : Pool) (a n : ℕ)
    → IsValid p
    → IsHost p.prefix p.reserved a
    → (is_free (release p a) (some n) ≡ (if a == n then true else is_free p (some n)))
      × (in_use (release p a) + (if member a p.used then 1 else 0) ≡ in_use p)
unfolding release in_use is_free
release_frees p a n v host = (
  ground (arith, usable-release p a n, usable_host p a v.framed host, member-remove a n p.used),
  length-remove a p.used v.distinct,
)
