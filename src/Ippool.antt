-- ===== src/Ippool.antt =====
-- internal/ippool/ippool.go: the pool of VPN addresses of an IPv4 prefix.
-- An IPv4 netip.Addr is a number below 2 ^ 32, most significant byte first, and the invalid Addr{}
-- is `none`. The two maps, whose values are always true, are lists of their keys. The mutex makes
-- each method one step.
pub mod Broadcast
pub mod Sweep
pub mod Ledger
pub mod Refine
mod Tests
use revquic.Prelude.{
  ℕ, zero, suc, ◌+◌, ◌-◌, ◌*◌, ◌/◌, ◌%◌, ◌^◌, Bool, true, false, ◌&&◌, ◌||◌, not, Option, none,
  some, List, [], ◌∷◌, ltb, ◌==◌, if◌then◌else◌, length, get_elem?,
}
use revquic.Proto.Datagram.{put_be}

abbrev pub Addr : Type 0
Addr = Option ℕ

-- Addr.Next: the invalid address behind the last one.
abbrev pub next_addr : Addr → Addr
next_addr none = none
next_addr (some n) = if ltb (n + 1) (2 ^ 32) then some (n + 1) else none

-- A masked netip.Prefix: its address and its length, at most 32.
pub record Prefix : Type 0 where
  pub addr : ℕ
  pub bits : ℕ

abbrev pub host_bits : Prefix → ℕ
host_bits pfx = 32 - pfx.bits

-- Prefix.Masked
abbrev pub masked : Prefix → Prefix
masked pfx = record pfx { addr = pfx.addr / 2 ^ host_bits pfx * 2 ^ host_bits pfx }

-- Prefix.Contains
abbrev pub contains : Prefix → Addr → Bool
contains pfx none = false
contains pfx (some n) = n / 2 ^ host_bits pfx == pfx.addr / 2 ^ host_bits pfx

pub record Pool : Type 0 where
  pub prefix : Prefix
  pub reserved : List ℕ
  pub used : List ℕ
  pub next : Addr

pub data Error : Type 0 where
  exhausted bad_prefix : Error

pub data Result {ℓ} (A : Type ℓ) : Type ℓ where
  ok : A → Result A
  err : Error → Result A
  -- The loop of `allocate` ran out of fuel: no value of the program.
  stuck : Result A

-- m[a] of a set.
unfoldable pub member : ℕ → List ℕ → Bool
member a [] = false
member a (b ∷ bs) = b == a || member a bs

-- delete(m, a)
unfoldable pub remove : ℕ → List ℕ → List ℕ
remove a [] = []
remove a (b ∷ bs) = let rest = remove a bs in if b == a then rest else b ∷ rest

-- New, from what netip.ParsePrefix makes of the text (`none` for an error).
unfoldable pub new : Option Prefix → List ℕ → Result Pool
new none reserved = err bad_prefix
new (some pfx) reserved = ok (record {
  prefix = masked pfx;
  reserved = reserved;
  used = [];
  next = next_addr (some (masked pfx).addr);
})

-- bits[byteIdx] & (1 << bitIdx) != 0, for the bit `i` of the address.
unfoldable pub bit_set : ℕ → ℕ → Bool
bit_set n i = elim (get_elem? (put_be 4 n) (3 - i / 8)) [
  | none ↦ false
  | some byte ↦ byte / 2 ^ (i % 8) % 2 == 1
]

-- The loop of isBroadcast over the `k` bits from `i` on.
unfoldable pub all_ones : ℕ → ℕ → ℕ → Bool
all_ones n zero i = true
all_ones n (suc k) i = let rest = all_ones n k (i + 1) in if bit_set n i then rest else false

unfoldable pub is_broadcast : Prefix → ℕ → Bool
is_broadcast pfx n = all_ones n (host_bits pfx) 0

unfoldable pub usable : Pool → Addr → Bool
usable p none = false
usable p (some n) =
    if not (contains p.prefix (some n))
    then false
    else if n == p.prefix.addr
    then false
    else if is_broadcast p.prefix n
    then false
    else not (member n p.reserved)

-- The check of a cursor at the head of the loop: outside the prefix it wraps to the first host.
unfoldable pub wrap : Pool → Addr → Addr
wrap p addr = if contains p.prefix addr then addr else next_addr (some p.prefix.addr)

-- usable(addr) && !p.used[addr]
unfoldable pub is_free : Pool → Addr → Bool
is_free p none = false
is_free p (some n) = usable p (some n) && not (member n p.used)

-- What the loop bound of `Allocate` compares the round with.
abbrev pub sweep_limit : Prefix → ℕ
sweep_limit pfx = 2 ^ host_bits pfx + 1

-- The loop of Allocate at round `i` with the cursor `addr`.
unfoldable pub allocate_loop : ℕ → Pool → ℕ → Addr → Result Addr
allocate_loop zero p i addr = stuck
allocate_loop (suc fuel) p i addr =
    let here = wrap p addr in
    let rest = allocate_loop fuel p (i + 1) (next_addr here) in
    if is_free p here then ok here else if ltb (sweep_limit p.prefix) i then err exhausted else rest

-- p.used[addr] = true; p.next = addr.Next()
unfoldable pub grant : Pool → Addr → Pool × Result ℕ
grant p none = (p, err exhausted)
grant p (some a) = (record p { used = a ∷ p.used; next = next_addr (some a) }, ok a)

-- Allocate; `Sweep` shows that the fuel is enough and that only a valid address is granted.
unfoldable pub allocate : Pool → Pool × Result ℕ
unfolding grant
allocate p = elim (allocate_loop (sweep_limit p.prefix + 2) p 0 p.next) [
  | ok addr ↦ grant p addr
  | err e ↦ (p, err e)
  | stuck ↦ (p, stuck)
]

unfoldable pub release : Pool → ℕ → Pool
release p a = record p { used = remove a p.used }

unfoldable pub in_use : Pool → ℕ
in_use p = length p.used
