-- ===== src/Ippool/Broadcast.antt =====
-- isBroadcast of internal/ippool/ippool.go: the bit loop against the last address of the prefix.
use mathlib.Core.Bool.{false≢true}
use native.Mathlib.Nat.{
  pow-suc, pow-zero, add-suc, add-zero, mul_assoc, mul-one, div-div-eq-div-mul, div-add-mod',
  mod-lt, mod-eq_of_lt, mul-add-mod_self_left, one-le-pow,
}
use native.Mathlib.Numerals.{add-one}
use revquic.Prelude.{
  ℕ, zero, suc, ◌+◌, ◌-◌, ◌*◌, ◌/◌, ◌%◌, ◌^◌, ◌≤◌, ◌<◌, ◌≡◌, refl, sym, ap, ◌∙◌, ◌↔◌, ◌≢◌, inl, inr,
  Bool-cases, Bool, true, false, some, arith, ◌==◌, if◌then◌else◌, get_elem?,
}
use revquic.Proto.Datagram.{put_be}
use revquic.Ippool.{
  Pool, Prefix, host_bits, contains, bit_set, all_ones, is_broadcast, usable, is_free, member,
}
use revquic.Ippool.Sweep.{
  IsPrefix, size, contains_bounds, bounds_contains, block_quotient, free_inside,
}

pub pow_add : (b n m : ℕ) → b ^ (n + m) ≡ b ^ n * b ^ m
pow_add b n zero = rw (add-zero, pow-zero, mul-one)
pow_add b n (suc m) =
    rw (add-suc, pow-suc b (n + m), pow-suc b m, pow_add b n m) (mul_assoc (b ^ n) (b ^ m) b)

low_bit : (m r : ℕ) → r < 8 → m % 256 / 2 ^ r % 2 ≡ m / 2 ^ r % 2
low_bit m zero h = omega arith
low_bit m (suc zero) h = omega arith
low_bit m (suc (suc zero)) h = omega arith
low_bit m (suc (suc (suc zero))) h = omega arith
low_bit m (suc (suc (suc (suc zero)))) h = omega arith
low_bit m (suc (suc (suc (suc (suc zero))))) h = omega arith
low_bit m (suc (suc (suc (suc (suc (suc zero)))))) h = omega arith
low_bit m (suc (suc (suc (suc (suc (suc (suc zero))))))) h = omega arith
low_bit m (suc (suc (suc (suc (suc (suc (suc (suc r)))))))) h = absurd (omega arith)

-- Byte `3 - q` of an address holds its digit `q`.
byte_at : (n q : ℕ) → q < 4 → get_elem? (put_be 4 n) (3 - q) ≡ some (n / 256 ^ q % 256)
unfolding put_be
byte_at n zero h = refl
byte_at n (suc zero) h = refl
byte_at n (suc (suc zero)) h = refl
byte_at n (suc (suc (suc zero))) h = refl
byte_at n (suc (suc (suc (suc q)))) h = absurd (omega arith)

digit_width : (q : ℕ) → 256 ^ q ≡ 2 ^ (8 * q)
digit_width zero = refl
digit_width (suc q) =
    rw (pow-suc 256 q, digit_width q) (sym (pow_add 2 (8 * q) 8) ∙ ap (λ e. 2 ^ e) (omega arith))

-- The byte and bit arithmetic of the loop picks bit `i` of the address.
bit_set_lem : (n i : ℕ) → i < 32 → bit_set n i ≡ (n / 2 ^ i % 2 == 1)
unfolding bit_set
bit_set_lem n i h =
    let value : n / 256 ^ (i / 8) / 2 ^ (i % 8) ≡ n / 2 ^ i =
      div-div-eq-div-mul n (256 ^ (i / 8)) (2 ^ (i % 8))
      ∙ ap (λ d. n / d)
          (rw (digit_width (i / 8))
            (sym (pow_add 2 (8 * (i / 8)) (i % 8)) ∙ ap (λ e. 2 ^ e) (omega arith))) in
    rw (
      bit_set,
      byte_at n (i / 8) (omega arith),
      low_bit (n / 256 ^ (i / 8)) (i % 8) (omega arith),
      value,
    )

mod_double : (m size : ℕ) → 0 < size → m % (size * 2) ≡ m / 2 % size * 2 + m % 2
mod_double m size pos =
    ap (λ x. x % (size * 2)) split
    ∙ mul-add-mod_self_left (size * 2) (m / 2 / size) (m / 2 % size * 2 + m % 2)
    ∙ mod-eq_of_lt (omega (arith, mod-lt (m / 2) pos))
  where
    split : m ≡ size * 2 * (m / 2 / size) + (m / 2 % size * 2 + m % 2)
    split = omega (arith, div-add-mod' (m / 2) size)

both :
    (rest bit : Bool) (low high size : ℕ)
    → low < 2
    → bit ≡ (low == 1)
    → (rest ≡ true) ↔ (high + 1 ≡ size)
    → ((if bit then rest else false) ≡ true) ↔ (high * 2 + low + 1 ≡ size * 2)
both rest bit low high size h e ih = (
  (λ t. let full = ih.0 (ground arith) in ground arith),
  (λ t. let r = ih.1 (omega arith) in ground arith),
)

-- The loop over `k` bits from `i` on passes exactly when those bits are all ones.
all_ones_iff : (n k i : ℕ) → i + k ≤ 32 → (all_ones n k i ≡ true) ↔ (n / 2 ^ i % 2 ^ k + 1 ≡ 2 ^ k)
unfolding all_ones
all_ones_iff n zero i h = ((λ _. omega arith), (λ _. refl))
all_ones_iff n (suc k) i h =
    let bit = bit_set_lem n i (omega arith) in
    let ih = all_ones_iff n k (i + 1) (omega arith) in
    let half : n / 2 ^ (i + 1) ≡ n / 2 ^ i / 2 =
      rw (add-one, pow-suc 2 i) (sym (div-div-eq-div-mul n (2 ^ i) 2)) in
    let double = mod_double (n / 2 ^ i) (2 ^ k) (one-le-pow k 2 (omega arith)) in
    let ih' : (all_ones n k (i + 1) ≡ true) ↔ (n / 2 ^ i / 2 % 2 ^ k + 1 ≡ 2 ^ k) =
      rw (← half) ih in
    rw (pow-suc 2 k, double)
      (both (all_ones n k (i + 1)) (bit_set n i) (n / 2 ^ i % 2) (n / 2 ^ i / 2 % 2 ^ k) (2 ^ k)
        (omega arith) bit ih')

last_in_block :
    (n b size : ℕ)
    → 0 < size
    → b ≤ n
    → n < b + size
    → b / size * size ≡ b
    → (n % size + 1 ≡ size) ↔ (n + 1 ≡ b + size)
last_in_block n b size pos lo hi aligned =
    let quotient : n / size * size ≡ b =
      ap (λ q. q * size) (block_quotient n b size aligned lo hi) ∙ aligned in
    let split = div-add-mod' n size in ((λ h. omega arith), (λ h. omega arith))

-- Inside a prefix of at most 32 bits, isBroadcast holds exactly at the last address.
pub is_broadcast_iff :
    (pfx : Prefix) (n : ℕ)
    → IsPrefix pfx
    → contains pfx (some n) ≡ true
    → (is_broadcast pfx n ≡ true) ↔ (n + 1 ≡ pfx.addr + size pfx)
unfolding is_broadcast
is_broadcast_iff pfx n v h =
    let (lo, hi) = contains_bounds pfx v n h in
    let ones = all_ones_iff n (host_bits pfx) 0 (omega arith) in
    let whole : n / 2 ^ 0 ≡ n = omega arith in
    let last = last_in_block n pfx.addr (size pfx) v.has_base lo hi v.aligned in
    let ones' : (is_broadcast pfx n ≡ true) ↔ (n % size pfx + 1 ≡ size pfx) = rw whole at ones in
    (λ e. last.0 (ones'.0 e), λ e. ones'.1 (last.1 e))

-- The addresses that Allocate may hand out are exactly those strictly between the first and the last
-- address of the prefix that are neither reserved nor in use.
pub is_free_iff :
    (p : Pool) (n : ℕ)
    → IsPrefix p.prefix
    → (is_free p (some n) ≡ true) ↔ (
        (p.prefix.addr < n)
        × (n + 1 < p.prefix.addr + size p.prefix)
        × (member n p.reserved ≡ false)
        × (member n p.used ≡ false))
unfolding is_free usable
is_free_iff p n v = (forward, backward)
  where
    forward :
        is_free p (some n) ≡ true
        → (p.prefix.addr < n)
          × (n + 1 < p.prefix.addr + size p.prefix)
          × (member n p.reserved ≡ false)
          × (member n p.used ≡ false)
    forward h =
        let inside = free_inside p v n h in
        let holds = bounds_contains p.prefix v n (omega arith) inside.1 in
        let last = is_broadcast_iff p.prefix n v holds in
        let inner : is_broadcast p.prefix n ≡ false = ground arith in
        let ne : n + 1 ≢ p.prefix.addr + size p.prefix = λ e. false≢true (sym inner ∙ last.1 e) in
        (inside.0, omega arith, ground arith, ground arith)

    backward :
        (p.prefix.addr < n)
          × (n + 1 < p.prefix.addr + size p.prefix)
          × (member n p.reserved ≡ false)
          × (member n p.used ≡ false)
        → is_free p (some n) ≡ true
    backward h =
        let holds = bounds_contains p.prefix v n (omega arith) (omega arith) in
        let last = is_broadcast_iff p.prefix n v holds in
        elim (Bool-cases (is_broadcast p.prefix n)) [
          | inl e ↦ absurd (omega (arith, last.0 e))
          | inr e ↦ ground (arith, holds, e)
        ]
