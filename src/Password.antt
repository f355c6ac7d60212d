-- ===== src/Password.antt =====
-- internal/pwhash/pwhash.go: administrators' passwords under PBKDF2, as texts of four parts.
-- A text is the list of its bytes. HMAC-SHA256 and the raw standard encoding of encoding/base64 are
-- parameters; the salt that rand.Read gives, or its failure, is an argument.
pub mod Round
use revquic.Prelude.{
  ℕ, zero, suc, ◌+◌, ◌-◌, ◌*◌, ◌/◌, ◌%◌, ◌^◌, Bool, true, false, ◌&&◌, not, Option, none, some,
  List, [], ◌∷◌, ◌++◌, ◌==◌, ltb, leb, length, take, if◌then◌else◌,
}
use revquic.Prelude.Assoc.{bytes_eq}
use revquic.Proto.Datagram.{Bytes, put_be}

-- "pbkdf2_sha256"
abbrev pub algo : Bytes
algo = 112 ∷ 98 ∷ 107 ∷ 100 ∷ 102 ∷ 50 ∷ 95 ∷ 115 ∷ 104 ∷ 97 ∷ 50 ∷ 53 ∷ 54 ∷ []

abbrev pub iterations : ℕ
iterations = 210000

-- iterations under %d
abbrev pub iterations_text : Bytes
iterations_text = 50 ∷ 49 ∷ 48 ∷ 48 ∷ 48 ∷ 48 ∷ []

abbrev pub key_len : ℕ
key_len = 32

-- prf.Size()
abbrev pub hash_len : ℕ
hash_len = 32

-- '$'
abbrev pub dollar : ℕ
dollar = 36

-- The parts of "%s$%d$%s$%s" with the signs between them.
unfoldable pub join_dollar : List Bytes → Bytes
join_dollar [] = []
join_dollar (p ∷ []) = p
join_dollar (p ∷ q ∷ ps) = p ++ (dollar ∷ join_dollar (q ∷ ps))

-- One more byte in the first of some parts.
abbrev pub onto_first : ℕ → List Bytes → List Bytes
onto_first c [] = (c ∷ []) ∷ []
onto_first c (p ∷ ps) = (c ∷ p) ∷ ps

-- strings.Split(encoded, "$")
unfoldable pub split_dollar : Bytes → List Bytes
split_dollar [] = [] ∷ []
split_dollar (c ∷ s) =
    let rest = split_dollar s in if c == dollar then [] ∷ rest else onto_first c rest

-- The decimal digits of a text, after those that spell `n`.
unfoldable pub digits : ℕ → Bytes → Option ℕ
digits n [] = some n
digits n (c ∷ s) =
    let rest = digits (n * 10 + (c - 48)) s in if leb 48 c && leb c 57 then rest else none

-- At least one digit, and a number that is positive and within Go's int.
unfoldable pub positive : Bytes → Option ℕ
positive [] = none
positive (c ∷ s) = elim (digits 0 (c ∷ s)) [
  | none ↦ none
  | some n ↦ if ltb 0 n && ltb n (2 ^ 63) then some n else none
]

-- strconv.Atoi with Verify's test iter <= 0: a sign '-' never gives a positive number.
unfoldable pub iteration_count : Bytes → Option ℕ
unfolding positive digits
iteration_count [] = none
iteration_count (c ∷ s) = if c == 43 then positive s else positive (c ∷ s)

-- a ^ b on numbers of so many bits
unfoldable pub xor_bits : ℕ → ℕ → ℕ → ℕ
xor_bits zero a b = 0
xor_bits (suc n) a b = (a + b) % 2 + 2 * xor_bits n (a / 2) (b / 2)

-- for x := range t { t[x] ^= u[x] }, for a `u` that is as long as `t`
unfoldable pub xor_into : Bytes → Bytes → Bytes
xor_into [] us = []
xor_into (t ∷ ts) [] = t ∷ ts
xor_into (t ∷ ts) (u ∷ us) = xor_bits 8 t u ∷ xor_into ts us

module _ (hmac : Bytes → Bytes → Bytes) where
  -- The loop over n, with `left` rounds to go.
  unfoldable pub rounds : (password : Bytes) → (left : ℕ) → (u t : Bytes) → Bytes
  rounds password zero u t = t
  rounds password (suc left) u t =
      let u' = hmac password u in rounds password left u' (xor_into t u')

  unfoldable pub block_of : Bytes → Bytes → (iter block : ℕ) → Bytes
  unfolding put_be
  block_of password salt iter block =
      let u = hmac password (salt ++ put_be 4 block) in rounds password (iter - 1) u u

  -- The loop over the blocks, with `left` to go.
  unfoldable pub blocks : Bytes → Bytes → (iter left block : ℕ) → Bytes
  blocks password salt iter zero block = []
  blocks password salt iter (suc left) block =
      block_of password salt iter block ++ blocks password salt iter left (block + 1)

  unfoldable pub pbkdf2 : Bytes → Bytes → (iter len : ℕ) → Bytes
  pbkdf2 password salt iter len =
      take len (blocks password salt iter ((len + hash_len - 1) / hash_len) 1)

  module _ (encode64 : Bytes → Bytes) (decode64 : Bytes → Option Bytes) where
    unfoldable pub hash_password : Bytes → Option Bytes → Option Bytes
    hash_password password none = none
    hash_password password (some salt) =
        let dk = pbkdf2 password salt iterations key_len in
        some (join_dollar (algo ∷ iterations_text ∷ encode64 salt ∷ encode64 dk ∷ []))

    -- Verify from the parts of the encoded text.
    unfoldable pub check_parts : Bytes → List Bytes → Bool
    unfolding iteration_count
    check_parts password (name ∷ count ∷ salt64 ∷ want64 ∷ []) =
        if not (bytes_eq name algo) then false else elim (iteration_count count) [
          | none ↦ false
          | some iter ↦ elim (decode64 salt64) [
            | none ↦ false
            | some salt ↦ elim (decode64 want64) [
              | none ↦ false
              | some want ↦ bytes_eq (pbkdf2 password salt iter (length want)) want
            ]
          ]
        ]
    check_parts password _ = false

    unfoldable pub verify_password : Bytes → Bytes → Bool
    unfolding split_dollar check_parts
    verify_password password encoded = check_parts password (split_dollar encoded)
