-- ===== src/Password/Round.antt =====
-- Verify on what Hash makes of a password, and how long a derived key is.
use revquic.Prelude.{
  some_inj, ℕ, zero, suc, ◌+◌, ◌-◌, ◌*◌, ◌/◌, ◌≡◌, refl, sym, ap, ◌∙◌, true, false, Option, some,
  List, [], ◌∷◌, ◌++◌, ◌==◌, arith, All, length, length-append, length-take,
}
use revquic.Prelude.Assoc.{bytes_eq_iff}
use revquic.Proto.Datagram.{Bytes, put_be}
use revquic.Password.{
  algo, iterations, iterations_text, key_len, dollar, join_dollar, split_dollar, digits, positive,
  iteration_count, xor_into, rounds, block_of, blocks, pbkdf2, hash_password, check_parts,
  verify_password,
}

-- No '$' in a text.
abbrev pub IsPlain : Bytes → Type 0
IsPlain = All (λ c. (c == dollar) ≡ false)

split_dollar-plain : (p : Bytes) → IsPlain p → split_dollar p ≡ p ∷ []
unfolding split_dollar
split_dollar-plain [] h = refl
split_dollar-plain (c ∷ p) h = rw (h.0, split_dollar-plain p h.1) refl

split_dollar-append :
    (p s : Bytes) → IsPlain p → split_dollar (p ++ (dollar ∷ s)) ≡ p ∷ split_dollar s
unfolding split_dollar
split_dollar-append [] s h = refl
split_dollar-append (c ∷ p) s h = rw (h.0, split_dollar-append p s h.1) refl

-- Splitting what was joined gives the parts.
split_dollar-join_dollar :
    (p : Bytes) (ps : List Bytes)
    → All IsPlain (p ∷ ps)
    → split_dollar (join_dollar (p ∷ ps)) ≡ p ∷ ps
unfolding join_dollar
split_dollar-join_dollar p [] h = split_dollar-plain p h.0
split_dollar-join_dollar p (q ∷ ps) h =
    split_dollar-append p (join_dollar (q ∷ ps)) h.0
    ∙ ap (◌∷◌ p) (split_dollar-join_dollar q ps h.1)

length-xor_into : (ts us : Bytes) → length (xor_into ts us) ≡ length ts
unfolding xor_into
length-xor_into [] us = refl
length-xor_into (t ∷ ts) [] = refl
length-xor_into (t ∷ ts) (u ∷ us) = omega (arith, length-xor_into ts us)

algo-IsPlain : IsPlain algo
algo-IsPlain = ground arith

iterations_text-IsPlain : IsPlain iterations_text
iterations_text-IsPlain = ground arith

module _ (hmac : Bytes → Bytes → Bytes)
    (full : (key msg : Bytes) → length (hmac key msg) ≡ 32) where
  length-rounds :
      (password : Bytes) (left : ℕ) (u t : Bytes)
      → length (rounds hmac password left u t) ≡ length t
  unfolding rounds
  length-rounds password zero u t = refl
  length-rounds password (suc left) u t =
      length-rounds password left (hmac password u) (xor_into t (hmac password u))
      ∙ length-xor_into t (hmac password u)

  length-block_of :
      (password salt : Bytes) (iter block : ℕ)
      → length (block_of hmac password salt iter block) ≡ 32
  unfolding block_of
  length-block_of password salt iter block =
      let u = hmac password (salt ++ put_be 4 block) in
      length-rounds password (iter - 1) u u ∙ full password (salt ++ put_be 4 block)

  length-blocks :
      (password salt : Bytes) (iter left block : ℕ)
      → length (blocks hmac password salt iter left block) ≡ left * 32
  unfolding blocks
  length-blocks password salt iter zero block = refl
  length-blocks password salt iter (suc left) block = omega (
    arith,
    length-append (block_of hmac password salt iter block)
        (blocks hmac password salt iter left (block + 1)),
    length-block_of password salt iter block,
    length-blocks password salt iter left (block + 1),
  )

  -- The derived key is as long as it was asked for: no block is missing and dk[:keyLen] is in range.
  pub length-pbkdf2 :
      (password salt : Bytes) (iter len : ℕ) → length (pbkdf2 hmac password salt iter len) ≡ len
  unfolding pbkdf2
  length-pbkdf2 password salt iter len =
      let count = (len + 32 - 1) / 32 in
      omega (
        arith,
        length-take len (blocks hmac password salt iter count 1),
        length-blocks password salt iter count 1,
      )

  module _ (encode64 : Bytes → Bytes) (decode64 : Bytes → Option Bytes)
      (decodes : (b : Bytes) → decode64 (encode64 b) ≡ some b)
      (plain : (b : Bytes) → IsPlain (encode64 b)) where
    check_parts-derived :
        (password salt dk : Bytes)
        → pbkdf2 hmac password salt iterations (length dk) ≡ dk
        → check_parts hmac encode64 decode64 password
            (algo ∷ iterations_text ∷ encode64 salt ∷ encode64 dk ∷ [])
          ≡ true
    unfolding check_parts iteration_count positive digits
    check_parts-derived password salt dk derived =
        rw (decodes salt, decodes dk) ((bytes_eq_iff _ _).1 derived)

    -- What Hash makes of a password, Verify accepts for that password.
    pub verify_password-hash_password :
        (password salt encoded : Bytes)
        → hash_password hmac encode64 decode64 password (some salt) ≡ some encoded
        → verify_password hmac encode64 decode64 password encoded ≡ true
    unfolding verify_password hash_password
    verify_password-hash_password password salt encoded h =
        let dk = pbkdf2 hmac password salt iterations key_len in
        let parts =
          split_dollar-join_dollar algo (iterations_text ∷ encode64 salt ∷ encode64 dk ∷ [])
            (algo-IsPlain, (iterations_text-IsPlain, (plain salt, (plain dk, tt)))) in
        let full_key =
          ap (pbkdf2 hmac password salt iterations)
            (length-pbkdf2 password salt iterations key_len) in
        ap (λ e. check_parts hmac encode64 decode64 password (split_dollar e)) (sym (some_inj h))
        ∙ ap (check_parts hmac encode64 decode64 password) parts
        ∙ check_parts-derived password salt dk full_key
