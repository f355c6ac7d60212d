-- ===== src/Proto/Datagram.antt =====
-- internal/proto/proto.go, EncodeDatagram and DecodeDatagram, with the big-endian words of
-- encoding/binary that they call.
use native.Mathlib.Nat.{
  pow-zero, pow-suc, div-div-eq-div-mul, div-eq_of_lt, one-le-pow, div-add-mod, mod-lt,
}
use revquic.Prelude.{
  ℕ, zero, suc, ◌+◌, ◌*◌, ◌/◌, ◌%◌, ◌^◌, ◌≤◌, ◌<◌, ◌≡◌, refl, ap, ap₂, ◌∙◌, List, [], ◌∷◌, ◌++◌,
  arith, All, length, get_elem?, take, drop, none, some, ltb, leb→le, if◌then◌else◌,
  take-append-drop, length-take,
}

abbrev pub IsByte : ℕ → Type 0
IsByte b = b < 256

abbrev pub Bytes : Type 0
Bytes = List ℕ

-- b[i], for an index in range.
abbrev pub byte_at : Bytes → ℕ → ℕ
byte_at pkt i = elim (get_elem? pkt i) [ some b ↦ b | none ↦ 0 ]

-- The last `n` base-256 digits of `v`, most significant first: binary.BigEndian.PutUint64 at
-- n = 8 and PutUint32 at n = 4.
unfoldable pub put_be : ℕ → ℕ → Bytes
put_be zero v = []
put_be (suc n) v = (v / 256 ^ n % 256) ∷ put_be n v

-- binary.BigEndian.Uint64 and Uint32: the number that the bytes spell, from what is read so far.
unfoldable pub get_be : ℕ → Bytes → ℕ
get_be acc [] = acc
get_be acc (b ∷ bs) = get_be (acc * 256 + b) bs

abbrev pub datagram_header_len : ℕ
datagram_header_len = 8

abbrev pub safe_tunnel_mtu : ℕ
safe_tunnel_mtu = 1200

unfoldable pub encode_datagram : ℕ → Bytes → Bytes
encode_datagram session_id pkt = put_be datagram_header_len session_id ++ pkt

pub data Decoded : Type 0 where
  short_datagram : ℕ → Decoded
  decoded : ℕ → Bytes → Decoded

unfoldable pub decode_datagram : Bytes → Decoded
decode_datagram b =
    if ltb (length b) datagram_header_len
    then short_datagram (length b)
    else decoded (get_be 0 (take datagram_header_len b)) (drop datagram_header_len b)

-- The bytes that spell a number of `n` digits spell it back.
pub length-put_be : (n v : ℕ) → length (put_be n v) ≡ n
unfolding put_be
length-put_be zero v = refl
length-put_be (suc n) v = omega (arith, length-put_be n v)

pub put_be-IsByte : (n v : ℕ) → All IsByte (put_be n v)
unfolding put_be
put_be-IsByte zero v = tt
put_be-IsByte (suc n) v = (omega arith, put_be-IsByte n v)

-- One more digit of a quotient.
digit_step : (n v : ℕ) → v / 256 ^ suc n * 256 + v / 256 ^ n % 256 ≡ v / 256 ^ n
digit_step n v = rw (pow-suc 256 n, ← div-div-eq-div-mul v (256 ^ n) 256) (omega arith)

get_be-put_be_from : (n v : ℕ) → get_be (v / 256 ^ n) (put_be n v) ≡ v
unfolding put_be get_be
get_be-put_be_from zero v = rw pow-zero (omega arith)
get_be-put_be_from (suc n) v =
    ap (λ a. get_be a (put_be n v)) (digit_step n v) ∙ get_be-put_be_from n v

-- Writing a number in enough bytes and reading them gives the number.
pub get_be-put_be : (n v : ℕ) → v < 256 ^ n → get_be 0 (put_be n v) ≡ v
get_be-put_be n v h = rw (div-eq_of_lt h) at (get_be-put_be_from n v)

get_be-div : (bs : Bytes) (acc : ℕ) → All IsByte bs → get_be acc bs / 256 ^ length bs ≡ acc
unfolding get_be
get_be-div [] acc h = rw pow-zero (omega arith)
get_be-div (b ∷ bs) acc h =
    rw
      (
        pow-suc 256 (length bs),
        ← div-div-eq-div-mul (get_be (acc * 256 + b) bs) (256 ^ length bs) 256,
        get_be-div bs (acc * 256 + b) h.1,
      )
      (omega arith)

-- Reading bytes and writing the number in as many gives the bytes.
pub put_be-get_be : (bs : Bytes) (acc : ℕ) → All IsByte bs → put_be (length bs) (get_be acc bs) ≡ bs
unfolding put_be get_be
put_be-get_be [] acc h = refl
put_be-get_be (b ∷ bs) acc h =
    ap₂ ◌∷◌ (rw (get_be-div bs (acc * 256 + b) h.1) (omega arith))
      (put_be-get_be bs (acc * 256 + b) h.1)

lt_of_div_zero : (x m : ℕ) → 0 < m → x / m ≡ 0 → x < m
lt_of_div_zero x m pos e = grind (arith, div-add-mod x m, mod-lt x pos)

pub get_be-lt : (bs : Bytes) → All IsByte bs → get_be 0 bs < 256 ^ length bs
get_be-lt bs h =
    lt_of_div_zero (get_be 0 bs) (256 ^ length bs) (one-le-pow (length bs) 256 (omega arith))
      (get_be-div bs 0 h)

All-take {ℓ κ} : {A : Type ℓ} (P : A → Type κ) (n : ℕ) (xs : List A) → All P xs → All P (take n xs)
All-take P zero xs h = tt
All-take P (suc n) [] h = tt
All-take P (suc n) (x ∷ xs) h = (h.0, All-take P n xs h.1)

-- The header of a long enough datagram is the eight bytes of the id that it spells.
header_fields :
    (b : Bytes)
    → All IsByte b
    → 8 ≤ length b
    → (get_be 0 (take 8 b) < 256 ^ 8) × (put_be 8 (get_be 0 (take 8 b)) ++ drop 8 b ≡ b)
header_fields b h long = (
  rw full at (get_be-lt (take 8 b) (All-take IsByte 8 b h)),
  ap (λ hd. hd ++ drop 8 b) (rw full at (put_be-get_be (take 8 b) 0 (All-take IsByte 8 b h)))
      ∙ take-append-drop 8 b,
)
  where
    full : length (take 8 b) ≡ 8
    full = omega (arith, length-take 8 b)

-- Decoding what `EncodeDatagram` built from a 64-bit session id and any packet gives back that id
-- and that packet.
pub decode_datagram-encode_datagram :
    (session_id : ℕ) (pkt : Bytes)
    → session_id < 2 ^ 64
    → decode_datagram (encode_datagram session_id pkt) ≡ decoded session_id pkt
unfolding decode_datagram encode_datagram put_be
decode_datagram-encode_datagram sid pkt h = ground (arith, get_be-put_be 8 sid h)

-- Whenever `DecodeDatagram` accepts a byte string, the session id is a 64-bit number, and encoding
-- that id and the returned packet gives the byte string again.
pub encode_datagram-decode_datagram :
    (b : Bytes) (session_id : ℕ) (pkt : Bytes)
    → All IsByte b
    → decode_datagram b ≡ decoded session_id pkt
    → (session_id < 2 ^ 64) × (encode_datagram session_id pkt ≡ b)
unfolding decode_datagram encode_datagram
encode_datagram-decode_datagram b sid pkt h e =
    ground (arith, header_fields b h, leb→le 8 (length b))
