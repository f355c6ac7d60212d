-- ===== src/Proto/Framing.antt =====
-- internal/proto/proto.go, WriteControl and ReadControl: length-prefixed control messages.
-- The JSON codec of `Control` is a parameter (`marshal`, `unmarshal`), and so is the writer, a state
-- with one operation; the reader is the list of the bytes that are still to come.
use revquic.Prelude.{ℕ, ◌%◌, ◌^◌, Option, none, some, length, take, drop, ltb, if◌then◌else◌}
use revquic.Proto.Datagram.{Bytes, put_be, get_be}

pub data Error : Type 0 where
  eof unexpected_eof marshal_failed unmarshal_failed write_failed : Error
  too_large : ℕ → Error

pub data Result {ℓ} (A : Type ℓ) : Type ℓ where
  ok : A → Result A
  err : Error → Result A

infixl 5 ◌>>=◌
abbrev pub ◌>>=◌ {ℓ κ} : {A : Type ℓ} {B : Type κ} → Result A → (A → Result B) → Result B
ok a >>= f = f a
err e >>= f = err e

-- 1 << 20
abbrev pub max_control : ℕ
max_control = 1048576

-- io.ReadFull: `n` bytes, or an error that tells an empty stream from a short one.
unfoldable pub read_full : ℕ → Bytes → Result (Bytes × Bytes)
read_full n r =
    if ltb (length r) n
    then err (if ltb 0 (length r) then unexpected_eof else eof)
    else ok (take n r, drop n r)

module _ {C W : Type 0} (marshal : C → Option Bytes) (write : W → Bytes → W × Option Error) where
  -- The two writes: the header, then the body if that went well.
  unfoldable pub write_frame : W → Bytes → W × Option Error
  write_frame w b =
      let (w1, e1) = write w (put_be 4 (length b % 2 ^ 32)) in
      elim e1 [ some e ↦ (w1, some e) | none ↦ write w1 b ]

  unfoldable pub write_control : W → C → W × Option Error
  unfolding write_frame
  write_control w m = elim (marshal m) [
    | none ↦ (w, some marshal_failed)
    | some b ↦
        if ltb max_control (length b) then (w, some (too_large (length b))) else write_frame w b
  ]

or_fail {ℓ} : {A : Type ℓ} → Option A → Error → Result A
or_fail none e = err e
or_fail (some a) e = ok a

check_size : ℕ → Result ℕ
check_size n = if ltb max_control n then err (too_large n) else ok n

module _ {C : Type 0} (unmarshal : Bytes → Option C) where
  unfoldable pub read_control : Bytes → Result (C × Bytes)
  unfolding or_fail check_size
  read_control r = do
    (hdr, r1) ← read_full 4 r
    n ← check_size (get_be 0 hdr)
    (buf, r2) ← read_full n r1
    m ← or_fail (unmarshal buf) unmarshal_failed
    ok (m, r2)
