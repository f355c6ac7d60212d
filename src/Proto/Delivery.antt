-- ===== src/Proto/Delivery.antt =====
-- Control messages through a stream: internal/proto/proto.go, WriteControl against ReadControl.
use revquic.Prelude.{
  ℕ, zero, suc, ◌≤◌, ◌<◌, ◌≡◌, refl, sym, ap, ◌∙◌, List, [], ◌∷◌, ◌++◌, Option, none, some, arith,
  All, length, take, drop, length-append,
}
use mathlib.Core.List.{append_assoc, append-nil}
use revquic.Proto.Datagram.{Bytes, put_be, length-put_be, get_be-put_be}
use revquic.Proto.Framing.{
  Result, ok, err, Error, eof, unexpected_eof, ◌>>=◌, max_control, read_full, write_frame,
  write_control, read_control,
}

take-append {ℓ} : {A : Type ℓ} (xs ys : List A) → take (length xs) (xs ++ ys) ≡ xs
take-append [] ys = refl
take-append (x ∷ xs) ys = ap (◌∷◌ x) (take-append xs ys)

drop-append {ℓ} : {A : Type ℓ} (xs ys : List A) → drop (length xs) (xs ++ ys) ≡ ys
drop-append [] ys = refl
drop-append (x ∷ xs) ys = drop-append xs ys

pub read_full-append :
    (n : ℕ) (xs ys : Bytes) → length xs ≡ n → read_full n (xs ++ ys) ≡ ok (xs, ys)
unfolding read_full
read_full-append n xs ys e =
    rw (← e) (ground (arith, length-append xs ys, take-append xs ys, drop-append xs ys))

abbrev pub short_error : Bytes → Error
short_error [] = eof
short_error (_ ∷ _) = unexpected_eof

read_full_short : (n : ℕ) (r : Bytes) → length r < n → read_full n r ≡ err (short_error r)
unfolding read_full
read_full_short n [] h = ground arith
read_full_short n (b ∷ r) h = ground arith

-- A writer that keeps all that it is given, such as a stream that has not failed.
abbrev pub buffer : Bytes → Bytes → Bytes × Option Error
buffer w b = (w ++ b, none)

module _ {C : Type 0} (marshal : C → Option Bytes) (unmarshal : Bytes → Option C) where
  -- What the JSON codec has to do for a message: its text is within the limit and reads back.
  pub record IsSendable (m : C) : Type 0 where
    pub body : Bytes
    pub encoded : marshal m ≡ some body
    pub fits : length body ≤ max_control
    pub decoded : unmarshal body ≡ some m

  abbrev pub frame : Bytes → Bytes
  frame b = put_be 4 (length b) ++ b

  write_control-buffer :
      (w : Bytes) (m : C) (s : IsSendable m)
      → write_control marshal buffer w m ≡ (w ++ frame s.body, none)
  unfolding write_control write_frame
  write_control-buffer w m s =
      ground (arith, s.encoded, s.fits, append_assoc w (put_be 4 (length s.body)) s.body)

  read_control-frame :
      (m : C) (s : IsSendable m) (rest : Bytes)
      → read_control unmarshal (frame s.body ++ rest) ≡ ok (m, rest)
  unfolding read_control
  read_control-frame m s rest = ground (
    arith,
    s.decoded,
    s.fits,
    append_assoc (put_be 4 (length s.body)) s.body rest,
    read_full-append 4 (put_be 4 (length s.body)) (s.body ++ rest) (length-put_be 4 _),
    get_be-put_be 4 (length s.body),
    read_full-append (length s.body) s.body rest refl,
  )

  -- Several messages written one behind another.
  pub write_all : Bytes → List C → Bytes
  write_all w [] = w
  write_all w (m ∷ ms) = write_all (write_control marshal buffer w m).0 ms

  -- Reads one behind another, each from where the one before stopped.
  pub read_count : ℕ → Bytes → Result (List C × Bytes)
  read_count zero r = ok ([], r)
  read_count (suc n) r = do
    (m, r1) ← read_control unmarshal r
    (ms, r2) ← read_count n r1
    ok (m ∷ ms, r2)

  frames : (ms : List C) → All IsSendable ms → Bytes
  frames [] h = []
  frames (m ∷ ms) (s, h) = frame s.body ++ frames ms h

  write_all-frames :
      (w : Bytes) (ms : List C) (h : All IsSendable ms) → write_all w ms ≡ w ++ frames ms h
  unfolding write_all frames
  write_all-frames w [] h = sym (append-nil w)
  write_all-frames w (m ∷ ms) (s, h) =
      rw (write_control-buffer w m s)
        (write_all-frames (w ++ frame s.body) ms h ∙ append_assoc w (frame s.body) (frames ms h))

  read_count-frames :
      (ms : List C) (h : All IsSendable ms) (rest : Bytes)
      → read_count (length ms) (frames ms h ++ rest) ≡ ok (ms, rest)
  unfolding read_count frames
  read_count-frames [] h rest = refl
  read_count-frames (m ∷ ms) (s, h) rest = rw (
    append_assoc (frame s.body) (frames ms h) rest,
    read_control-frame m s (frames ms h ++ rest),
    read_count-frames ms h rest,
  )

  -- Messages that the codec reads back and that fit the limit, written one behind another to a
  -- stream that has not failed, are read from it in the same order and with nothing left over:
  -- the reader stops exactly where the bytes that follow them begin.
  pub read_count-write_all :
      (ms : List C) (rest : Bytes)
      → All IsSendable ms
      → read_count (length ms) (write_all [] ms ++ rest) ≡ ok (ms, rest)
  read_count-write_all ms rest h = rw (write_all-frames [] ms h) (read_count-frames ms h rest)

  -- Streams that end too early, with what they hold of the part that they end in: of the header, or
  -- of the body that a whole header announces within the limit.
  pub data Truncated : Bytes → Bytes → Type 0 where
    in_header : (p : Bytes) → length p < 4 → Truncated p p
    in_body : (n : ℕ) (p : Bytes) → n ≤ max_control → length p < n → Truncated (put_be 4 n ++ p) p

  -- A stream that ends inside the header, or inside a body of an acceptable length, gives an
  -- end-of-stream error and never a message: EOF where that part has not begun, and an unexpected
  -- EOF where some of it was there.
  pub read_control-Truncated :
      {r p : Bytes} → Truncated r p → read_control unmarshal r ≡ err (short_error p)
  unfolding read_control
  read_control-Truncated (in_header p short) = ground (arith, read_full_short 4 p short)
  read_control-Truncated (in_body n p h short) = ground (
    arith,
    read_full-append 4 (put_be 4 n) p (length-put_be 4 n),
    get_be-put_be 4 n,
    read_full_short n p short,
  )
