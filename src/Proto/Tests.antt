-- ===== src/Proto/Tests.antt =====
-- Runs of the datagram format and of the control framing.
use revquic.Prelude.{◌≡◌, refl, Option, some, [], ◌∷◌, ◌++◌, arith}
use revquic.Proto.Datagram.{
  Bytes, put_be, get_be, encode_datagram, decode_datagram, decoded, short_datagram,
}
use revquic.Proto.Framing.{ok, err, unexpected_eof, read_control}
use revquic.Proto.Delivery.{
  IsSendable, write_all, read_count, read_count-write_all, in_body, read_control-Truncated,
}

abbrev packet : Bytes
packet = 69 ∷ 0 ∷ 1 ∷ []

abbrev frame : Bytes
frame = 0 ∷ 0 ∷ 0 ∷ 0 ∷ 0 ∷ 0 ∷ 1 ∷ 2 ∷ 69 ∷ 0 ∷ 1 ∷ []

encoded_258 : encode_datagram 258 packet ≡ frame
unfolding encode_datagram put_be
encoded_258 = refl

decoded_258 : decode_datagram frame ≡ decoded 258 packet
unfolding decode_datagram get_be
decoded_258 = refl

too_short : decode_datagram packet ≡ short_datagram 3
unfolding decode_datagram
too_short = refl

-- A codec whose messages are their own texts.
abbrev plain : Bytes → Option Bytes
plain b = some b

packet-IsSendable : IsSendable plain plain packet
packet-IsSendable = record { body = packet; encoded = refl; fits = omega arith; decoded = refl }

read_count-write_all_example :
    read_count plain plain 2 (write_all plain plain [] (packet ∷ packet ∷ []) ++ (7 ∷ []))
    ≡ ok (packet ∷ packet ∷ [], 7 ∷ [])
read_count-write_all_example =
    read_count-write_all plain plain (packet ∷ packet ∷ []) (7 ∷ [])
      (packet-IsSendable, (packet-IsSendable, tt))

read_control-Truncated_example : read_control plain (put_be 4 5 ++ packet) ≡ err unexpected_eof
read_control-Truncated_example =
    read_control-Truncated plain plain (in_body 5 packet (omega arith) (omega arith))
