-- ===== src/Socks/Requests.antt =====
-- The greeting and the CONNECT request of RFC 1928 as bytes, against the parsers of
-- internal/socks/socks.go.
use revquic.Prelude.{ℕ, ◌<◌, ◌≡◌, refl, [], ◌∷◌, ◌++◌, arith, length}
use mathlib.Core.List.{append_assoc}
use revquic.Proto.Datagram.{Bytes, put_be, length-put_be, get_be-put_be}
use revquic.Proto.Delivery.{read_full-append}
use revquic.Socks.{
  done, read_n, require, read_greeting, read_host, read_request, ver5, cmd_connect, atyp_ipv4,
  atyp_ipv6, atyp_domain,
}

pub data Address : Type 0 where
  ipv4 ipv6 domain : Bytes → Address

abbrev pub IsAddress : Address → Type 0
IsAddress (ipv4 b) = length b ≡ 4
IsAddress (ipv6 b) = length b ≡ 16
IsAddress (domain b) = length b < 256

-- The address of a request behind its ATYP byte.
unfoldable pub address_body : Address → Bytes
address_body (ipv4 b) = b
address_body (ipv6 b) = b
address_body (domain b) = length b ∷ b

-- The text of the host that an address stands for.
unfoldable pub host_of : (Bytes → Bytes) → Address → Bytes
host_of ip_string (ipv4 b) = ip_string b
host_of ip_string (ipv6 b) = ip_string b
host_of ip_string (domain b) = b

-- The ATYP byte of an address.
abbrev pub atyp_of : Address → ℕ
atyp_of (ipv4 b) = atyp_ipv4
atyp_of (ipv6 b) = atyp_ipv6
atyp_of (domain b) = atyp_domain

unfoldable pub encode_request : (rsv : ℕ) → Address → (port : ℕ) → Bytes
encode_request rsv a port = ver5 ∷ cmd_connect ∷ rsv ∷ atyp_of a ∷ (address_body a ++ put_be 2 port)

unfoldable pub encode_greeting : Bytes → Bytes
encode_greeting methods = ver5 ∷ length methods ∷ methods

read_n-append : (n : ℕ) (xs ys : Bytes) → length xs ≡ n → read_n n (xs ++ ys) ≡ done (xs, ys)
unfolding read_n
read_n-append n xs ys e = rw (read_full-append n xs ys e, read_n) refl

pub read_greeting-encode_greeting :
    (methods rest : Bytes) → read_greeting (encode_greeting methods ++ rest) ≡ done (methods, rest)
unfolding read_greeting encode_greeting require
read_greeting-encode_greeting methods rest =
    rw
      (
        read_n-append 2 (ver5 ∷ length methods ∷ []) (methods ++ rest) refl,
        read_n-append (length methods) methods rest refl,
        read_greeting,
      )
      refl

module _ (ip_string : Bytes → Bytes) where
  read_host-address_bytes :
      (a : Address) (rest : Bytes)
      → IsAddress a
      → read_host ip_string (atyp_of a) (address_body a ++ rest) ≡ done (host_of ip_string a, rest)
  unfolding read_host address_body host_of
  read_host-address_bytes (ipv4 b) rest size = rw (read_n-append 4 b rest size, read_host) refl
  read_host-address_bytes (ipv6 b) rest size = rw (read_n-append 16 b rest size, read_host) refl
  read_host-address_bytes (domain b) rest size =
      rw
        (
          read_n-append 1 (length b ∷ []) (b ++ rest) refl,
          read_n-append (length b) b rest refl,
          read_host,
        )
        refl

  -- readRequest gives back the host, the port and the rest of any CONNECT request.
  pub read_request-encode_request :
      (rsv : ℕ) (a : Address) (port : ℕ) (rest : Bytes)
      → IsAddress a
      → port < 65536
      → read_request ip_string (encode_request rsv a port ++ rest)
        ≡ done ((host_of ip_string a, port), rest)
  unfolding read_request encode_request require
  read_request-encode_request rsv a port rest size word =
      let body = address_body a ++ (put_be 2 port ++ rest) in
      let head : read_n 4 (ver5 ∷ cmd_connect ∷ rsv ∷ atyp_of a ∷ body)
          ≡ done (ver5 ∷ cmd_connect ∷ rsv ∷ atyp_of a ∷ [], body) =
        read_n-append 4 (ver5 ∷ cmd_connect ∷ rsv ∷ atyp_of a ∷ []) body refl in
      rw
        (
          append_assoc (address_body a) (put_be 2 port) rest,
          head,
          read_host-address_bytes a (put_be 2 port ++ rest) size,
          read_n-append 2 (put_be 2 port) rest (length-put_be 2 port),
          get_be-put_be 2 port (ground arith),
          read_request,
        )
        refl
