-- ===== src/Socks.antt =====
-- internal/socks/socks.go: the SOCKS5 handshake of the proxy, up to the splicing of the streams.
-- The client's connection is the bytes still to come and the writes so far. net.IP.String, net.ParseIP,
-- the two resolvers and the dialer are parameters. A text is the list of its bytes.
pub mod Server
pub mod Requests
pub mod Soundness
pub mod Handshake
mod Tests
use revquic.Prelude.{
  ℕ, ◌+◌, ◌*◌, ◌/◌, ◌%◌, Bool, true, false, Option, none, some, List, [], ◌∷◌, ◌++◌, ◌==◌, not, ltb,
  if◌then◌else◌,
}
use revquic.Proto.Datagram.{Bytes, byte_at, get_be}
use revquic.Proto.Framing.{Error, Result, ok, err, read_full}

abbrev pub ver5 : ℕ
ver5 = 5

abbrev pub cmd_connect : ℕ
cmd_connect = 1

abbrev pub atyp_ipv4 : ℕ
atyp_ipv4 = 1

abbrev pub atyp_domain : ℕ
atyp_domain = 3

abbrev pub atyp_ipv6 : ℕ
atyp_ipv6 = 4

pub data Reply : Type 0 where
  success gen_failure host_unreach cmd_not_supp addr_not_supp : Reply

unfoldable pub reply_code : Reply → ℕ
reply_code success = 0
reply_code gen_failure = 1
reply_code host_unreach = 4
reply_code cmd_not_supp = 7
reply_code addr_not_supp = 8

-- The bytes of writeReply.
unfoldable pub reply_bytes : Reply → Bytes
unfolding reply_code
reply_bytes r = ver5 ∷ reply_code r ∷ 0 ∷ atyp_ipv4 ∷ 0 ∷ 0 ∷ 0 ∷ 0 ∷ 0 ∷ 0 ∷ []

-- What can go wrong in the two parsers.
pub data SocksError : Type 0 where
  read_failed : Error → SocksError
  bad_version : ℕ → SocksError
  cmd_not_supported addr_not_supported no_method write_failed : SocksError

pub data Parsed {ℓ} (A : Type ℓ) : Type ℓ where
  done : A → Parsed A
  failed : SocksError → Parsed A

infixl 5 ◌>>=◌
abbrev pub ◌>>=◌ {ℓ κ} : {A : Type ℓ} {B : Type κ} → Parsed A → (A → Parsed B) → Parsed B
done a >>= f = f a
failed e >>= f = failed e

-- io.ReadFull of `n` bytes.
unfoldable pub read_n : ℕ → Bytes → Parsed (Bytes × Bytes)
read_n n c = elim (read_full n c) [ ok r ↦ done r | err e ↦ failed (read_failed e) ]

-- An early return unless a test holds.
unfoldable pub require : Bool → SocksError → Parsed Bool
require true e = done true
require false e = failed e

-- The methods of the greeting, and what follows it.
unfoldable pub read_greeting : Bytes → Parsed (Bytes × Bytes)
unfolding read_n require
read_greeting c = do
  (head, c1) ← read_n 2 c
  version ← require (byte_at head 0 == ver5) (bad_version (byte_at head 0))
  read_n (byte_at head 1) c1

-- The loop over the methods.
unfoldable pub offers_no_auth : Bytes → Bool
offers_no_auth [] = false
offers_no_auth (m ∷ methods) = let rest = offers_no_auth methods in if m == 0 then true else rest

module _ (ip_string : Bytes → Bytes) where
  -- The host of a request by its ATYP, and what follows it.
  unfoldable pub read_host : ℕ → Bytes → Parsed (Bytes × Bytes)
  unfolding read_n
  read_host atyp c =
      if atyp == atyp_ipv4
      then read_n 4 c >>= (λ r. done (ip_string r.0, r.1))
      else if atyp == atyp_ipv6
      then read_n 16 c >>= (λ r. done (ip_string r.0, r.1))
      else if atyp == atyp_domain
      then read_n 1 c >>= (λ l. read_n (byte_at l.0 0) l.1)
      else failed addr_not_supported

  -- readRequest: the host and the port, which the source keeps in decimals, and what follows them.
  unfoldable pub read_request : Bytes → Parsed ((Bytes × ℕ) × Bytes)
  unfolding read_n require read_host
  read_request c = do
    (head, c1) ← read_n 4 c
    version ← require (byte_at head 0 == ver5) (bad_version (byte_at head 0))
    command ← require (byte_at head 1 == cmd_connect) cmd_not_supported
    (host, c2) ← read_host (byte_at head 3) c1
    (pb, c3) ← read_n 2 c2
    done ((host, get_be 0 pb), c3)

-- The reply to an error of readRequest.
unfoldable pub reply_of : SocksError → Reply
reply_of cmd_not_supported = cmd_not_supp
reply_of addr_not_supported = addr_not_supp
reply_of _ = gen_failure

-- The first address of an answer that is no error and not empty.
unfoldable pub first_ip : (Bytes → Bytes) → Option (List Bytes) → Option Bytes
first_ip ip_string (some (ip ∷ ips)) = some (ip_string ip)
first_ip ip_string _ = none
