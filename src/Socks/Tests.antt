-- ===== src/Socks/Tests.antt =====
-- A client that asks for port 443 of "ab" over a proxy that resolves every name to one address.
use revquic.Prelude.{ℕ, ◌≡◌, refl, true, false, All, none, some, [], ◌∷◌, ◌++◌, arith}
use revquic.Proto.Datagram.{Bytes, IsByte, get_be}
use revquic.Proto.Framing.{read_full}
use revquic.Socks.{
  success, reply_bytes, reply_code, offers_no_auth, read_greeting, read_request, read_host,
  first_ip, read_n, require, reply_of, ver5,
}
use revquic.Socks.Server.{
  Net, spliced, closed, target_of, resolve, handle, negotiate_auth, serve_request, connect,
}
use revquic.Socks.Requests.{Address, domain, IsAddress, host_of, encode_request, encode_greeting}
use revquic.Socks.Handshake.{dialed, handle_serves, handle_dials}

abbrev net : Net Bytes ℕ
net = record {
  write = λ w b. (w ++ b, none);
  ip_string = λ b. b;
  is_ip = λ host. false;
  lookup_bound = λ host. none;
  lookup_system = λ host. some ((10 ∷ 0 ∷ 0 ∷ 1 ∷ []) ∷ []);
  dial = λ target. some 5;
}

abbrev name : Address
name = domain (97 ∷ 98 ∷ [])

abbrev target : Bytes × ℕ
target = (10 ∷ 0 ∷ 0 ∷ 1 ∷ [], 443)

found : target_of net (host_of net.ip_string name, 443) ≡ some target
unfolding target_of host_of resolve first_ip
found = refl

offered : offers_no_auth (2 ∷ 0 ∷ []) ≡ true
unfolding offers_no_auth
offered = refl

abbrev input : Bytes
input = encode_greeting (2 ∷ 0 ∷ []) ++ (encode_request 0 name 443 ++ 71 ∷ 69 ∷ [])

handle_serves_example : handle net [] input ≡ (
  (net.write (net.write [] (ver5 ∷ 0 ∷ [])).0 (reply_bytes success)).0,
  spliced target 5 (71 ∷ 69 ∷ []),
)
handle_serves_example =
    handle_serves net [] (2 ∷ 0 ∷ []) 0 name 443 (71 ∷ 69 ∷ []) target 5 (λ v b. refl) offered
      (omega arith) (omega arith) found refl

abbrev raw : Bytes
raw = 5 ∷ 1 ∷ 0 ∷ 5 ∷ 1 ∷ 0 ∷ 3 ∷ 2 ∷ 97 ∷ 98 ∷ 1 ∷ 187 ∷ 71 ∷ []

raw-dialed : dialed (handle net [] raw).1 ≡ some target
unfolding handle negotiate_auth serve_request connect read_greeting read_request read_host read_n
    read_full require offers_no_auth get_be target_of resolve first_ip reply_bytes reply_code
raw-dialed = refl

raw-IsBytes : All IsByte raw
raw-IsBytes = (
  omega arith,
  (
    omega arith,
    (
      omega arith,
      (
        omega arith,
        (
          omega arith,
          (
            omega arith,
            (
              omega arith,
              (
                omega arith,
                (omega arith, (omega arith, (omega arith, (omega arith, (omega arith, tt))))),
              ),
            ),
          ),
        ),
      ),
    ),
  ),
)

handle_dials_example :
    (methods : Bytes) × (rsv : ℕ) × (a : Address) × (port : ℕ) × (rest : Bytes) × (raw
      ≡ encode_greeting methods ++ (encode_request rsv a port ++ rest))
    × (offers_no_auth methods ≡ true)
    × IsAddress a
    × (target_of net (host_of net.ip_string a, port) ≡ some target)
handle_dials_example = handle_dials net [] raw target raw-IsBytes raw-dialed

-- BIND is refused with the reply for a command that is not supported.
bind_refused :
    handle net [] (5 ∷ 1 ∷ 0 ∷ 5 ∷ 2 ∷ 0 ∷ 1 ∷ [])
    ≡ (5 ∷ 0 ∷ 5 ∷ 7 ∷ 0 ∷ 1 ∷ 0 ∷ 0 ∷ 0 ∷ 0 ∷ 0 ∷ 0 ∷ [], closed none)
unfolding handle negotiate_auth serve_request connect read_greeting read_request read_host read_n
    read_full require offers_no_auth get_be reply_bytes reply_code reply_of
bind_refused = refl
