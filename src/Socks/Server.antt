-- ===== src/Socks/Server.antt =====
-- internal/socks/socks.go: negotiateAuth, resolve and handle.
use revquic.Prelude.{ℕ, Bool, Option, none, some, List, [], ◌∷◌, if◌then◌else◌}
use revquic.Proto.Datagram.{Bytes}
use revquic.Proto.Framing.{Error}
use revquic.Socks.{
  Parsed, done, failed, write_failed, no_method, ver5, success, host_unreach, reply_bytes, reply_of,
  read_greeting, offers_no_auth, read_request, first_ip,
}

-- How handle ends: with the address that it dialed, if any, and, where both streams are spliced, the
-- upstream connection and the bytes that are still to come from the client.
pub data Ending (U : Type 0) : Type 0 where
  closed : Option (Bytes × ℕ) → Ending U
  spliced : Bytes × ℕ → U → Bytes → Ending U

-- What the proxy calls.
pub record Net (W U : Type 0) : Type 0 where
  pub write : W → Bytes → W × Option Error
  pub ip_string : Bytes → Bytes
  pub is_ip : Bytes → Bool
  pub lookup_bound : Bytes → Option (List Bytes)
  pub lookup_system : Bytes → Option (List Bytes)
  pub dial : Bytes × ℕ → Option U

module _ {W U : Type 0} (net : Net W U) where
  unfoldable pub resolve : Bytes → Option Bytes
  unfolding first_ip
  resolve host = elim (first_ip net.ip_string (net.lookup_bound host)) [
    | some ip ↦ some ip
    | none ↦ first_ip net.ip_string (net.lookup_system host)
  ]

  unfoldable pub negotiate_auth : W → Bytes → W × Parsed Bytes
  unfolding read_greeting offers_no_auth
  negotiate_auth w c = elim (read_greeting c) [
    | failed e ↦ (w, failed e)
    | done (methods, rest) ↦
        if offers_no_auth methods
        then (let (w', e) = net.write w (ver5 ∷ 0 ∷ []) in
            (w', elim e [ none ↦ done rest | some _ ↦ failed write_failed ]))
        else ((net.write w (ver5 ∷ 255 ∷ [])).0, failed no_method)
  ]

  -- The address that handle dials: the host itself if it is an IP address.
  unfoldable pub target_of : Bytes × ℕ → Option (Bytes × ℕ)
  unfolding resolve
  target_of (host, port) =
      if net.is_ip host
      then some (host, port)
      else elim (resolve host) [ none ↦ none | some ip ↦ some (ip, port) ]

  -- The part of handle from the dialing on.
  unfoldable pub connect : W → Bytes → Bytes × ℕ → W × Ending U
  unfolding reply_bytes
  connect w rest target = elim (net.dial target) [
    | none ↦ ((net.write w (reply_bytes host_unreach)).0, closed (some target))
    | some upstream ↦
        let (w', e) = net.write w (reply_bytes success) in
        (w', elim e [ some _ ↦ closed (some target) | none ↦ spliced target upstream rest ])
  ]

  -- The part of handle behind negotiateAuth.
  unfoldable pub serve_request : W → Parsed Bytes → W × Ending U
  unfolding read_request reply_of target_of connect reply_bytes
  serve_request w auth = elim auth [
    | failed e ↦ (w, closed none)
    | done rest ↦ elim (read_request net.ip_string rest) [
      | failed e ↦ ((net.write w (reply_bytes (reply_of e))).0, closed none)
      | done (request, rest') ↦ elim (target_of request) [
        | none ↦ ((net.write w (reply_bytes host_unreach)).0, closed none)
        | some target ↦ connect w rest' target
      ]
    ]
  ]

  unfoldable pub handle : W → Bytes → W × Ending U
  unfolding negotiate_auth serve_request
  handle w c = let (w1, auth) = negotiate_auth w c in serve_request w1 auth
