-- ===== src/Socks/Handshake.antt =====
-- handle of internal/socks/socks.go as a whole: when it dials, and what the client gets.
use revquic.Prelude.{
  ℕ, ◌<◌, ◌≡◌, refl, sym, ap, ◌∙◌, inl, inr, ◌⊎◌, true, Option, none, some, [], ◌∷◌, ◌++◌, All,
  Bool-cases, Option-cases, none_ne, some_inj,
}
use revquic.Proto.Datagram.{Bytes, IsByte}
use revquic.Socks.{
  Parsed, done, failed, SocksError, success, reply_bytes, offers_no_auth, read_greeting,
  read_request, ver5,
}
use revquic.Socks.Server.{
  Net, Ending, closed, spliced, target_of, connect, negotiate_auth, serve_request, handle,
}
use revquic.Socks.Requests.{
  Address, IsAddress, host_of, encode_request, encode_greeting, read_greeting-encode_greeting,
  read_request-encode_request,
}
use revquic.Socks.Soundness.{
  failed_ne, done_inj, All-split, read_greeting_sound, read_request_sound,
}

-- The address that was dialed, if any.
abbrev pub dialed : {U : Type 0} → Ending U → Option (Bytes × ℕ)
dialed (closed t) = t
dialed (spliced t u rest) = some t

Parsed-cases {ℓ} :
    {A : Type ℓ} (p : Parsed A) → ((e : SocksError) × (p ≡ failed e)) ⊎ ((a : A) × (p ≡ done a))
Parsed-cases (failed e) = inl (e, refl)
Parsed-cases (done a) = inr (a, refl)

module _ {W U : Type 0} (net : Net W U) where
  negotiated :
      (w : W) (methods rest : Bytes)
      → (net.write w (ver5 ∷ 0 ∷ [])).1 ≡ none
      → offers_no_auth methods ≡ true
      → negotiate_auth net w (encode_greeting methods ++ rest)
        ≡ ((net.write w (ver5 ∷ 0 ∷ [])).0, done rest)
  unfolding negotiate_auth
  negotiated w methods rest written offered =
      rw (negotiate_auth, read_greeting-encode_greeting methods rest, offered) (rw written refl)

  connected :
      (w : W) (rest : Bytes) (target : Bytes × ℕ) (upstream : U)
      → (net.write w (reply_bytes success)).1 ≡ none
      → net.dial target ≡ some upstream
      → connect net w rest target
        ≡ ((net.write w (reply_bytes success)).0, spliced target upstream rest)
  unfolding connect
  connected w rest target upstream written dialed = rw (connect, dialed) (rw written refl)

  -- A client that offers "no authentication" and then asks for a CONNECT to an address that can be
  -- dialed gets the two answers that SOCKS5 wants, and what it has sent after them is kept for the
  -- upstream connection, as long as the client can be written to.
  pub handle_serves :
      (w : W) (methods : Bytes) (rsv : ℕ) (a : Address) (port : ℕ) (rest : Bytes)
      (target : Bytes × ℕ) (upstream : U)
      → ((v : W) (b : Bytes) → (net.write v b).1 ≡ none)
      → offers_no_auth methods ≡ true
      → IsAddress a
      → port < 65536
      → target_of net (host_of net.ip_string a, port) ≡ some target
      → net.dial target ≡ some upstream
      → handle net w (encode_greeting methods ++ (encode_request rsv a port ++ rest)) ≡ (
        (net.write (net.write w (ver5 ∷ 0 ∷ [])).0 (reply_bytes success)).0,
        spliced target upstream rest,
      )
  unfolding handle serve_request
  handle_serves w methods rsv a port rest target upstream writes offered good word found dialed =
      let w1 = (net.write w (ver5 ∷ 0 ∷ [])).0 in
      let opened = negotiated w methods (encode_request rsv a port ++ rest) (writes w _) offered in
      ap (λ n. serve_request net n.0 n.1) opened
      ∙ rw
          (
            serve_request,
            read_request-encode_request net.ip_string rsv a port rest good word,
            found,
          )
          (connected w1 rest target upstream (writes w1 _) dialed)

  auth_sound :
      (w : W) (c rest : Bytes)
      → (negotiate_auth net w c).1 ≡ done rest
      → (methods : Bytes) × (offers_no_auth methods ≡ true) × (c ≡ encode_greeting methods ++ rest)
  unfolding negotiate_auth
  auth_sound w c rest h = elim (Parsed-cases (read_greeting c)) [
    | inl (e, bad) ↦ elim (failed_ne (rw (bad, negotiate_auth) at h)) [ ]
    | inr ((methods, rest'), eq) ↦ elim (Bool-cases (offers_no_auth methods)) [
      | inr missing ↦ elim (failed_ne (rw (eq, missing, negotiate_auth) at h)) [ ]
      | inl offered ↦
          let h' = rw (eq, offered, negotiate_auth) at h in
          elim (Option-cases (net.write w (ver5 ∷ 0 ∷ [])).1) [
            | inr (e, bad) ↦ elim (failed_ne (rw bad at h')) [ ]
            | inl written ↦ (
              methods,
              offered,
              rw (done_inj (rw written at h')) at (read_greeting_sound c methods rest' eq),
            )
          ]
    ]
  ]

  connect_dials :
      (w : W) (rest : Bytes) (target t : Bytes × ℕ)
      → dialed (connect net w rest target).1 ≡ some t
      → target ≡ t
  unfolding connect
  connect_dials w rest target t h = elim (Option-cases (net.dial target)) [
    | inl bad ↦ some_inj (rw (bad, connect) at h)
    | inr (u, eq) ↦
        let h' = rw (eq, connect) at h in
        elim (Option-cases (net.write w (reply_bytes success)).1) [
          | inl written ↦ some_inj (rw written at h')
          | inr (e, bad) ↦ some_inj (rw bad at h')
        ]
  ]

  -- The proxy dials only for a client that has sent a greeting with "no authentication" among its
  -- methods and then a full CONNECT request, and the address that it dials is the one that the host
  -- of that request stands for, or resolves to.
  pub handle_dials :
      (w : W) (c : Bytes) (target : Bytes × ℕ)
      → All IsByte c
      → dialed (handle net w c).1 ≡ some target
      → (methods : Bytes) × (rsv : ℕ) × (a : Address) × (port : ℕ) × (rest : Bytes) × (c
          ≡ encode_greeting methods ++ (encode_request rsv a port ++ rest))
        × (offers_no_auth methods ≡ true)
        × IsAddress a
        × (target_of net (host_of net.ip_string a, port) ≡ some target)
  unfolding handle serve_request
  handle_dials w c target bytes h = elim (Parsed-cases (negotiate_auth net w c).1) [
    | inl (e, bad) ↦ elim (none_ne (rw bad at h)) [ ]
    | inr (rest, eq) ↦
        let (methods, offered, split) = auth_sound w c rest eq in
        let w1 = (negotiate_auth net w c).0 in
        let h1 : dialed (serve_request net w1 (done rest)).1 ≡ some target =
          ap (λ q. dialed (serve_request net w1 q).1) (sym eq) ∙ h in
        elim (Parsed-cases (read_request net.ip_string rest)) [
          | inl (e, bad) ↦ elim (none_ne (rw (bad, serve_request) at h1)) [ ]
          | inr (((host, port), rest'), parsed) ↦ elim (Option-cases (target_of net (host, port))) [
            | inl lost ↦ elim (none_ne (rw (parsed, lost, serve_request) at h1)) [ ]
            | inr (t, found) ↦
                let (rsv, a, good, word, text, exact) =
                  read_request_sound net.ip_string rest host rest' port
                    (tail_bytes methods rest split) parsed in
                let same =
                  connect_dials w1 rest' t target (rw (parsed, found, serve_request) at h1) in
                (
                  methods,
                  rsv,
                  a,
                  port,
                  rest',
                  split ∙ ap (λ r. encode_greeting methods ++ r) exact,
                  offered,
                  good,
                  ap (λ h. target_of net (h, port)) (sym text) ∙ found ∙ ap some same,
                )
          ]
        ]
  ]
    where
      tail_bytes : (methods rest : Bytes) → c ≡ encode_greeting methods ++ rest → All IsByte rest
      tail_bytes methods rest split =
          (All-split IsByte (encode_greeting methods) rest (rw split at bytes)).1
