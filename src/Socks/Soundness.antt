-- ===== src/Socks/Soundness.antt =====
-- What the parsers of internal/socks/socks.go accept is a greeting or a CONNECT request of RFC 1928.
use revquic.Prelude.{
  ℕ, zero, suc, ◌<◌, ◌≡◌, refl, sym, ap, ap₂, subst, ◌∙◌, inl, inr, Bool, true, List, [], ◌∷◌, ◌++◌,
  arith, length, All, ◌==◌, ==_iff, Bool-cases, take-append-drop, length-take, ltb,
}
use mathlib.Core.List.{append_assoc}
use revquic.Proto.Datagram.{Bytes, IsByte, get_be, put_be-get_be, get_be-lt, byte_at}
use revquic.Proto.Framing.{read_full}
use revquic.Socks.{
  Parsed, done, failed, read_n, require, read_greeting, read_host, read_request, ver5, cmd_connect,
  atyp_ipv4, atyp_ipv6, atyp_domain, ◌>>=◌, SocksError, bad_version, cmd_not_supported,
}
use revquic.Socks.Requests.{
  Address, ipv4, ipv6, domain, IsAddress, host_of, encode_request, encode_greeting, address_body,
  atyp_of,
}

pub failed_ne {ℓ} : {A : Type ℓ} {e : SocksError} {a : A} → ¬ (failed e ≡ done a)
failed_ne h = cc

pub done_inj {ℓ} : {A : Type ℓ} {a b : A} → done a ≡ done b → a ≡ b
done_inj h = cc

-- A chain of parsers that succeeds has succeeded at its first step.
bind_done {ℓ κ} :
    {A : Type ℓ} {B : Type κ} (p : Parsed A) (f : A → Parsed B) (b : B)
    → (p >>= f) ≡ done b
    → (a : A) × (p ≡ done a) × (f a ≡ done b)
bind_done (done a) f b h = (a, refl, h)
bind_done (failed e) f b h = elim (failed_ne h) [ ]

read_n_split : (n : ℕ) (c x r : Bytes) → read_n n c ≡ done (x, r) → (c ≡ x ++ r) × (length x ≡ n)
unfolding read_n read_full
read_n_split n c x r h = elim (Bool-cases (ltb (length c) n)) [
  | inl short ↦ elim (failed_ne (rw (short, read_full, read_n) at h)) [ ]
  | inr full ↦
      let same = done_inj (rw (full, read_full, read_n) at h) in
      let front = ap (λ w. w.0) same in
      let back = ap (λ w. w.1) same in
      (
        rw (← front, ← back) (sym (take-append-drop n c)),
        rw (← front) (ground (arith, length-take n c)),
      )
]

require_done : (b : Bool) (e : SocksError) (t : Bool) → require b e ≡ done t → b ≡ true
unfolding require
require_done b e t h = ground arith

shape_two : (h : Bytes) → length h ≡ 2 → h ≡ byte_at h 0 ∷ byte_at h 1 ∷ []
shape_two (a ∷ b ∷ []) e = refl
shape_two [] e = ground arith
shape_two (a ∷ []) e = ground arith
shape_two (a ∷ b ∷ c ∷ h) e = ground arith

shape_four :
    (h : Bytes) → length h ≡ 4 → h ≡ byte_at h 0 ∷ byte_at h 1 ∷ byte_at h 2 ∷ byte_at h 3 ∷ []
shape_four (a ∷ b ∷ c ∷ d ∷ []) e = refl
shape_four [] e = ground arith
shape_four (a ∷ []) e = ground arith
shape_four (a ∷ b ∷ []) e = ground arith
shape_four (a ∷ b ∷ c ∷ []) e = ground arith
shape_four (a ∷ b ∷ c ∷ d ∷ x ∷ h) e = ground arith

shape_one : (h : Bytes) → length h ≡ 1 → h ≡ byte_at h 0 ∷ []
shape_one (a ∷ []) e = refl
shape_one [] e = ground arith
shape_one (a ∷ b ∷ h) e = ground arith

greeting_parts :
    (c head c1 methods rest : Bytes)
    → c ≡ head ++ c1
    → length head ≡ 2
    → byte_at head 0 ≡ ver5
    → c1 ≡ methods ++ rest
    → length methods ≡ byte_at head 1
    → c ≡ encode_greeting methods ++ rest
unfolding encode_greeting
greeting_parts c head c1 methods rest whole two version body count =
    whole ∙ ap (λ h. h ++ c1) (shape_two head two) ∙ rw (version, ← count, body) refl

pub read_greeting_sound :
    (c methods rest : Bytes)
    → read_greeting c ≡ done (methods, rest)
    → c ≡ encode_greeting methods ++ rest
unfolding read_greeting
read_greeting_sound c methods rest h =
    let ((head, c1), read, next) = bind_done (read_n 2 c) _ (methods, rest) h in
    let (t, version, last) =
      bind_done (require (byte_at head 0 == ver5) _) _ (methods, rest) next in
    let (whole, two) = read_n_split 2 c head c1 read in
    let (body, count) = read_n_split (byte_at head 1) c1 methods rest last in
    greeting_parts c head c1 methods rest whole two
      ((==_iff (byte_at head 0) ver5).0 (require_done _ _ t version)) body count

pub All-split {ℓ κ} :
    {A : Type ℓ} (P : A → Type κ) (xs ys : List A) → All P (xs ++ ys) → All P xs × All P ys
All-split P [] ys h = (tt, h)
All-split P (x ∷ xs) ys h = let (front, back) = All-split P xs ys h.1 in ((h.0, front), back)

byte_at-IsByte : (b : Bytes) (i : ℕ) → All IsByte b → byte_at b i < 256
byte_at-IsByte [] i h = ground arith
byte_at-IsByte (x ∷ b) zero h = h.0
byte_at-IsByte (x ∷ b) (suc i) h = byte_at-IsByte b i h.1

domain_parts :
    (c l c1 b r : Bytes)
    → c ≡ l ++ c1
    → length l ≡ 1
    → c1 ≡ b ++ r
    → length b ≡ byte_at l 0
    → c ≡ length b ∷ (b ++ r)
domain_parts c l c1 b r whole one body count =
    whole ∙ ap (λ h. h ++ c1) (shape_one l one) ∙ rw (← count, body) refl

module _ (ip_string : Bytes → Bytes) where
  read_host_sound :
      (atyp : ℕ) (c host r : Bytes)
      → All IsByte c
      → read_host ip_string atyp c ≡ done (host, r)
      → (a : Address) × IsAddress a
        × (atyp ≡ atyp_of a)
        × (c ≡ address_body a ++ r)
        × (host ≡ host_of ip_string a)
  unfolding read_host address_body host_of
  read_host_sound atyp c host r bytes h = elim (Bool-cases (atyp == atyp_ipv4)) [
    | inl four ↦
        let ((b, c1), read, last) =
          bind_done (read_n 4 c) _ (host, r) (rw (four, read_host) at h) in
        let (whole, size) = read_n_split 4 c b c1 read in
        let same = done_inj last in
        (
          ipv4 b,
          size,
          (==_iff atyp atyp_ipv4).0 four,
          rw (← ap (λ w. w.1) same) whole,
          sym (ap (λ w. w.0) same),
        )
    | inr no4 ↦ elim (Bool-cases (atyp == atyp_ipv6)) [
      | inl six ↦
          let ((b, c1), read, last) =
            bind_done (read_n 16 c) _ (host, r) (rw (no4, six, read_host) at h) in
          let (whole, size) = read_n_split 16 c b c1 read in
          let same = done_inj last in
          (
            ipv6 b,
            size,
            (==_iff atyp atyp_ipv6).0 six,
            rw (← ap (λ w. w.1) same) whole,
            sym (ap (λ w. w.0) same),
          )
      | inr no6 ↦ elim (Bool-cases (atyp == atyp_domain)) [
        | inl name ↦
            let ((l, c1), read, last) =
              bind_done (read_n 1 c) _ (host, r) (rw (no4, no6, name, read_host) at h) in
            let (whole, one) = read_n_split 1 c l c1 read in
            let (body, count) = read_n_split (byte_at l 0) c1 host r last in
            let byte = byte_at-IsByte l 0 (All-split IsByte l c1 (rw whole at bytes)).0 in
            (
              domain host,
              rw count byte,
              (==_iff atyp atyp_domain).0 name,
              domain_parts c l c1 host r whole one body count,
              refl,
            )
        | inr other ↦ elim (failed_ne (rw (no4, no6, other, read_host) at h)) [ ]
      ]
    ]
  ]

  request_parts :
      (c head c1 c2 pb rest : Bytes) (a : Address)
      → All IsByte c
      → c ≡ head ++ c1
      → length head ≡ 4
      → byte_at head 0 ≡ ver5
      → byte_at head 1 ≡ cmd_connect
      → byte_at head 3 ≡ atyp_of a
      → c1 ≡ address_body a ++ c2
      → c2 ≡ pb ++ rest
      → length pb ≡ 2
      → (get_be 0 pb < 65536) × (c ≡ encode_request (byte_at head 2) a (get_be 0 pb) ++ rest)
  unfolding encode_request
  request_parts c head c1 c2 pb rest a bytes whole four version command atyp body tail two =
      let in_c1 = (All-split IsByte head c1 (rw whole at bytes)).1 in
      let in_c2 = (All-split IsByte (address_body a) c2 (rw body at in_c1)).1 in
      let in_pb = (All-split IsByte pb rest (rw tail at in_c2)).0 in
      (
        rw two at (get_be-lt pb in_pb),
        whole
            ∙ ap (λ h. h ++ c1) (shape_four head four)
            ∙ rw
                (
                  version,
                  command,
                  atyp,
                  body,
                  tail,
                  rw two at (put_be-get_be pb 0 in_pb),
                  append_assoc (address_body a) pb rest,
                )
                refl,
      )

  -- Whatever readRequest accepts is a CONNECT request, for the host and port that it returns.
  pub read_request_sound :
      (c host rest : Bytes) (port : ℕ)
      → All IsByte c
      → read_request ip_string c ≡ done ((host, port), rest)
      → (rsv : ℕ) × (a : Address) × IsAddress a
        × (port < 65536)
        × (host ≡ host_of ip_string a)
        × (c ≡ encode_request rsv a port ++ rest)
  unfolding read_request
  read_request_sound c host rest port bytes h =
      let ((head, c1), read, h1) = bind_done (read_n 4 c) _ ((host, port), rest) h in
      let (t, version, h2) =
        bind_done (require (byte_at head 0 == ver5) (bad_version (byte_at head 0))) _ _ h1 in
      let (u, command, h3) =
        bind_done (require (byte_at head 1 == cmd_connect) cmd_not_supported) _ _ h2 in
      let ((host', c2), hosted, h4) = bind_done (read_host ip_string (byte_at head 3) c1) _ _ h3 in
      let ((pb, c3), ported, last) = bind_done (read_n 2 c2) _ _ h4 in
      let (whole, four) = read_n_split 4 c head c1 read in
      let (a, good, atyp, body, text) =
        read_host_sound (byte_at head 3) c1 host' c2
          (All-split IsByte head c1 (rw whole at bytes)).1 hosted in
      let (tail, two) = read_n_split 2 c2 pb c3 ported in
      let same = done_inj last in
      let port_same = ap (λ w. w.0.1) same in
      let (small, exact) =
        request_parts c head c1 c2 pb c3 a bytes whole four
          ((==_iff (byte_at head 0) ver5).0 (require_done _ _ t version))
          ((==_iff (byte_at head 1) cmd_connect).0 (require_done _ _ u command)) atyp body tail
          two in
      (
        byte_at head 2,
        a,
        good,
        subst (λ p. p < 65536) port_same small,
        sym (ap (λ w. w.0.0) same) ∙ text,
        exact
            ∙ ap₂ (λ p r. encode_request (byte_at head 2) a p ++ r) port_same (ap (λ w. w.1) same),
      )
