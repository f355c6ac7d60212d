-- ===== src/Oidc/Sound.antt =====
-- Which ID tokens internal/oidc/oidc.go accepts.
use Prim.Native.String.{◌++◌ as text_append}
use revquic.Prelude.{
  ℕ, ◌≡◌, refl, sym, ap, subst, ◌==◌, ◌∙◌, inl, inr, ◌⊎◌, Bool, true, false, Option, none, some,
  List, [], ◌∷◌, String, str_eq, eq_iff, not, ◌&&◌, ◌||◌, arith, Bool-cases, Option-cases,
}
use revquic.Prelude.Assoc.{lookup, string_key}
use revquic.Prelude.Int.{eq_zero, below}
use revquic.Proto.Datagram.{Bytes}
use revquic.Oidc.{
  Claims, PublicKey, Header, Verifier, OidcError, bad_base64, bad_json, unsupported_alg,
  signature_invalid, wrong_issuer, wrong_audience, expired, Result, ok, err, ◌>>=◌, or_err, require,
  Env, split_dots, contains, key_for, refresh, parse_jwks, fetch_failed,
}
use revquic.Oidc.Verify.{
  read_claims, read_header, check_claims, verify_signed, verify_parts, verify,
}

pub err_ne {ℓ} : {A : Type ℓ} {e : OidcError} {a : A} → ¬ (err e ≡ ok a)
err_ne h = cc

pub ok_inj {ℓ} : {A : Type ℓ} {a b : A} → ok a ≡ ok b → a ≡ b
ok_inj h = cc

-- A chain that succeeds has succeeded at its first step.
pub bind_ok {ℓ κ} :
    {A : Type ℓ} {B : Type κ} (p : Result A) (f : A → Result B) (b : B)
    → (p >>= f) ≡ ok b
    → (a : A) × (p ≡ ok a) × (f a ≡ ok b)
bind_ok (ok a) f b h = (a, refl, h)
bind_ok (err e) f b h = elim (err_ne h) [ ]

pub Result-cases {ℓ} :
    {A : Type ℓ} (p : Result A) → ((e : OidcError) × (p ≡ err e)) ⊎ ((a : A) × (p ≡ ok a))
Result-cases (err e) = inl (e, refl)
Result-cases (ok a) = inr (a, refl)

pub or_err_ok {ℓ} :
    {A : Type ℓ} (o : Option A) (e : OidcError) (a : A) → or_err o e ≡ ok a → o ≡ some a
unfolding or_err
or_err_ok none e a h = elim (err_ne h) [ ]
or_err_ok (some b) e a h = ap some (ok_inj h)

pub require_ok : (b : Bool) (e : OidcError) (t : Bool) → require b e ≡ ok t → b ≡ true
unfolding require
require_ok true e t h = refl
require_ok false e t h = elim (err_ne h) [ ]

check_claims_ok :
    (v : Verifier) (now : ℕ) (c d : Claims)
    → check_claims v now c ≡ ok d
    → (c ≡ d)
      × (d.issuer ≡ v.issuer)
      × ((v.audience ≡ "") ⊎ (contains d.audience v.audience ≡ true))
      × (eq_zero d.expiry ≡ false)
      × (below now d.expiry ≡ true)
unfolding check_claims
check_claims_ok v now c d h =
    let (t, issued, h1) = bind_ok (require (str_eq c.issuer v.issuer) wrong_issuer) _ d h in
    let (u, meant, h2) =
      bind_ok (require (str_eq v.audience "" || contains c.audience v.audience) wrong_audience) _ d
        h1 in
    let (w, live, h3) =
      bind_ok (require (not (eq_zero c.expiry) && below now c.expiry) expired) _ d h2 in
    let same = ok_inj h3 in
    let (not_zero, later) = both (eq_zero c.expiry) (below now c.expiry) (require_ok _ _ w live) in
    (
      same,
      ap (λ x. x.issuer) (sym same) ∙ (eq_iff c.issuer v.issuer).0 (require_ok _ _ t issued),
      subst (λ x. (v.audience ≡ "") ⊎ (contains x.audience v.audience ≡ true)) same
          (either v.audience (contains c.audience v.audience) (require_ok _ _ u meant)),
      ap (λ x. eq_zero x.expiry) (sym same) ∙ not_zero,
      ap (λ x. below now x.expiry) (sym same) ∙ later,
    )
  where
    both : (z b : Bool) → (not z && b) ≡ true → (z ≡ false) × (b ≡ true)
    both z b e = ground arith

    either : (a : String) (b : Bool) → (str_eq a "" || b) ≡ true → (a ≡ "") ⊎ (b ≡ true)
    either a b e = elim (Bool-cases (str_eq a "")) [
      | inl blank ↦ inl ((eq_iff a "").0 blank)
      | inr full ↦ inr (rw full at e)
    ]

module _ {R : Type 0} (env : Env R) where
  -- A token's header, signature and payload with what they stand for, for a verifier with its keys.
  pub record IsGenuine (v : Verifier) (now : ℕ) (header payload signature : String) (c : Claims)
      : Type 0 where
    pub hdr_bytes : Bytes
    pub hdr : Header
    pub hdr_decoded : env.decode64 header ≡ some hdr_bytes
    pub hdr_parsed : env.json_header hdr_bytes ≡ some hdr
    pub rs256 : hdr.alg ≡ "RS256"
    pub key : PublicKey
    pub known : lookup hdr.kid v.keys ≡ some key
    pub sig : Bytes
    pub sig_decoded : env.decode64 signature ≡ some sig
    pub signed : env.verify_sig key (text_append header (text_append "." payload)) sig ≡ true
    pub body : Bytes
    pub body_decoded : env.decode64 payload ≡ some body
    pub fields : List (String × R)
    pub body_parsed : env.json_claims body ≡ some fields
    pub claims : c ≡ read_claims env fields
    pub issued : c.issuer ≡ v.issuer
    pub meant : (v.audience ≡ "") ⊎ (contains c.audience v.audience ≡ true)
    pub live : (eq_zero c.expiry ≡ false) × (below now c.expiry ≡ true)

  verify_signed_ok :
      (v : Verifier) (now : ℕ) (hdr_bytes : Bytes) (hdr : Header) (key : PublicKey)
      (header payload signature : String) (c : Claims)
      → env.decode64 header ≡ some hdr_bytes
      → env.json_header hdr_bytes ≡ some hdr
      → hdr.alg ≡ "RS256"
      → lookup hdr.kid v.keys ≡ some key
      → verify_signed env v now key header payload signature ≡ ok c
      → IsGenuine v now header payload signature c
  unfolding verify_signed
  verify_signed_ok v now hdr_bytes hdr key header payload signature c decoded parsed alg known h =
      let (sig, sig_ok, h1) = bind_ok (or_err (env.decode64 signature) bad_base64) _ c h in
      let (t, signed, h2) =
        bind_ok
          (require (env.verify_sig key (text_append header (text_append "." payload)) sig)
            signature_invalid)
          _ c h1 in
      let (body, body_ok, h3) = bind_ok (or_err (env.decode64 payload) bad_base64) _ c h2 in
      let (m, m_ok, h4) = bind_ok (or_err (env.json_claims body) bad_json) _ c h3 in
      let (same, issued, meant, not_zero, later) = check_claims_ok v now (read_claims env m) c h4 in
      record {
        hdr_bytes = hdr_bytes;
        hdr = hdr;
        hdr_decoded = decoded;
        hdr_parsed = parsed;
        rs256 = alg;
        key = key;
        known = known;
        sig = sig;
        sig_decoded = or_err_ok _ _ sig sig_ok;
        signed = require_ok _ _ t signed;
        body = body;
        body_decoded = or_err_ok _ _ body body_ok;
        fields = m;
        body_parsed = or_err_ok _ _ m m_ok;
        claims = sym same;
        issued = issued;
        meant = meant;
        live = (not_zero, later);
      }

  read_header_ok :
      (text : String) (hdr : Header)
      → read_header env text ≡ ok hdr
      → (b : Bytes) × (env.decode64 text ≡ some b)
        × (env.json_header b ≡ some hdr)
        × (hdr.alg ≡ "RS256")
  unfolding read_header
  read_header_ok text hdr h =
      let (b, b_ok, h1) = bind_ok (or_err (env.decode64 text) bad_base64) _ hdr h in
      let (hdr', hdr_ok, h2) = bind_ok (or_err (env.json_header b) bad_json) _ hdr h1 in
      let (t, alg, h3) = bind_ok (require (str_eq hdr'.alg "RS256") unsupported_alg) _ hdr h2 in
      let same = ok_inj h3 in
      (
        b,
        or_err_ok _ _ b b_ok,
        or_err_ok _ _ hdr' hdr_ok ∙ ap some same,
        ap (λ x. x.alg) (sym same) ∙ (eq_iff hdr'.alg "RS256").0 (require_ok _ _ t alg),
      )

  refresh_keeps :
      (v v' : Verifier)
      → refresh env v ≡ ok v'
      → (v'.issuer ≡ v.issuer) × (v'.audience ≡ v.audience)
  unfolding refresh
  refresh_keeps v v' h =
      let ((status, body), _, h1) = bind_ok (or_err (env.fetch v.jwks_url) fetch_failed) _ v' h in
      let (t, _, h2) = bind_ok (require (status == 200) fetch_failed) _ v' h1 in
      let (keys, _, h3) = bind_ok (parse_jwks env body) _ v' h2 in
      let same = ok_inj h3 in (ap (λ x. x.issuer) (sym same), ap (λ x. x.audience) (sym same))

  key_for_ok :
      (v : Verifier) (kid : String) (key : PublicKey)
      → (key_for env v kid).1 ≡ ok key
      → let v' = (key_for env v kid).0 in
        (lookup kid v'.keys ≡ some key) × (v'.issuer ≡ v.issuer) × (v'.audience ≡ v.audience)
  unfolding key_for
  key_for_ok v kid key h = elim (Option-cases (lookup kid v.keys)) [
    | inr (k, held) ↦
        rw (held, key_for) (held ∙ ap some (ok_inj (rw (held, key_for) at h)), refl, refl)
    | inl absent ↦ elim (Bool-cases (str_eq v.jwks_url "")) [
      | inl static ↦ elim (err_ne (rw (absent, static, key_for) at h)) [ ]
      | inr fetches ↦ elim (Result-cases (refresh env v)) [
        | inl (e, bad) ↦ elim (err_ne (rw (absent, fetches, bad, key_for) at h)) [ ]
        | inr (v', fresh) ↦
            let (issuer, audience) = refresh_keeps v v' fresh in
            rw (absent, fetches, fresh, key_for)
              (or_err_ok _ _ key (rw (absent, fetches, fresh, key_for) at h), issuer, audience)
      ]
    ]
  ]

  IsAccepted : Verifier → ℕ → String → Claims → Type 0
  IsAccepted v now raw c =
      let v' = (verify env v now raw).0 in
      (header : String) × (payload : String) × (signature : String) × (split_dots raw
        ≡ header ∷ payload ∷ signature ∷ [])
      × IsGenuine v' now header payload signature c
      × (v'.issuer ≡ v.issuer)
      × (v'.audience ≡ v.audience)

  verify_parts_ok :
      (v : Verifier) (now : ℕ) (header payload signature : String) (c : Claims)
      → (verify_parts env v now header payload signature).1 ≡ ok c
      → let v' = (verify_parts env v now header payload signature).0 in
        IsGenuine v' now header payload signature c
        × (v'.issuer ≡ v.issuer)
        × (v'.audience ≡ v.audience)
  unfolding verify_parts
  verify_parts_ok v now header payload signature c h =
      elim (Result-cases (read_header env header)) [
        | inl (e, bad) ↦ elim (err_ne (rw (bad, verify_parts) at h)) [ ]
        | inr (hdr, good) ↦
            let (b, decoded, parsed, alg) = read_header_ok header hdr good in
            let v' = (key_for env v hdr.kid).0 in
            let (key, found, signed) =
              bind_ok (key_for env v hdr.kid).1 _ c (rw (good, verify_parts) at h) in
            let (known, issuer, audience) = key_for_ok v hdr.kid key found in
            rw (good, verify_parts)
              (
                verify_signed_ok v' now b hdr key header payload signature c decoded parsed alg
                    known signed,
                issuer,
                audience,
              )
      ]

  verify_split :
      (v : Verifier) (now : ℕ) (raw : String) (c : Claims) (parts : List String)
      → split_dots raw ≡ parts
      → (verify env v now raw).1 ≡ ok c
      → IsAccepted v now raw c
  unfolding verify IsAccepted
  verify_split v now raw c [] e h = elim (err_ne (rw (e, verify) at h)) [ ]
  verify_split v now raw c (a ∷ []) e h = elim (err_ne (rw (e, verify) at h)) [ ]
  verify_split v now raw c (a ∷ b ∷ []) e h = elim (err_ne (rw (e, verify) at h)) [ ]
  verify_split v now raw c (a ∷ b ∷ d ∷ []) e h =
      let (genuine, issuer, audience) = verify_parts_ok v now a b d c (rw (e, verify) at h) in
      (a, b, d, e, rw (e, verify) genuine, rw (e, verify) issuer, rw (e, verify) audience)
  verify_split v now raw c (a ∷ b ∷ d ∷ f ∷ rest) e h = elim (err_ne (rw (e, verify) at h)) [ ]

  -- Verify accepts a token only if it has three parts, its header asks for RS256, the signature is
  -- valid under the key that the verifier has then under the header's key id, and the claims in the
  -- payload name the verifier's issuer, have its audience among theirs if it wants one, and give an
  -- expiry time that is still to come.
  pub verify-IsGenuine :
      (v : Verifier) (now : ℕ) (raw : String) (c : Claims)
      → (verify env v now raw).1 ≡ ok c
      → let v' = (verify env v now raw).0 in
        (header : String) × (payload : String) × (signature : String) × (split_dots raw
          ≡ header ∷ payload ∷ signature ∷ [])
        × IsGenuine v' now header payload signature c
        × (v'.issuer ≡ v.issuer)
        × (v'.audience ≡ v.audience)
  unfolding IsAccepted
  verify-IsGenuine v now raw c h = verify_split v now raw c (split_dots raw) refl h
