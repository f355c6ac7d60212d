-- ===== src/Oidc/Keys.antt =====
-- Where the keys of internal/oidc/oidc.go come from.
use mathlib.Core.List.{Memᴰ}
use mathlib.Core.List.Memᴰ as MemD
use revquic.Prelude.{
  ◌≡◌, refl, sym, ap, subst, ◌∙◌, inl, inr, ◌⊎◌, Bool, true, false, none, some, List, [], ◌∷◌,
  String, str_eq, eq_iff, not, arith, Bool-cases, none_ne, some_inj, ◌==◌, ==_iff,
}
use revquic.Prelude.Assoc.{lookup, insert, lookup-insert, string_key}
use revquic.Proto.Datagram.{Bytes, get_be}
use revquic.Oidc.{
  PublicKey, Jwk, Verifier, bad_base64, bad_json, bad_exponent, no_rsa_keys, fetch_failed,
  not_in_jwks, ok, or_err, require, Env, key_for, refresh, rsa_key, exponent, collect_keys,
  parse_jwks, is_none_left,
}
use revquic.Oidc.Sound.{err_ne, ok_inj, bind_ok, or_err_ok, require_ok, Result-cases}

module _ {R : Type 0} (env : Env R) where
  -- A key of a JWKS: an RSA entry with that id, whose exponent is not 0.
  pub record IsListed (set : List Jwk) (kid : String) (key : PublicKey) : Type 0 where
    pub entry : Jwk
    pub listed : Memᴰ entry set
    pub rsa : entry.kty ≡ "RSA"
    pub named : entry.kid ≡ kid
    pub modulus : Bytes
    pub modulus_decoded : env.decode64 entry.n ≡ some modulus
    pub modulus_read : key.n ≡ get_be 0 modulus
    pub exponent_set : (key.e == 0) ≡ false

  later_entry :
      (k : Jwk) (set : List Jwk) (kid : String) (key : PublicKey)
      → IsListed set kid key
      → IsListed (k ∷ set) kid key
  later_entry k set kid key l = record {
    entry = l.entry;
    listed = MemD.tail l.listed;
    rsa = l.rsa;
    named = l.named;
    modulus = l.modulus;
    modulus_decoded = l.modulus_decoded;
    modulus_read = l.modulus_read;
    exponent_set = l.exponent_set;
  }

  rsa_key-IsListed :
      (k : Jwk) (set : List Jwk) (key : PublicKey)
      → k.kty ≡ "RSA"
      → rsa_key env k ≡ ok key
      → IsListed (k ∷ set) k.kid key
  unfolding rsa_key
  rsa_key-IsListed k set key rsa h =
      let (nb, nb_ok, h1) = bind_ok (or_err (env.decode64 k.n) bad_base64) _ key h in
      let (eb, _, h2) = bind_ok (or_err (env.decode64 k.e) bad_base64) _ key h1 in
      let (t, usable, h3) = bind_ok (require (not (exponent 0 eb == 0)) bad_exponent) _ key h2 in
      let same = ok_inj h3 in
      record {
        entry = k;
        listed = MemD.head refl;
        rsa = rsa;
        named = refl;
        modulus = nb;
        modulus_decoded = or_err_ok _ _ nb nb_ok;
        modulus_read = ap (λ x. x.n) (sym same);
        exponent_set =
            ap (λ x. x.e == 0) (sym same) ∙ flip (exponent 0 eb == 0) (require_ok _ _ t usable);
      }
    where
      flip : (b : Bool) → not b ≡ true → b ≡ false
      flip b e = ground arith

  collect_keys-IsListed :
      (out res : List (String × PublicKey)) (set : List Jwk) (kid : String) (key : PublicKey)
      → collect_keys env out set ≡ ok res
      → lookup kid res ≡ some key
      → (lookup kid out ≡ some key) ⊎ IsListed set kid key
  unfolding collect_keys
  collect_keys-IsListed out res [] kid key h held = inl (ap (lookup kid) (ok_inj h) ∙ held)
  collect_keys-IsListed out res (k ∷ set) kid key h held = elim (Bool-cases (str_eq k.kty "RSA")) [
    | inr other ↦ elim (collect_keys-IsListed out res set kid key (rw other at h) held) [
      | inl before ↦ inl before
      | inr listed ↦ inr (later_entry k set kid key listed)
    ]
    | inl rsa ↦ elim (Result-cases (rsa_key env k)) [
      | inl (e, bad) ↦ elim (err_ne (rw (rsa, bad) at h)) [ ]
      | inr (new, built) ↦
          elim (collect_keys-IsListed (insert k.kid new out) res set kid key (rw (rsa, built) at h)
            held) [
              | inr listed ↦ inr (later_entry k set kid key listed)
              | inl there ↦ elim (Bool-cases (str_eq k.kid kid)) [
                | inr other ↦ inl (rw (lookup-insert k.kid kid new out, other) at there)
                | inl same ↦
                    let new_key : new ≡ key =
                      some_inj (rw (lookup-insert k.kid kid new out, same) at there) in
                    inr (
                      subst (λ i. IsListed (k ∷ set) i key) ((eq_iff k.kid kid).0 same)
                        (subst (λ p. IsListed (k ∷ set) k.kid p) new_key
                          (rsa_key-IsListed k set new ((eq_iff k.kty "RSA").0 rsa) built)))
              ]
            ]
    ]
  ]

  parse_jwks_ok :
      (body : Bytes) (keys : List (String × PublicKey))
      → parse_jwks env body ≡ ok keys
      → (set : List Jwk) × (env.json_jwks body ≡ some set) × (collect_keys env [] set ≡ ok keys)
  unfolding parse_jwks
  parse_jwks_ok body keys h =
      let (set, parsed, h1) = bind_ok (or_err (env.json_jwks body) bad_json) _ keys h in
      let (out, built, h2) = bind_ok (collect_keys env [] set) _ keys h1 in
      let (t, _, h3) = bind_ok (require (not (is_none_left out)) no_rsa_keys) _ keys h2 in
      (set, or_err_ok _ _ set parsed, built ∙ h3)

  refresh_ok :
      (v v' : Verifier)
      → refresh env v ≡ ok v'
      → (body : Bytes) × (set : List Jwk) × (env.fetch v.jwks_url ≡ some (200, body))
        × (env.json_jwks body ≡ some set)
        × (collect_keys env [] set ≡ ok v'.keys)
  unfolding refresh
  refresh_ok v v' h =
      let ((status, body), answer, h1) =
        bind_ok (or_err (env.fetch v.jwks_url) fetch_failed) _ v' h in
      let (t, fine, h2) = bind_ok (require (status == 200) fetch_failed) _ v' h1 in
      let (keys, read, h3) = bind_ok (parse_jwks env body) _ v' h2 in
      let (set, parsed, built) = parse_jwks_ok body keys read in
      (
        body,
        set,
        or_err_ok _ _ (status, body) answer
            ∙ ap (λ s. some (s, body)) ((==_iff status 200).0 (require_ok _ _ t fine)),
        parsed,
        built ∙ ap (λ x. ok x.keys) (ok_inj h3),
      )

  key_for_fetched :
      (v v' : Verifier) (kid : String)
      → lookup kid v.keys ≡ none
      → str_eq v.jwks_url "" ≡ false
      → refresh env v ≡ ok v'
      → key_for env v kid ≡ (v', or_err (lookup kid v'.keys) not_in_jwks)
  unfolding key_for
  key_for_fetched v v' kid absent fetches fresh = rw (absent, fetches, fresh, key_for) refl

  key_for_fetches :
      (v : Verifier) (kid : String) (key : PublicKey)
      → lookup kid v.keys ≡ none
      → (key_for env v kid).1 ≡ ok key
      → (v' : Verifier) × (refresh env v ≡ ok v') × (str_eq v.jwks_url "" ≡ false)
  unfolding key_for
  key_for_fetches v kid key absent h = elim (Bool-cases (str_eq v.jwks_url "")) [
    | inl static ↦ elim (err_ne (rw (absent, static, key_for) at h)) [ ]
    | inr fetches ↦ elim (Result-cases (refresh env v)) [
      | inl (e, bad) ↦ elim (err_ne (rw (absent, fetches, bad, key_for) at h)) [ ]
      | inr (v', fresh) ↦ (v', fresh, fetches)
    ]
  ]

  -- A key id that the verifier does not know yet is answered only with a key that is in the JWKS
  -- which is fetched for it then, with the status 200: an RSA key with that id and an exponent other
  -- than 0. The verifier's keys are afterwards those of that JWKS alone.
  pub key_for-IsListed :
      (v : Verifier) (kid : String) (key : PublicKey)
      → lookup kid v.keys ≡ none
      → (key_for env v kid).1 ≡ ok key
      → (body : Bytes) × (set : List Jwk) × (env.fetch v.jwks_url ≡ some (200, body))
        × (env.json_jwks body ≡ some set)
        × IsListed set kid key
        × (collect_keys env [] set ≡ ok (key_for env v kid).0.keys)
  unfolding lookup
  key_for-IsListed v kid key absent h =
      let (v', fresh, fetches) = key_for_fetches v kid key absent h in
      let answer = key_for_fetched v v' kid absent fetches fresh in
      let (body, set, fetched, parsed, built) = refresh_ok v v' fresh in
      let held = or_err_ok _ _ key (ap (λ x. x.1) (sym answer) ∙ h) in
      elim (collect_keys-IsListed [] v'.keys set kid key built held) [
        | inl before ↦ elim (none_ne before) [ ]
        | inr listed ↦
            (body, set, fetched, parsed, listed, built ∙ ap (λ x. ok x.0.keys) (sym answer))
      ]
