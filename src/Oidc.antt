-- ===== src/Oidc.antt =====
-- internal/oidc/oidc.go: the verifier of ID tokens.
-- encoding/json, encoding/base64, RSA with SHA-256 and net/http are parameters (`Env`), and so is the
-- clock. Missing raw JSON (a length of 0) is `none`.
pub mod Verify
pub mod Sound
pub mod Keys
mod Tests
use Prim.Native.Char.{Char, code}
use Prim.Native.String.{◌++◌ as text_append}
use revquic.Prelude.{
  ℕ, ◌+◌, ◌*◌, ◌%◌, ◌^◌, Bool, true, false, Option, none, some, List, [], ◌∷◌, String, str_eq, ltb,
  ◌==◌, not, ◌&&◌, ◌||◌, if◌then◌else◌,
}
use revquic.Prelude.Assoc.{lookup, insert, string_key}
use revquic.Prelude.Int.{ℤ, pos, eq_zero, below}
use revquic.Proto.Datagram.{Bytes, get_be}

pub record Claims : Type 0 where
  pub subject : String
  pub email : String
  pub issuer : String
  pub audience : List String
  pub expiry : ℤ

-- Identity
unfoldable pub identity_of : Claims → String
identity_of c = if not (str_eq c.email "") then c.email else c.subject

-- rsa.PublicKey; the exponent is Go's int as a word.
pub record PublicKey : Type 0 where
  pub n : ℕ
  pub e : ℕ

pub record Jwk : Type 0 where
  pub kty : String
  pub kid : String
  pub n : String
  pub e : String

pub record Header : Type 0 where
  pub alg : String
  pub kid : String

pub record Verifier : Type 0 where
  pub issuer : String
  pub audience : String
  pub keys : List (String × PublicKey)
  pub jwks_url : String

pub data OidcError : Type 0 where
  malformed bad_base64 bad_json unsupported_alg unknown_key fetch_failed bad_exponent no_rsa_keys :
      OidcError
  not_in_jwks signature_invalid wrong_issuer wrong_audience expired : OidcError

pub data Result {ℓ} (A : Type ℓ) : Type ℓ where
  ok : A → Result A
  err : OidcError → Result A

infixl 5 ◌>>=◌
abbrev pub ◌>>=◌ {ℓ κ} : {A : Type ℓ} {B : Type κ} → Result A → (A → Result B) → Result B
ok a >>= f = f a
err e >>= f = err e

unfoldable pub or_err {ℓ} : {A : Type ℓ} → Option A → OidcError → Result A
or_err none e = err e
or_err (some a) e = ok a

unfoldable pub require : Bool → OidcError → Result Bool
require true e = ok true
require false e = err e

-- What the verifier calls; `R` is json.RawMessage. `fetch` answers the status and what the one Read of
-- the body gives; `verify_sig` is VerifyPKCS1v15 of the SHA-256 of the text.
pub record Env (R : Type 0) : Type 0 where
  pub decode64 : String → Option Bytes
  pub json_header : Bytes → Option Header
  pub json_jwks : Bytes → Option (List Jwk)
  pub json_claims : Bytes → Option (List (String × R))
  pub json_string : R → Option String
  pub json_strings : R → List String
  pub json_int : R → Option ℤ
  pub fetch : String → Option (ℕ × Bytes)
  pub verify_sig : PublicKey → String → Bytes → Bool

-- One more character in the first of some parts.
abbrev onto_first : Char → List String → List String
onto_first c [] = String.◌∷◌ c String.[] ∷ []
onto_first c (p ∷ ps) = String.◌∷◌ c p ∷ ps

-- strings.Split(raw, ".")
unfoldable pub split_dots : String → List String
split_dots String.[] = String.[] ∷ []
split_dots (String.◌∷◌ c s) =
    let rest = split_dots s in if code c == 46 then String.[] ∷ rest else onto_first c rest

-- The big-endian exponent, shifted in Go's int.
unfoldable pub exponent : ℕ → Bytes → ℕ
exponent e [] = e
exponent e (b ∷ bs) = exponent ((e * 256 + b) % 2 ^ 64) bs

-- contains
unfoldable pub contains : List String → String → Bool
contains [] s = false
contains (x ∷ xs) s = let rest = contains xs s in if str_eq x s then true else rest

-- len(out) == 0
abbrev pub is_none_left : List (String × PublicKey) → Bool
is_none_left [] = true
is_none_left (k ∷ ks) = false

module _ {R : Type 0} (env : Env R) where
  -- One RSA key of a JWKS.
  unfoldable pub rsa_key : Jwk → Result PublicKey
  unfolding or_err require exponent
  rsa_key k = do
    nb ← or_err (env.decode64 k.n) bad_base64
    eb ← or_err (env.decode64 k.e) bad_base64
    usable ← require (not (exponent 0 eb == 0)) bad_exponent
    ok (record { n = get_be 0 nb; e = exponent 0 eb })

  -- The loop of parseJWKS, with the keys so far.
  unfoldable pub collect_keys :
      List (String × PublicKey) → List Jwk → Result (List (String × PublicKey))
  unfolding rsa_key
  collect_keys out [] = ok out
  collect_keys out (k ∷ ks) =
      let skipped = collect_keys out ks in
      if str_eq k.kty "RSA"
      then elim (rsa_key k) [ err e ↦ err e | ok key ↦ collect_keys (insert k.kid key out) ks ]
      else skipped

  unfoldable pub parse_jwks : Bytes → Result (List (String × PublicKey))
  unfolding or_err require collect_keys
  parse_jwks data_bytes = do
    set ← or_err (env.json_jwks data_bytes) bad_json
    out ← collect_keys [] set
    some_key ← require (not (is_none_left out)) no_rsa_keys
    ok out

  unfoldable pub new_static_verifier : String → String → Bytes → Result Verifier
  unfolding parse_jwks
  new_static_verifier issuer audience jwks = do
    keys ← parse_jwks jwks
    ok (record { issuer = issuer; audience = audience; keys = keys; jwks_url = "" })

  -- refresh
  unfoldable pub refresh : Verifier → Result Verifier
  unfolding or_err require parse_jwks
  refresh v = do
    (status, body) ← or_err (env.fetch v.jwks_url) fetch_failed
    fine ← require (status == 200) fetch_failed
    keys ← parse_jwks body
    ok (record v { keys = keys })

  -- keyFor
  unfoldable pub key_for : Verifier → String → Verifier × Result PublicKey
  unfolding refresh or_err
  key_for v kid = elim (lookup kid v.keys) [
    | some k ↦ (v, ok k)
    | none ↦ if str_eq v.jwks_url "" then (v, err unknown_key) else elim (refresh v) [
      | err e ↦ (v, err e)
      | ok v' ↦ (v', or_err (lookup kid v'.keys) not_in_jwks)
    ]
  ]

unfoldable pub new_url_verifier : String → String → String → Verifier
new_url_verifier issuer audience jwks_url = record {
  issuer = issuer;
  audience = audience;
  keys = [];
  jwks_url = jwks_url;
}
