-- ===== src/Oidc/Verify.antt =====
-- internal/oidc/oidc.go: Verify, with the claims that it reads and checks.
use Prim.Native.String.{◌++◌ as text_append}
use revquic.Prelude.{ℕ, Option, none, some, List, [], ◌∷◌, String, str_eq, not, ◌&&◌, ◌||◌}
use revquic.Prelude.Assoc.{lookup, string_key}
use revquic.Prelude.Int.{ℤ, pos, eq_zero, below}
use revquic.Oidc.{
  Claims, PublicKey, Header, Verifier, bad_base64, bad_json, unsupported_alg, malformed,
  signature_invalid, wrong_issuer, wrong_audience, expired, Result, ok, err, ◌>>=◌, or_err, require,
  Env, split_dots, contains, key_for,
}

-- The three tests of the claims, at the time `now` in seconds.
unfoldable pub check_claims : Verifier → ℕ → Claims → Result Claims
unfolding require contains
check_claims v now c = do
  issued ← require (str_eq c.issuer v.issuer) wrong_issuer
  meant ← require (str_eq v.audience "" || contains c.audience v.audience) wrong_audience
  live ← require (not (eq_zero c.expiry) && below now c.expiry) expired
  ok c

module _ {R : Type 0} (env : Env R) where
  -- jsonStr into a string that is still empty.
  unfoldable pub json_str : Option R → String
  json_str none = ""
  json_str (some r) = elim (env.json_string r) [ some s ↦ s | none ↦ "" ]

  unfoldable pub parse_aud : Option R → List String
  parse_aud none = []
  parse_aud (some r) = elim (env.json_string r) [ some s ↦ s ∷ [] | none ↦ env.json_strings r ]

  unfoldable pub parse_exp : Option R → ℤ
  parse_exp none = pos 0
  parse_exp (some r) = elim (env.json_int r) [ some n ↦ n | none ↦ pos 0 ]

  unfoldable pub read_claims : List (String × R) → Claims
  unfolding json_str parse_aud parse_exp
  read_claims m = record {
    subject = json_str (lookup "sub" m);
    email = json_str (lookup "email" m);
    issuer = json_str (lookup "iss" m);
    audience = parse_aud (lookup "aud" m);
    expiry = parse_exp (lookup "exp" m);
  }

  -- The header of a token, which must ask for RS256.
  unfoldable pub read_header : String → Result Header
  unfolding or_err require
  read_header text = do
    hdr_bytes ← or_err (env.decode64 text) bad_base64
    hdr ← or_err (env.json_header hdr_bytes) bad_json
    rs256 ← require (str_eq hdr.alg "RS256") unsupported_alg
    ok hdr

  -- Verify from the signature on.
  unfoldable pub verify_signed :
      Verifier → ℕ → PublicKey → (header payload signature : String) → Result Claims
  unfolding or_err require read_claims check_claims
  verify_signed v now key header payload signature = do
    sig ← or_err (env.decode64 signature) bad_base64
    signed ←
        require (env.verify_sig key (text_append header (text_append "." payload)) sig)
          signature_invalid
    body ← or_err (env.decode64 payload) bad_base64
    m ← or_err (env.json_claims body) bad_json
    check_claims v now (read_claims m)

  -- Verify of a token in three parts.
  unfoldable pub verify_parts :
      Verifier → ℕ → (header payload signature : String) → Verifier × Result Claims
  unfolding read_header key_for verify_signed
  verify_parts v now header payload signature = elim (read_header header) [
    | err e ↦ (v, err e)
    | ok hdr ↦
        let (v', found) = key_for env v hdr.kid in
        (v', found >>= (λ key. verify_signed v' now key header payload signature))
  ]

  unfoldable pub verify : Verifier → ℕ → String → Verifier × Result Claims
  unfolding split_dots verify_parts
  verify v now raw = elim (split_dots raw) [
    | header ∷ payload ∷ signature ∷ [] ↦ verify_parts v now header payload signature
    | _ ↦ (v, err malformed)
  ]
