-- ===== src/Oidc/Tests.antt =====
-- A token whose parts are single letters, under the one key of a JWKS.
use revquic.Prelude.{◌≡◌, refl, true, none, some, List, [], ◌∷◌, String, str_eq, if◌then◌else◌}
use revquic.Prelude.Assoc.{lookup, insert, string_key}
use revquic.Prelude.Int.{pos}
use revquic.Proto.Datagram.{Bytes, get_be}
use revquic.Oidc.{
  Claims, PublicKey, Jwk, Verifier, ok, err, wrong_issuer, expired, unknown_key, or_err, require,
  Env, split_dots, contains, exponent, rsa_key, collect_keys, parse_jwks, refresh, key_for,
}
use revquic.Oidc.Verify.{
  read_claims, json_str, parse_aud, parse_exp, read_header, check_claims, verify_signed,
  verify_parts, verify,
}
use revquic.Oidc.Sound.{IsGenuine, verify-IsGenuine}
use revquic.Oidc.Keys.{IsListed, key_for-IsListed}

abbrev env : Env String
env = record {
  decode64 = λ s. some (if str_eq s "e" then 1 ∷ 0 ∷ 1 ∷ [] else 7 ∷ []);
  json_header = λ b. some (record { alg = "RS256"; kid = "k1" });
  json_jwks = λ b. some (record { kty = "RSA"; kid = "k1"; n = "n"; e = "e" } ∷ []);
  json_claims = λ b. some (("iss", "idp") ∷ ("sub", "alice") ∷ ("aud", "vpn") ∷ ("exp", "t") ∷ []);
  json_string = λ r. some r;
  json_strings = λ r. [];
  json_int = λ r. some (pos 100);
  fetch = λ url. some (200, []);
  verify_sig = λ key text sig. true;
}

abbrev verifier : Verifier
verifier = record { issuer = "idp"; audience = "vpn"; keys = []; jwks_url = "https://idp/keys" }

abbrev alice : Claims
alice = record {
  subject = "alice";
  email = "";
  issuer = "idp";
  audience = "vpn" ∷ [];
  expiry = pos 100;
}

accepted : (verify env verifier 50 "h.p.s").1 ≡ ok alice
unfolding verify verify_parts verify_signed check_claims read_header read_claims json_str parse_aud
    parse_exp split_dots key_for refresh parse_jwks collect_keys rsa_key exponent get_be or_err
    require contains lookup insert
accepted = refl

-- Another issuer, or the expiry time itself, is refused.
foreign : (verify env (record verifier { issuer = "other" }) 50 "h.p.s").1 ≡ err wrong_issuer
unfolding verify verify_parts verify_signed check_claims read_header read_claims json_str parse_aud
    parse_exp split_dots key_for refresh parse_jwks collect_keys rsa_key exponent get_be or_err
    require contains lookup insert
foreign = refl

too_late : (verify env verifier 100 "h.p.s").1 ≡ err expired
unfolding verify verify_parts verify_signed check_claims read_header read_claims json_str parse_aud
    parse_exp split_dots key_for refresh parse_jwks collect_keys rsa_key exponent get_be or_err
    require contains lookup insert
too_late = refl

unknown : (key_for env (record verifier { jwks_url = "" }) "k1").1 ≡ err unknown_key
unfolding verify verify_parts verify_signed check_claims read_header read_claims json_str parse_aud
    parse_exp split_dots key_for refresh parse_jwks collect_keys rsa_key exponent get_be or_err
    require contains lookup insert
unknown = refl

verify-IsGenuine_example :
    let v' = (verify env verifier 50 "h.p.s").0 in
    (header : String) × (payload : String) × (signature : String) × (split_dots "h.p.s"
      ≡ header ∷ payload ∷ signature ∷ [])
    × IsGenuine env v' 50 header payload signature alice
    × (v'.issuer ≡ verifier.issuer)
    × (v'.audience ≡ verifier.audience)
verify-IsGenuine_example = verify-IsGenuine env verifier 50 "h.p.s" alice accepted

abbrev key : PublicKey
key = record { n = 7; e = 65537 }

fetched_key : (key_for env verifier "k1").1 ≡ ok key
unfolding verify verify_parts verify_signed check_claims read_header read_claims json_str parse_aud
    parse_exp split_dots key_for refresh parse_jwks collect_keys rsa_key exponent get_be or_err
    require contains lookup insert
fetched_key = refl

no_key : lookup "k1" verifier.keys ≡ none
unfolding lookup
no_key = refl

key_for-IsListed_example :
    (body : Bytes) × (set : List Jwk) × (env.fetch verifier.jwks_url ≡ some (200, body))
    × (env.json_jwks body ≡ some set)
    × IsListed env set "k1" key
    × (collect_keys env [] set ≡ ok (key_for env verifier "k1").0.keys)
key_for-IsListed_example = key_for-IsListed env verifier "k1" key no_key fetched_key
