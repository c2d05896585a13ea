-- ===== src/Security/Signer.antt =====
-- bridge_security.py: RequestSigner. SHA-256, HMAC and the decimal text of a number are a parameter.
use suno_studio.Prelude.{
  ℕ, ◌+◌, ◌-◌, String, Bool, true, not, ◌&&◌, Option, some, List, [], ◌∷◌, ltb, leb, ◌==◌,
  if◌then◌else◌,
}
use Prim.Native.String
use suno_studio.Exec.{
  type_error, expired_request, signature_validation, ok, err, Exec, require, ◌>>=◌, ◌>>◌,
}
use suno_studio.Models.Values.{ℤ, pos, negsuc}
use suno_studio.Text.{codes}
use suno_studio.Security.Nonces.{NonceCache, time_or, add}

pub record Crypto : Type 0 where
  pub sha256_hex : List ℕ → String
  pub hmac_hex : List ℕ → String → String
  pub decimal : ℤ → String

pub record SignedHeaders : Type 0 where
  pub timestamp : ℤ
  pub nonce : String
  pub body_sha256 : String
  pub signature : String

-- abs(current - timestamp)
abbrev pub distance : ℕ → ℤ → ℕ
distance current (pos t) = if leb t current then current - t else t - current
distance current (negsuc t) = current + t + 1

all_below_128 : List ℕ → Bool
all_below_128 [] = true
all_below_128 (c ∷ cs) = ltb c 128 && all_below_128 cs

unfoldable pub is_ascii : String → Bool
unfolding all_below_128
is_ascii s = all_below_128 (codes s)

-- hmac.compare_digest on texts, which raises a TypeError unless both are ASCII.
unfoldable pub compare_digest : {S : Type 0} → String → String → Exec S Bool
compare_digest a b s = if is_ascii a && is_ascii b then (ok (a == b), s) else (err type_error, s)

module _ (crypto : Crypto) (shared_secret : List ℕ) where
  open crypto use {sha256_hex, hmac_hex, decimal}

  -- f"{timestamp}.{nonce}.{body_hash}"
  unfoldable pub signed_payload : ℤ → String → String → String
  signed_payload timestamp nonce body_hash =
      String.◌++◌ (decimal timestamp)
        (String.◌++◌ "." (String.◌++◌ nonce (String.◌++◌ "." body_hash)))

  -- `timestamp` and `nonce` are given, or come from the clock and from `secrets`.
  unfoldable pub sign : List ℕ → ℤ → String → SignedHeaders
  sign body timestamp nonce = record {
    timestamp = timestamp;
    nonce = nonce;
    body_sha256 = sha256_hex body;
    signature = hmac_hex shared_secret (signed_payload timestamp nonce (sha256_hex body));
  }

  unfoldable pub verify_at : ℕ → SignedHeaders → List ℕ → ℕ → ℕ → Exec NonceCache (Unit {0})
  verify_at skew_seconds headers body current clock = do
    require (not (ltb skew_seconds (distance current headers.timestamp))) expired_request
    same_body ← compare_digest (sha256_hex body) headers.body_sha256
    require same_body (signature_validation "body hash mismatch")
    same_signature ←
        compare_digest
          (hmac_hex shared_secret
            (signed_payload headers.timestamp headers.nonce headers.body_sha256))
          headers.signature
    require same_signature (signature_validation "invalid request signature")
    add headers.nonce (some current) clock

  -- The nonce cache is the state; `clock` is what `time.time` returns during the call.
  unfoldable pub verify : ℕ → SignedHeaders → List ℕ → Option ℕ → ℕ → Exec NonceCache (Unit {0})
  unfolding verify_at
  verify skew_seconds headers body now clock =
      verify_at skew_seconds headers body (time_or now clock) clock
