-- ===== src/Http/Gate.antt =====
-- bridge/app.py: protocol_security_middleware. Names of headers are in lower case, as Starlette gives
-- them; `int_error` is the text of the ValueError that `int` raises.
use suno_studio.Prelude.{
  ℕ, String, Bool, true, false, not, ◌&&◌, Option, none, some, List, ◌==◌, if◌then◌else◌,
}
use suno_studio.Exec.{
  Exn, value_error, expired_request, signature_validation, replay_detected, Result, ok, err, Exec,
}
use suno_studio.Errors.{make_error}
use suno_studio.Models.Values.{ℤ, Json, str, end, field}
use suno_studio.Text.{codes, parse_int}
use suno_studio.Protocol.{Headers, validate_protocol_headers, protocol_range}
use suno_studio.Security.Nonces.{NonceCache}
use suno_studio.Security.Signer.{Crypto, SignedHeaders, verify}

pub record HttpRequest : Type 0 where
  pub path : String
  pub header : String → Option String
  pub body : List ℕ

-- What the middleware does with a request: call the handler, answer with a status and a content, or
-- raise.
pub data Admission : Type 0 where
  passed : Admission
  answered : ℕ → Option Json → Admission
  raised : Exn → Admission

-- DEFAULT_SKEW_SECONDS and NONCE_TTL_SECONDS of bridge_security.py
abbrev pub default_skew_seconds : ℕ
default_skew_seconds = 120

abbrev pub nonce_ttl_seconds : ℕ
nonce_ttl_seconds = 300

-- headers.get(name, d)
abbrev pub get_header : HttpRequest → String → String → String
get_header request name d = elim (request.header name) [ none ↦ d | some v ↦ v ]

abbrev pub protocol_headers : HttpRequest → Headers
protocol_headers request = record {
  request_id = some (get_header request "x-request-id" "");
  plugin_version = some (get_header request "x-plugin-version" "");
  protocol_version = some (get_header request "x-protocol-version" "");
}

abbrev pub timestamp_text : HttpRequest → String
timestamp_text request = get_header request "x-signature-timestamp" "0"

abbrev pub signed_headers : HttpRequest → ℤ → SignedHeaders
signed_headers request timestamp = record {
  timestamp = timestamp;
  nonce = get_header request "x-signature-nonce" "";
  body_sha256 = get_header request "x-body-sha256" "";
  signature = get_header request "x-signature" "";
}

module _ (crypto : Crypto) (shared_secret : List ℕ) (int_error : String → String) where
  -- The body of the `try`; `clock` is the time in the call of `verify`.
  abbrev pub verify_parsed : HttpRequest → ℕ → Option ℤ → Exec NonceCache (Unit {0})
  verify_parsed request clock none c = (err value_error, c)
  verify_parsed request clock (some timestamp) c =
      verify crypto shared_secret default_skew_seconds (signed_headers request timestamp)
        request.body none clock c

  unfoldable pub check_signature : HttpRequest → ℕ → Exec NonceCache (Unit {0})
  check_signature request clock =
      verify_parsed request clock (parse_int (codes (timestamp_text request)))

  abbrev unauthorized : HttpRequest → String → Admission
  unauthorized request reason = answered 401 (
      some (
        make_error "AUTH_SIGNATURE_INVALID" "Request signature validation failed"
          (field "reason" (str reason) end) (request.header "x-request-id")))

  -- After the `try`: the exceptions that are caught, with their texts.
  abbrev pub admit : HttpRequest → Result (Unit {0}) → Admission
  admit request (ok _) = passed
  admit request (err value_error) = unauthorized request (int_error (timestamp_text request))
  admit request (err expired_request) =
      unauthorized request "request timestamp outside allowed skew"
  admit request (err (signature_validation reason)) = unauthorized request reason
  admit request (err replay_detected) = unauthorized request "nonce has already been used"
  admit request (err e) = raised e

  abbrev pub settled : HttpRequest → Result (Unit {0}) × NonceCache → Admission × NonceCache
  settled request (r, c) = (admit request r, c)

  abbrev pub gate :
      Bool → HttpRequest → ℕ → Bool × Option Json → NonceCache → Admission × NonceCache
  gate require_hmac request clock (false, error) c = (answered 400 error, c)
  gate require_hmac request clock (true, error) c =
      if require_hmac && not (request.path == "/capabilities")
      then settled request (check_signature request clock c)
      else (passed, c)

  unfoldable pub middleware : Bool → HttpRequest → ℕ → NonceCache → Admission × NonceCache
  middleware require_hmac request clock =
      gate require_hmac request clock
        (validate_protocol_headers (protocol_headers request) protocol_range)
