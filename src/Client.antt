-- ===== src/Client.antt =====
-- bridge/client.py: BridgeClient. Its state is `_handshake_done` and `_hmac_required`. Names of headers
-- are in lower case, since HTTP does not tell the cases apart.
pub mod Discovery
pub mod Handshake
pub mod Admitted
pub mod Waiting
pub mod Multipart
pub mod Requests
pub mod Answers
pub mod Witnesses
use Prim.Native.String.{◌++◌}
use suno_studio.Http.{lift}
use suno_studio.Prelude.{
  ℕ, String, Bool, true, false, not, ◌&&◌, Option, none, some, List, [], ◌∷◌, ◌==◌, if◌then◌else◌,
}
use suno_studio.Exec.{
  Exn, value_error, attribute_error, runtime_error, Result, ok, err, Exec, pure, gets, modify,
  require, ◌>>=◌, ◌>>◌,
}
use suno_studio.Models.Values.{ℤ, Json, null, bool, str, obj, Fields, end, get, truthy}
use suno_studio.Text.{codes}
use suno_studio.Protocol.{split_dots, ints, version_lt}
use suno_studio.Security.Signer.{Crypto, SignedHeaders, sign}

pub record ClientConfig : Type 0 where
  pub base_url : String
  pub plugin_version : String
  pub protocol_version : String
  pub shared_secret : List ℕ

pub record ClientState : Type 0 where
  pub handshake_done : Bool
  pub hmac_required : Bool

abbrev new_client : ClientState
new_client = record { handshake_done = false; hmac_required = true }

module _ (crypto : Crypto) (config : ClientConfig) where
  abbrev signature_headers : SignedHeaders → List (String × String)
  signature_headers signed =
      ("x-signature-timestamp", crypto.decimal signed.timestamp)
      ∷ ("x-signature-nonce", signed.nonce)
      ∷ ("x-body-sha256", signed.body_sha256)
      ∷ ("x-signature", signed.signature)
      ∷ []

  -- `timestamp` is the time and `nonce` the new nonce of `sign`. A content type follows, which the
  -- bridge's middleware does not read.
  pub headers : Bool → String → List ℕ → ℤ → String → List (String × String)
  headers hmac_required request_id body timestamp nonce =
      ("x-plugin-version", config.plugin_version)
      ∷ ("x-protocol-version", config.protocol_version)
      ∷ ("x-request-id", request_id)
      ∷ (if hmac_required
          then signature_headers (sign crypto config.shared_secret body timestamp nonce)
          else [])

-- tuple(int(part) for part in value.split("."))
unfoldable pub parse_version : String → Option (List ℤ)
parse_version value = ints (split_dots (codes value))

-- `v.get(key, d)`, which only a dict has
abbrev get_item : Json → String → Json → Result Json
get_item (obj d) key default = elim (get d key) [ none ↦ ok default | some v ↦ ok v ]
get_item _ key default = err attribute_error

-- `v.get(key)`
abbrev get_or_null : Json → String → Result Json
get_or_null v key = get_item v key null

-- self._parse_version(v)
abbrev version_of : Json → Result (List ℤ)
version_of (str s) = elim (parse_version s) [ none ↦ err value_error | some v ↦ ok v ]
version_of _ = err attribute_error

abbrev pub text_of : Json → String
text_of (str s) = s
text_of _ = ""

module _ (config : ClientConfig) where
  abbrev too_old : Json → Exn
  too_old min_supported = runtime_error (
      "Protocol "
      ++ config.protocol_version
      ++ " unsupported; upgrade to >= "
      ++ text_of min_supported)

  abbrev too_new : Json → Exn
  too_new max_supported = runtime_error (
      "Protocol "
      ++ config.protocol_version
      ++ " unsupported; downgrade to <= "
      ++ text_of max_supported
      ++ " or upgrade provider")

  -- The two comparisons; a version that is no text has raised before its text is needed.
  abbrev compare_range : Json → Json → Exec ClientState (Unit {0})
  compare_range min_supported max_supported = do
    requested ← lift (version_of (str config.protocol_version))
    lowest ← lift (version_of min_supported)
    require (not (version_lt requested lowest)) (too_old min_supported)
    highest ← lift (version_of max_supported)
    require (not (version_lt highest requested)) (too_new max_supported)

  -- `payload` is the answer of GET /capabilities.
  pub preflight_handshake : Json → Exec ClientState (Unit {0})
  preflight_handshake payload = do
    protocol ← lift (get_item payload "protocol" (obj end))
    min_supported ← lift (get_or_null protocol "min_supported")
    max_supported ← lift (get_or_null protocol "max_supported")
    require (truthy min_supported && truthy max_supported)
        (runtime_error "Handshake response missing protocol support range")
    compare_range min_supported max_supported
    auth ← lift (get_item payload "auth" (obj end))
    hmac_required ← lift (get_item auth "hmacRequired" (bool true))
    modify λ s. record s { hmac_required = truthy hmac_required; handshake_done = true }

  -- `_ensure_handshake`, in which GET /capabilities answers `payload`
  pub ensure_handshake : Json → Exec ClientState (Unit {0})
  ensure_handshake payload = do
    finished ← gets (λ s. s.handshake_done)
    if finished then pure tt else preflight_handshake payload
