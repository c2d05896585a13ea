-- ===== src/Http.antt =====
-- bridge/app.py: the HTTP application. Times, files and multipart forms come in as arguments.
pub mod Responses
pub mod Assets
pub mod Jobs
pub mod TextJobs
pub mod ManualJobs
pub mod Manual
pub mod Completes
pub mod Gate
pub mod Replay
pub mod Traces
pub mod Application
pub mod System
pub mod Witnesses
use suno_studio.Prelude.{
  ℕ, String, Bool, true, false, Option, none, some, List, [], ◌∷◌, ◌==◌, if◌then◌else◌,
}
use suno_studio.Exec.{Exn, key_error, bridge_error, Result, ok, err, Exec}
use suno_studio.Errors.{BridgeError}
use suno_studio.Models.{ProviderMode, mock_suno, manual_suno, official_api, web_session}
use suno_studio.Models.Values.{Json, str, arr, Items, nil, cons, Fields, end, field}
use suno_studio.Storage.Rows.{mode_value, provider_mode}

-- raise BridgeError(code, message, details)
abbrev bridge_err : String → String → Fields → Exn
bridge_err code message details =
    bridge_error (record { code = code; message = message; details = details; request_id = none })

-- SUPPORTED_BETA_PROVIDER_MODES
abbrev is_supported : ProviderMode → Bool
is_supported mock_suno = true
is_supported manual_suno = true
is_supported _ = false

abbrev supported : Json
supported = arr (cons (str "mock_suno") (cons (str "manual_suno") nil))

abbrev future_scope : Json
future_scope = arr (cons (str "official_api") (cons (str "web_session") nil))

abbrev unsupported_mode : String → Fields → Exn
unsupported_mode raw_mode more =
    bridge_err "INVALID_PROVIDER_MODE" "Unsupported providerMode for this beta bridge."
      (field "providerMode" (str raw_mode) (field "supported" supported more))

abbrev supported_mode : String → Option ProviderMode → Result ProviderMode
supported_mode raw_mode none = err (unsupported_mode raw_mode end)
supported_mode raw_mode (some mode) =
    if is_supported mode
    then ok mode
    else err (unsupported_mode raw_mode (field "futureScope" future_scope end))

pub parse_beta_provider_mode : String → Result ProviderMode
parse_beta_provider_mode raw_mode = supported_mode raw_mode (provider_mode raw_mode)

-- A result that was computed, or an exception.
abbrev pub lift : {S A : Type 0} → Result A → Exec S A
lift r s = (r, s)

-- `try: m except KeyError: raise e`
abbrev except_key_error : {S A : Type 0} → Exn → Result A × S → Result A × S
except_key_error e (err key_error, s) = (err e, s)
except_key_error e (r, s) = (r, s)

abbrev not_found : String → Exn
not_found i =
    bridge_err "JOB_NOT_FOUND"
      (Prim.Native.String.◌++◌ "Job " (Prim.Native.String.◌++◌ i " not found")) end

-- An UploadFile with its content.
record Upload : Type 0 where
  pub filename : Option String
  pub content : List ℕ

-- Path(s).suffix and Path(s).name
record Paths : Type 0 where
  pub suffix : String → String
  pub name : String → String

-- `s or d`
abbrev or_text : Option String → String → String
or_text none d = d
or_text (some s) d = if s == "" then d else s
