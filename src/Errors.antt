-- ===== src/Errors.antt =====
-- bridge/errors.py: BridgeError and `make_error`.
use suno_studio.Prelude.{String, Option, none, some}
use suno_studio.Models.Values.{Json, null, str, obj, Fields, end, field}

pub record BridgeError : Type 0 where
  pub code : String
  pub message : String
  pub details : Fields
  pub request_id : Option String

abbrev pub or_null : Option String → Json
or_null none = null
or_null (some s) = str s

-- BridgeError.to_payload
abbrev pub to_payload : BridgeError → Json
to_payload e = obj (
    field "error"
      (obj (
        field "code" (str e.code) (
          field "message" (str e.message)
            (field "details" (obj e.details) (field "request_id" (or_null e.request_id) end)))))
      end)

abbrev pub make_error : String → String → Fields → Option String → Json
make_error code message details request_id =
    to_payload
      (record { code = code; message = message; details = details; request_id = request_id })
