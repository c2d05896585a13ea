-- ===== src/Client/Discovery.antt =====
-- bridge/client.py: BridgeClient.from_discovery_file.
use Prim.Native.String.{◌++◌}
use suno_studio.Prelude.{ℕ, String, Option, none, some, List}
use suno_studio.Exec.{key_error, value_error, type_error, file_not_found, Result, ok, err}
use suno_studio.Models.Values.{Json, str, obj, get}
use suno_studio.Client.{ClientConfig}

-- `loads` is `json.loads`, where `none` is a JSONDecodeError; `show` is `str` on values that are no
-- texts, and `encode` the UTF-8 encoding.
module _ (loads : String → Option Json) (show : Json → String) (encode : String → List ℕ)
    (plugin_version protocol_version shared_secret : String) where
  -- f"{v}"
  abbrev formatted : Json → String
  formatted (str s) = s
  formatted v = show v

  abbrev with_url : String → ClientConfig
  with_url base_url = record {
    base_url = base_url;
    plugin_version = plugin_version;
    protocol_version = protocol_version;
    shared_secret = encode shared_secret;
  }

  abbrev from_address : Option Json → Option Json → Result ClientConfig
  from_address none port = err key_error
  from_address (some h) none = err key_error
  from_address (some h) (some p) = ok (with_url ("http://" ++ formatted h ++ ":" ++ formatted p))

  abbrev pub from_payload : Option Json → Result ClientConfig
  from_payload none = err value_error
  from_payload (some (obj payload)) = from_address (get payload "host") (get payload "port")
  from_payload (some _) = err type_error

  -- `file` is the content of the file, if it is there.
  unfoldable pub from_discovery_file : Option String → Result ClientConfig
  from_discovery_file none = err file_not_found
  from_discovery_file (some text) = from_payload (loads text)
