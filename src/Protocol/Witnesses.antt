-- ===== src/Protocol/Witnesses.antt =====
-- The theorems on protocol headers, at concrete headers and versions.
use suno_studio.Prelude.{◌≡◌, ◌↔◌, true, some}
use suno_studio.Protocol.{Headers, validate_protocol_headers, protocol_range}
use suno_studio.Protocol.Accepted.{Passes, validate_protocol_headers_iff}

abbrev headers : Headers
headers = record {
  request_id = some "r1";
  plugin_version = some "0.9";
  protocol_version = some "1.2.5";
}

validate_protocol_headers_iff_example :
    ((validate_protocol_headers headers protocol_range).0 ≡ true) ↔ Passes headers
validate_protocol_headers_iff_example = validate_protocol_headers_iff headers
