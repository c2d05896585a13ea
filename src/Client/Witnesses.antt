-- ===== src/Client/Witnesses.antt =====
-- The theorems on the client, at concrete configurations and answers.
use suno_studio.Prelude.{
  ℕ, ◌+◌, String, ◌≡◌, ◌≢◌, ◌⊎◌, inr, refl, true, false, Option, none, some, [], ◌∷◌, arith,
}
use suno_studio.Exec.{Exn, bridge_error, ok, err, gets, pure, ◌>>=◌}
use suno_studio.Errors.{BridgeError, to_payload}
use suno_studio.Models.Values.{pos, Json, null, str, obj, field, end}
use suno_studio.Text.{codes, parse_int}
use suno_studio.Protocol.{
  parse_version, split_dots, any_empty, ints, validate_protocol_headers, protocol_range,
}
use suno_studio.Protocol.Accepted.{validate_protocol_headers_iff}
use suno_studio.Security.Signer.{Crypto, is_ascii}
use suno_studio.Security.Nonces.{NonceCache, expiry_of}
use suno_studio.Http.Gate.{middleware, passed}
use suno_studio.Http.Replay.{check, check_all, replay_stopped}
use suno_studio.Http.Responses.{reply}
use suno_studio.Client.{ClientConfig, ClientState, new_client, headers, ensure_handshake}
use suno_studio.Client.Handshake.{sent_headers, handshake, handshake_agrees}
use suno_studio.Client.Multipart.{Platform}
use suno_studio.Client.Requests.{Fresh, ClientRequest, get_job, call, build, request_with}
use suno_studio.Client.Admitted.{received, call-passed}
use suno_studio.Client.Waiting.{Surroundings, Ends, wait_for_job, wait_for_job-Ends}
use suno_studio.Client.Answers.{http_error, from_bridge, transmit, urlopen_json, urlopen_json-reply}

abbrev config : ClientConfig
config = record {
  base_url = "http://127.0.0.1:7071";
  plugin_version = "0.9";
  protocol_version = "1.3";
  shared_secret = 1 ∷ 2 ∷ [];
}

handshake_agrees_example :
    (((validate_protocol_headers (sent_headers config "r1") protocol_range).0 ≡ true)
      × (handshake config true "r1" new_client
          ≡ (ok tt, record { handshake_done = true; hmac_required = true })))
    ⊎ ((validate_protocol_headers (sent_headers config "r1") protocol_range).0 ≡ false)
      × ((e : Exn) × (handshake config true "r1" new_client ≡ (err e, new_client)))
handshake_agrees_example = handshake_agrees config true "r1" new_client refl refl

abbrev crypto : Crypto
crypto = record { sha256_hex = λ b. "ab"; hmac_hex = λ k t. "cd"; decimal = λ z. "7" }

abbrev platform : Platform
platform = record {
  encode = codes;
  dumps = λ v. "{}";
  loads = λ s. some null;
  quote = λ s. s;
  file_name = λ s. s;
  read_bytes = λ s. ok (1 ∷ []);
  guess_type = λ s. none;
}

abbrev fresh : Fresh
fresh = record { request_id = "r1"; hex = "00"; timestamp = pos 7; nonce = "n1" }

abbrev nonces : NonceCache
nonces = record { ttl_seconds = 300; seen = [] }

-- A client that has had its handshake.
abbrev ready : ClientState
ready = record { handshake_done = true; hmac_required = true }

abbrev made : ClientRequest
made = record {
  method = "GET";
  path = "/jobs/j1";
  headers = headers crypto config true "r1" [] (pos 7) "n1";
  body = none;
}

accepted : (validate_protocol_headers (sent_headers config "r1") protocol_range).0 ≡ true
accepted = (validate_protocol_headers_iff (sent_headers config "r1")).1 (
  refl,
  refl,
  pos 1 ∷ pos 3 ∷ [],
  unfold parse_version split_dots any_empty ints parse_int in refl,
  inr refl,
)

read_time : parse_int (codes "7") ≡ some (pos 7)
unfolding parse_int
read_time = refl

sent_request : call crypto platform config fresh null (get_job "j1") ready ≡ (ok made, ready)
unfolding call ensure_handshake build request_with ◌>>=◌ gets pure
sent_request = refl

call-passed_example :
    (middleware crypto config.shared_secret (λ s. s) true (received "/jobs/j1" made) 100 nonces).0
    ≡ passed
call-passed_example =
    call-passed crypto platform config fresh (λ s. s) null "/jobs/j1" (get_job "j1") 100 nonces
      accepted read_time (λ b. unfold is_ascii in refl) (λ k t. unfold is_ascii in refl)
      (omega arith) (unfold expiry_of in refl) ready ready made sent_request

-- A job that is complete at once.
abbrev around : Surroundings ℕ
around = record {
  time = λ t. t;
  sleep = λ n t. t + n;
  get_job = λ i t. (ok (obj (field "status" (str "complete") end)), t + 1);
}

wait_for_job-Ends_example : Ends around "j1" 15 (wait_for_job around "j1" 10 2 5)
wait_for_job-Ends_example =
    wait_for_job-Ends around "j1" 2 (omega arith) (λ n t. omega arith) (λ t. omega arith) 10 5

abbrev problem : BridgeError
problem = record {
  code = "JOB_NOT_FOUND";
  message = "Job j1 not found";
  details = end;
  request_id = none;
}

abbrev printed : Json → String
printed v = "{}"

abbrev read_back : String → Option Json
read_back s = some (to_payload problem)

urlopen_json-reply_example :
    (code : ℕ) × ((code ≡ 404) ⊎ (code ≡ 400))
    × (transmit read_back (λ n. "404") printed (reply {A = String} (err (bridge_error problem)))
        ≡ some (http_error code (printed (to_payload problem))))
    × (urlopen_json read_back (λ n. "404") (http_error code (printed (to_payload problem)))
        ≡ inr (from_bridge (str "JOB_NOT_FOUND") (str "Job j1 not found") (obj end) null))
urlopen_json-reply_example = urlopen_json-reply read_back (λ n. "404") printed String problem refl

-- The same request at two times, and another one in between.
abbrev text_of_error : String → String
text_of_error s = s

admitted :
    (check crypto config.shared_secret text_of_error true (received "/jobs/j1" made, 100) nonces).0
    ≡ passed
admitted =
    call-passed crypto platform config fresh text_of_error null "/jobs/j1" (get_job "j1") 100 nonces
      accepted read_time (λ b. unfold is_ascii in refl) (λ k t. unfold is_ascii in refl)
      (omega arith) (unfold expiry_of in refl) ready ready made sent_request

replay_stopped_example :
    (check crypto config.shared_secret text_of_error true
      (received "/jobs/j1" made, 103)
      (check_all crypto config.shared_secret text_of_error true
        ((received "/jobs/j2" made, 102) ∷ [])
        (check crypto config.shared_secret text_of_error true
          (received "/jobs/j1" made, 100)
          nonces).1)).0
    ≢ passed
replay_stopped_example =
    replay_stopped crypto config.shared_secret text_of_error true (received "/jobs/j1" made)
      (received "/jobs/j1" made) 100 103 ((received "/jobs/j2" made, 102) ∷ []) nonces refl
      (omega arith) (omega arith) (omega arith, tt) refl (unfold received in refl)
      (unfold received in refl) refl refl admitted
