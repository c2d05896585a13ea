-- ===== src/Client/Requests.antt =====
-- bridge/client.py: the requests of BridgeClient, and the reading of an answer.
use Prim.Native.String
use suno_studio.Prelude.{ℕ, String, Bool, ◌||◌, ◌++◌, Option, none, some, List, [], ◌∷◌}
use suno_studio.Exec.{value_error, ok, Exec, require, ◌>>=◌, ◌>>◌}
use suno_studio.Models.Values.{ℤ, Json, str, obj, Fields, end, field, present}
use suno_studio.Security.Signer.{Crypto}
use suno_studio.Client.Multipart.{
  Platform, build_audio_multipart, build_manual_complete_multipart, build_import_multipart,
}
use suno_studio.Client.{ClientConfig, ClientState, headers, ensure_handshake}

infixr 66 ◌⧺◌
abbrev ◌⧺◌ : String → String → String
a ⧺ b = String.◌++◌ a b

-- The new values of one request: its id, the 32 digits of a boundary, the time and a nonce.
pub record Fresh : Type 0 where
  pub request_id : String
  pub hex : String
  pub timestamp : ℤ
  pub nonce : String

-- urllib's Request; `path` follows the base URL.
pub record ClientRequest : Type 0 where
  pub method : String
  pub path : String
  pub headers : List (String × String)
  pub body : Option (List ℕ)

abbrev pub bytes_of : Option (List ℕ) → List ℕ
bytes_of none = []
bytes_of (some b) = b

abbrev pub with_type : Option String → List (String × String) → List (String × String)
with_type none hs = hs
with_type (some t) hs = hs ++ (("content-type", t) ∷ [])

-- The methods of the client that send a request.
pub data ClientCall : Type 0 where
  create_text_job : String → String → Fields → String → ClientCall
  create_audio_job : String → String → Fields → Option String → Option String → String → ClientCall
  import_asset : String → Bool → ClientCall
  get_job cancel_job get_handoff : String → ClientCall
  manual_complete : String → List String → List String → List String → List String → ClientCall

module _ (crypto : Crypto) (platform : Platform) (config : ClientConfig) (fresh : Fresh) where
  open platform use {encode, dumps, quote}

  -- `_headers` and the Request, once the body is there.
  unfoldable pub request_with :
      String → String → Option String → Option (List ℕ) → Exec ClientState ClientRequest
  request_with method path content_type body s = (
    ok (record {
      method = method;
      path = path;
      headers = with_type content_type (
          headers crypto config s.hmac_required fresh.request_id (bytes_of body) fresh.timestamp
            fresh.nonce);
      body = body;
    }),
    s,
  )

  abbrev json_type : Option String
  json_type = some "application/json"

  abbrev boundary : String
  boundary = "----BridgeBoundary" ⧺ fresh.hex

  abbrev form_type : Option String
  form_type = some ("multipart/form-data; boundary=" ⧺ boundary)

  abbrev job_path : String → String → String
  job_path job_id rest = "/jobs/" ⧺ quote job_id ⧺ rest

  abbrev text_body : String → String → Fields → String → List ℕ
  text_body client_request_id prompt metadata provider_mode = encode (
      dumps (
        obj (
          field "clientRequestId" (str client_request_id) (
            field "prompt" (str prompt)
              (field "metadata" (obj metadata) (field "providerMode" (str provider_mode) end))))))

  -- The body of the method after its handshake.
  unfoldable pub build : ClientCall → Exec ClientState ClientRequest
  build (create_text_job client_request_id prompt metadata provider_mode) =
      request_with "POST" "/jobs/text" json_type
        (some (text_body client_request_id prompt metadata provider_mode))
  build (create_audio_job client_request_id prompt metadata asset_id file_path provider_mode) = do
    require (present asset_id || present file_path) value_error
    body ←
        build_audio_multipart platform boundary client_request_id prompt metadata asset_id file_path
          provider_mode
    request_with "POST" "/jobs/audio" form_type (some body)
  build (import_asset file_path normalize_on_import) = do
    body ← build_import_multipart platform boundary file_path normalize_on_import
    request_with "POST" "/assets/import" form_type (some body)
  build (get_job job_id) = request_with "GET" (job_path job_id "") none none
  build (cancel_job job_id) =
      request_with "POST" (job_path job_id "/cancel") json_type (some (encode "{}"))
  build (get_handoff job_id) = request_with "GET" (job_path job_id "/handoff") none none
  build (manual_complete job_id mix_files stem_files tempo_locked_stem_files midi_files) = do
    body ←
        build_manual_complete_multipart platform boundary mix_files stem_files
          tempo_locked_stem_files midi_files
    request_with "POST" (job_path job_id "/manual-complete") form_type (some body)

  -- `capabilities` answers the handshake, where one is needed.
  unfoldable pub call : Json → ClientCall → Exec ClientState ClientRequest
  unfolding build
  call capabilities c = ensure_handshake config capabilities >>= λ u. build c
