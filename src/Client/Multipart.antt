-- ===== src/Client/Multipart.antt =====
-- bridge/client.py: the bodies of the multipart requests.
use Prim.Native.String
use suno_studio.Prelude.{
  ℕ, String, Bool, ◌++◌, Option, none, some, List, [], ◌∷◌, ◌==◌, if◌then◌else◌,
}
use suno_studio.Exec.{Result, Exec, pure, ◌>>=◌}
use suno_studio.Models.Values.{Json, obj, Fields}
use suno_studio.Http.{lift}

infixr 66 ◌⧺◌
abbrev ◌⧺◌ : String → String → String
a ⧺ b = String.◌++◌ a b

-- What the client calls: `str.encode`, `json.dumps` and `loads` (`none` is a JSONDecodeError), `quote`,
-- and, of a path, its name, its bytes and its guessed type.
pub record Platform : Type 0 where
  pub encode : String → List ℕ
  pub dumps : Json → String
  pub loads : String → Option Json
  pub quote : String → String
  pub file_name : String → String
  pub read_bytes : String → Result (List ℕ)
  pub guess_type : String → Option String

abbrev concat : List (List ℕ) → List ℕ
concat [] = []
concat (b ∷ bs) = b ++ concat bs

module _ (platform : Platform) (boundary : String) where
  open platform use {encode, file_name, read_bytes, guess_type}

  abbrev add_field : String → String → List (List ℕ)
  add_field name value =
      encode ("--" ⧺ boundary ⧺ "\r\n")
      ∷ encode ("Content-Disposition: form-data; name=\"" ⧺ name ⧺ "\"\r\n\r\n")
      ∷ encode value
      ∷ encode "\r\n"
      ∷ []

  abbrev file_chunks : String → String → String → List ℕ → List (List ℕ)
  file_chunks name file_path mime_type content =
      encode ("--" ⧺ boundary ⧺ "\r\n")
      ∷ encode (
          "Content-Disposition: form-data; name=\""
          ⧺ name
          ⧺ "\"; filename=\""
          ⧺ file_name file_path
          ⧺ "\"\r\n")
      ∷ encode ("Content-Type: " ⧺ mime_type ⧺ "\r\n\r\n")
      ∷ content
      ∷ encode "\r\n"
      ∷ []

  abbrev add_file : {S : Type 0} → String → String → String → Exec S (List (List ℕ))
  add_file name file_path mime_type = do
    content ← lift (read_bytes file_path)
    pure (file_chunks name file_path mime_type content)

  abbrev last_chunk : List (List ℕ)
  last_chunk = encode ("--" ⧺ boundary ⧺ "--\r\n") ∷ []

  abbrev asset_field : Option String → List (List ℕ)
  asset_field none = []
  asset_field (some a) = if a == "" then [] else add_field "assetId" a

  abbrev optional_file : {S : Type 0} → Option String → Exec S (List (List ℕ))
  optional_file none = pure []
  optional_file (some p) = if p == "" then pure [] else add_file "file" p "application/octet-stream"

  -- _build_audio_multipart
  unfoldable pub build_audio_multipart :
      {S : Type 0}
      → String
      → String
      → Fields
      → Option String
      → Option String
      → String
      → Exec S (List ℕ)
  build_audio_multipart client_request_id prompt metadata asset_id file_path provider_mode = do
    file ← optional_file file_path
    pure (
        concat (
          add_field "clientRequestId" client_request_id
          ++ add_field "prompt" prompt
          ++ add_field "metadata" (platform.dumps (obj metadata))
          ++ add_field "providerMode" provider_mode
          ++ asset_field asset_id
          ++ file
          ++ last_chunk))

  abbrev mime_type : String → String
  mime_type file_path = elim (guess_type (file_name file_path)) [
    | none ↦ "application/octet-stream"
    | some t ↦ t
  ]

  -- The inner loop of _build_manual_complete_multipart.
  add_files : {S : Type 0} → String → List String → Exec S (List (List ℕ))
  add_files name [] = pure []
  add_files name (p ∷ ps) =
      let later = add_files name ps in
      add_file name p (mime_type p) >>= λ chunks. later >>= λ rest. pure (chunks ++ rest)

  unfoldable pub build_manual_complete_multipart :
      {S : Type 0} → List String → List String → List String → List String → Exec S (List ℕ)
  unfolding add_files
  build_manual_complete_multipart mix_files stem_files tempo_locked_stem_files midi_files = do
    mix ← add_files "mixFiles" mix_files
    stems ← add_files "stemFiles" stem_files
    locked ← add_files "tempoLockedStemFiles" tempo_locked_stem_files
    midi ← add_files "midiFiles" midi_files
    pure (concat (mix ++ stems ++ locked ++ midi ++ last_chunk))

  -- The form of import_asset.
  unfoldable pub build_import_multipart : {S : Type 0} → String → Bool → Exec S (List ℕ)
  build_import_multipart file_path normalize_on_import = do
    file ← add_file "file" file_path "application/octet-stream"
    pure (
        concat (
          add_field "normalizeOnImport" (if normalize_on_import then "true" else "false")
          ++ file
          ++ last_chunk))
