-- ===== src/Http/Assets.antt =====
-- bridge/app.py: POST /assets/import, and the import of an upload by way of a temporary file, which is
-- removed again.
use suno_studio.Prelude.{String, Bool, Option, none, some}
use suno_studio.Exec.{key_error, value_error, Result, ok, err, Exec, pure, ◌>>=◌}
use suno_studio.Models.Values.{Json, str, Fields, get}
use suno_studio.Orchestrator.Runtime.{World}
use suno_studio.Imports.{import_file}
use suno_studio.Imports.Analysis.{ImportSettings, Source}
use suno_studio.Http.{Upload, Paths, or_text, lift}
use suno_studio.Http.Responses.{AssetImportResponse}

-- An item that the response model takes for a text.
abbrev pub text_field : Option Json → Result String
text_field none = err key_error
text_field (some (str s)) = ok s
text_field (some _) = err value_error

-- The temporary file of an upload; `temporary` is the path of a new one with a suffix.
abbrev temporary_file : Paths → (String → String) → Upload → Source
temporary_file paths temporary upload = record {
  path = temporary (paths.suffix (or_text upload.filename "upload.bin"));
  content = upload.content;
}

module _ {F P : Type 0} (imports : ImportSettings F) (paths : Paths)
    (temporary : String → String) where
  -- import_file(tmp_path, …); `asset_id` is the new id.
  unfoldable pub import_upload : String → Upload → Bool → Exec (World P) Fields
  import_upload asset_id upload normalize_on_import =
      import_file imports asset_id (temporary_file paths temporary upload) normalize_on_import

  -- POST /assets/import
  unfoldable pub post_assets_import : String → Upload → Bool → Exec (World P) AssetImportResponse
  post_assets_import asset_id upload normalize_on_import = do
    manifest ← import_upload asset_id upload normalize_on_import
    i ← lift (text_field (get manifest "id"))
    pure (record { asset_id = i; manifest = manifest })
