-- ===== src/Storage/Downloads.antt =====
-- storage/durable_storage.py: `record_downloaded_asset`, and the table it writes.
use suno_studio.Prelude.{String, ◌≡◌, Bool, true, false, [], ◌∷◌, ◌++◌, any}
use suno_studio.Exec.{ok}
use suno_studio.Storage.Tables.{Db, is_download}
use suno_studio.Storage.{record_downloaded_asset}

-- Whether a file is recorded.
abbrev pub is_recorded : String → String → String → Db → Bool
is_recorded i v c s = any (is_download i v c) s.downloaded_assets

abbrev pub with_download : String → String → String → String → Db → Db
with_download i v c p s = record s {
  downloaded_assets =
      s.downloaded_assets
      ++ record { job_id = i; variant = v; checksum = c; local_path = p; created_at = s.now } ∷ [];
}

module _ (i v c p : String) (s : Db) where
  pub record_downloaded_asset-new :
      is_recorded i v c s ≡ false
      → record_downloaded_asset i v c p s ≡ (ok true, with_download i v c p s)
  unfolding record_downloaded_asset
  record_downloaded_asset-new h = rw h

  pub record_downloaded_asset-known :
      is_recorded i v c s ≡ true → record_downloaded_asset i v c p s ≡ (ok false, s)
  unfolding record_downloaded_asset
  record_downloaded_asset-known h = rw h
