-- ===== src/Storage/Tables.antt =====
-- storage/durable_storage.py: the tables, and the statements that the methods run on them.
-- A row of `jobs` is kept decoded, as `_row_to_job` reads it; Storage/Rows.antt has the encoding.
-- SQLite returns rows without ORDER BY in an order of its own; the model takes that of the rowid.
use suno_studio.Prelude.{
  ℕ, String, Bool, true, false, ◌&&◌, ◌||◌, Option, none, some, List, [], ◌∷◌, any, ◌==◌,
  if◌then◌else◌,
}
use suno_studio.Models.{JobType, text, audio, Job, JobTransition}
use suno_studio.Models.Values.{Json, Fields, truthy}

pub record DownloadedAsset : Type 0 where
  pub job_id : String
  pub variant : String
  pub checksum : String
  pub local_path : String
  pub created_at : ℕ

pub record ImportedAsset : Type 0 where
  pub id : String
  pub manifest : Fields
  pub created_at : ℕ

-- `now` is what `datetime.now` returns while an operation runs.
pub record Db : Type 0 where
  pub jobs : List Job
  pub job_transitions : List JobTransition
  pub downloaded_assets : List DownloadedAsset
  pub imported_assets : List ImportedAsset
  pub now : ℕ

abbrev pub empty : ℕ → Db
empty now = record {
  jobs = [];
  job_transitions = [];
  downloaded_assets = [];
  imported_assets = [];
  now = now;
}

abbrev same_type : JobType → JobType → Bool
same_type text text = true
same_type audio audio = true
same_type _ _ = false

-- WHERE type = ? AND client_request_id = ?
abbrev pub is_request : JobType → String → Job → Bool
is_request t r j = same_type j.type t && j.client_request_id == r

-- SELECT * FROM jobs WHERE id = ?
unfoldable pub find_job : String → List Job → Option Job
find_job i [] = none
find_job i (j ∷ js) = if j.id == i then some j else find_job i js

-- SELECT * FROM jobs WHERE type = ? AND client_request_id = ?
unfoldable pub find_request : JobType → String → List Job → Option Job
find_request t r [] = none
find_request t r (j ∷ js) = if is_request t r j then some j else find_request t r js

-- UPDATE jobs SET … WHERE id = ?
unfoldable pub update_where : String → (Job → Job) → List Job → List Job
update_where i f [] = []
update_where i f (j ∷ js) = (if j.id == i then f j else j) ∷ update_where i f js

-- PRIMARY KEY id, UNIQUE(type, client_request_id)
unfoldable pub violates : Job → List Job → Bool
violates job = any (λ j. j.id == job.id || is_request job.type job.client_request_id j)

-- `json.dumps(m) if m else None`: an empty manifest is stored as NULL.
abbrev pub stored_manifest : Option Json → Option Json
stored_manifest none = none
stored_manifest (some m) = if truthy m then some m else none

-- The row that INSERT makes of a job, as it is read back.
unfoldable pub stored : Job → Job
stored job = record job { output_manifest_json = stored_manifest job.output_manifest_json }

unfoldable pub find_imported : String → List ImportedAsset → Option ImportedAsset
find_imported i [] = none
find_imported i (a ∷ rest) = if a.id == i then some a else find_imported i rest

-- INSERT … ON CONFLICT(id) DO UPDATE SET manifest_json=excluded.manifest_json
unfoldable pub upsert_imported : ImportedAsset → List ImportedAsset → List ImportedAsset
upsert_imported a [] = a ∷ []
upsert_imported a (b ∷ bs) =
    if b.id == a.id then record b { manifest = a.manifest } ∷ bs else b ∷ upsert_imported a bs

-- UNIQUE(job_id, variant, checksum)
abbrev pub is_download : String → String → String → DownloadedAsset → Bool
is_download i v c d = d.job_id == i && d.variant == v && d.checksum == c
