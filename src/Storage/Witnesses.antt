-- ===== src/Storage/Witnesses.antt =====
-- The theorems on the storage, at concrete tables and transactions.
use suno_studio.Prelude.{
  String, ◌≡◌, refl, false, not, Option, none, some, List, [], ◌∷◌, ◌==◌, if◌then◌else◌, select,
}
use suno_studio.Exec.{ok}
use suno_studio.Models.{Job, text, manual_suno}
use suno_studio.Models.Values.{Json, arr, obj, nil, end}
use suno_studio.Models.Status.{JobStatus, created, complete, cancelled, queued_local, is_terminal}
use suno_studio.Storage.{
  defaults, create_job_idempotent, save_imported_asset, get_imported_asset, list_in_flight_jobs,
}
use suno_studio.Storage.Tables.{Db, empty, violates, stored}
use suno_studio.Storage.Ops.{Op, create, set_status, wait, run_ops}
use suno_studio.Storage.Requests.{create_job_idempotent_twice}
use suno_studio.Storage.Rows.{
  Formats, payload_fields, row_to_job, job_to_row, row_to_job-job_to_row,
}
use suno_studio.Storage.Queries.{get_imported_asset-save, list_in_flight_jobs_lem}

abbrev pub row : String → JobStatus → Job
row i status = record {
  id = i;
  type = text;
  status = status;
  client_request_id = "r1";
  payload = record { prompt = "a song"; metadata = obj end; asset_id = none };
  provider_mode = manual_suno;
  provider_metadata = end;
  remote_job_id = none;
  asset_id = none;
  output_manifest_json = none;
  output_assets = [];
  progress = 0;
  last_error = none;
  attempts = 0;
  created_at = 5;
  updated_at = 5;
}

abbrev table : JobStatus → Db
table status = record (empty 5) { jobs = row "j1" status ∷ [] }

abbrev cancelling_it : List Op
cancelling_it =
    wait 3 ∷ set_status "j1" cancelled defaults ∷ set_status "j1" queued_local defaults ∷ []

abbrev from_nothing : List Op
from_nothing = create (row "j1" created) ∷ cancelling_it

create_job_idempotent_twice_example :
    let s' = run_ops cancelling_it (create_job_idempotent (row "j1" created) (empty 5)).1 in
    (e : Job) × (create_job_idempotent (row "j2" created) s' ≡ (ok (e, false), s')) × (e.id ≡ "j1")
create_job_idempotent_twice_example =
    create_job_idempotent_twice (row "j1" created) (row "j2" created) cancelling_it (empty 5)
      (unfold violates in refl) refl refl

get_imported_asset-save_example :
    (get_imported_asset "b" (save_imported_asset "a" end (empty 5)).1).0
    ≡ (if "a" == "b" then ok (some end) else (get_imported_asset "b" (empty 5)).0)
get_imported_asset-save_example = get_imported_asset-save "a" "b" end (empty 5)

list_in_flight_jobs_lem_example :
    list_in_flight_jobs (table complete)
    ≡ (ok (select (λ j. not (is_terminal j.status)) (table complete).jobs), table complete)
list_in_flight_jobs_lem_example = list_in_flight_jobs_lem (table complete)

-- Texts for the values of the example.
encoding : Json → String
encoding (obj end) = "{}"
encoding (arr nil) = "[]"
encoding _ = "{\"prompt\": \"a song\"}"

decoding : String → Option Json
decoding t =
    if t == "{}"
    then some (obj end)
    else if t == "[]"
    then some (arr nil)
    else some (payload_fields (row "j1" created).payload)

abbrev formats : Formats
formats = record {
  dumps = encoding;
  loads = decoding;
  isoformat = λ t. "1970-01-01T00:00:05+00:00";
  fromisoformat = λ t. some 5;
  parse_uuid = λ t. some t;
}

row_to_job-job_to_row_example :
    row_to_job formats (job_to_row formats (row "j1" created)) ≡ some (stored (row "j1" created))
unfolding encoding decoding
row_to_job-job_to_row_example =
    row_to_job-job_to_row formats (row "j1" created) (refl, refl) (refl, refl)
      (λ v e. absurd (cc e)) (refl, refl) refl refl refl
