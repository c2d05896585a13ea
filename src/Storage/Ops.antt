-- ===== src/Storage/Ops.antt =====
-- The methods that write, as the rest of the program calls them, one after another and in any order.
-- Storage/Overlap.antt has the calls of `set_job_status` that overlap.
use suno_studio.Prelude.{ℕ, ◌+◌, String, List, [], ◌∷◌}
use suno_studio.Models.{Job}
use suno_studio.Models.Values.{Fields}
use suno_studio.Models.Status.{JobStatus}
use suno_studio.Storage.Tables.{Db}
use suno_studio.Storage.{
  StatusChange, RuntimeFields, Artifacts, create_job_idempotent, set_job_status,
  update_job_runtime_fields, update_job_provider_metadata, attach_job_artifacts,
  save_imported_asset, record_downloaded_asset,
}

pub data Op : Type 0 where
  create : Job → Op
  set_status : String → JobStatus → StatusChange → Op
  runtime : String → RuntimeFields → Op
  metadata : String → Fields → Op
  artifacts : String → Artifacts → Op
  save_asset : String → Fields → Op
  download : String → String → String → String → Op
  -- Time passes between two transactions.
  wait : ℕ → Op

-- The tables after the transaction, whether it was committed or rolled back.
unfoldable pub run_op : Op → Db → Db
run_op (create job) s = (create_job_idempotent job s).1
run_op (set_status i to change) s = (set_job_status i to change s).1
run_op (runtime i r) s = (update_job_runtime_fields i r s).1
run_op (metadata i m) s = (update_job_provider_metadata i m s).1
run_op (artifacts i a) s = (attach_job_artifacts i a s).1
run_op (save_asset i m) s = (save_imported_asset i m s).1
run_op (download i v c p) s = (record_downloaded_asset i v c p s).1
run_op (wait n) s = record s { now = s.now + n }

unfoldable pub run_ops : List Op → Db → Db
run_ops [] s = s
run_ops (o ∷ os) s = run_ops os (run_op o s)
