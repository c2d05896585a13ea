-- ===== src/Storage/Steps.antt =====
-- The four ways in which a transaction can change the table `jobs`, for invariants of that table.
use suno_studio.Prelude.{
  ℕ, ◌≤◌, String, ◌≡◌, ◌≢◌, refl, true, false, none, some, List, [], ◌∷◌, ◌++◌, arith, inl, inr,
  Bool-cases, Option-cases,
}
use suno_studio.Models.{Job}
use suno_studio.Models.Values.{Fields}
use suno_studio.Models.Status.{JobStatus, may_become}
use suno_studio.Storage.Tables.{Db, find_job, update_where, violates, stored, find_request}
use suno_studio.Storage.Ops.{
  Op, create, set_status, runtime, metadata, artifacts, save_asset, download, wait, run_op,
}
use suno_studio.Storage.Updates.{
  set_job_status-unknown, set_job_status-invalid, set_job_status-done, update_known-unknown,
  update_known-done, create_job_idempotent-new, create_job_idempotent-existing,
  create_job_idempotent-clash,
}
use suno_studio.Storage.{
  create_job_idempotent, set_job_status, update_job_runtime_fields, update_job_provider_metadata,
  attach_job_artifacts, save_imported_asset, record_downloaded_asset, written, runtime_written,
  with_metadata, with_artifacts, update_known, StatusChange, RuntimeFields, Artifacts,
}

-- What an UPDATE of the program leaves alone in every row, what it does not lower, and what it does not
-- take away.
pub record Preserves (f : Job → Job) : Type 0 where
  pub id : (j : Job) → (f j).id ≡ j.id
  pub type : (j : Job) → (f j).type ≡ j.type
  pub client_request_id : (j : Job) → (f j).client_request_id ≡ j.client_request_id
  pub payload : (j : Job) → (f j).payload ≡ j.payload
  pub provider_mode : (j : Job) → (f j).provider_mode ≡ j.provider_mode
  pub created_at : (j : Job) → (f j).created_at ≡ j.created_at
  pub attempts : (j : Job) → j.attempts ≤ (f j).attempts
  pub remote_job_id : (j : Job) → j.remote_job_id ≢ none → (f j).remote_job_id ≢ none

-- `Q` is what is known of a row that is inserted.
pub data TableStep (Q : Job → Type 0) (js : List Job) : List Job → Type 0 where
  same : TableStep Q js js
  insert : (j : Job) → Q j → violates j js ≡ false → TableStep Q js (js ++ stored j ∷ [])
  update :
      (i : String) (f : Job → Job) (c : Job)
      → find_job i js ≡ some c
      → may_become c.status (f c).status ≡ true
      → Preserves f
      → (c.last_error ≢ none → (f c).last_error ≢ none)
      → TableStep Q js (update_where i f js)

may_become_refl : (a : JobStatus) → may_become a a ≡ true
unfolding may_become
may_become_refl a = ground arith

module _ {Q : Job → Type 0} (i : String) (f : Job → ℕ → Job → Job) (s : Db) where
  update_known-TableStep :
      ((c : Job) → Preserves (f c s.now))
      → ((c : Job) → (f c s.now c).status ≡ c.status)
      → ((c : Job) → c.last_error ≢ none → (f c s.now c).last_error ≢ none)
      → TableStep Q s.jobs (update_known i f s).1.jobs
  update_known-TableStep p st er = elim (Option-cases (find_job i s.jobs)) [
    | inl e ↦ rw (update_known-unknown i f s e) same
    | inr (c, e) ↦
        rw (update_known-done i f s (p c).id e)
          (update i (f c s.now) c e (rw (st c) (may_become_refl c.status)) (p c) (er c))
  ]

create-TableStep :
    {Q : Job → Type 0} (j : Job) (s : Db)
    → Q j
    → TableStep Q s.jobs (create_job_idempotent j s).1.jobs
create-TableStep j s q = elim (Bool-cases (violates j s.jobs)) [
  | inr v ↦ rw (create_job_idempotent-new j s v) (insert j q v)
  | inl v ↦ elim (Option-cases (find_request j.type j.client_request_id s.jobs)) [
    | inl e ↦ rw (create_job_idempotent-clash j s v e) same
    | inr (_, e) ↦ rw (create_job_idempotent-existing j s v e) same
  ]
]

pub written-Preserves :
    (c : Job) (to : JobStatus) (ch : StatusChange) (now : ℕ) → Preserves (written c to ch now)
written-Preserves c to ch now = ground arith

pub runtime_written-Preserves :
    (r : RuntimeFields) (c : Job) (now : ℕ) → Preserves (runtime_written r c now)
runtime_written-Preserves r c now = ground arith

with_metadata-Preserves : (m : Fields) (now : ℕ) → Preserves (with_metadata m now)
with_metadata-Preserves m now = ground arith

with_artifacts-Preserves : (a : Artifacts) (now : ℕ) → Preserves (with_artifacts a now)
with_artifacts-Preserves a now = ground arith

set_job_status-TableStep :
    {Q : Job → Type 0} (i : String) (to : JobStatus) (ch : StatusChange) (s : Db)
    → TableStep Q s.jobs (set_job_status i to ch s).1.jobs
set_job_status-TableStep i to ch s = elim (Option-cases (find_job i s.jobs)) [
  | inl e ↦ rw (set_job_status-unknown i to ch s e) same
  | inr (c, e) ↦ elim (Bool-cases (may_become c.status to)) [
    | inl v ↦
        rw (set_job_status-done i to ch s e v)
          (update i (written c to ch s.now) c e v (written-Preserves c to ch s.now) (ground arith))
    | inr v ↦ rw (set_job_status-invalid i to ch s e v) same
  ]
]

download-jobs : (i v c p : String) (s : Db) → (record_downloaded_asset i v c p s).1.jobs ≡ s.jobs
unfolding record_downloaded_asset
download-jobs i v c p s = ground arith

-- Every transaction changes the table of jobs in one of these ways.
pub run_op-TableStep : (o : Op) (s : Db) → TableStep (λ j. o ≡ create j) s.jobs (run_op o s).jobs
unfolding run_op
run_op-TableStep (create j) s = create-TableStep j s refl
run_op-TableStep (set_status i to ch) s = set_job_status-TableStep i to ch s
run_op-TableStep (runtime i r) s =
    unfold update_job_runtime_fields in
    update_known-TableStep i (runtime_written r) s (λ c. runtime_written-Preserves r c s.now)
      (λ c. refl) (λ c. ground arith)
run_op-TableStep (metadata i m) s =
    unfold update_job_provider_metadata in
    update_known-TableStep i (λ c. with_metadata m) s (λ c. with_metadata-Preserves m s.now)
      (λ c. refl) (λ c h. h)
run_op-TableStep (artifacts i a) s =
    unfold attach_job_artifacts in
    update_known-TableStep i (λ c. with_artifacts a) s (λ c. with_artifacts-Preserves a s.now)
      (λ c. refl) (λ c h. h)
run_op-TableStep (save_asset i m) s = unfold save_imported_asset in same
run_op-TableStep (download i v c p) s = rw (download-jobs i v c p s) same
run_op-TableStep (wait n) s = same
