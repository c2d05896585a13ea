-- ===== src/Storage/History.antt =====
-- storage/durable_storage.py: the table `job_transitions`, and what it says of the table `jobs`.
use suno_studio.Prelude.{
  ℕ, String, ◌≡◌, refl, sym, ◌∙◌, ap, Bool, true, false, Option, none, some, List, [], ◌∷◌, ◌++◌,
  eq_iff, some_inj, inl, inr, Bool-cases, Option-cases, All, ◌==◌, if◌then◌else◌,
}
use suno_studio.Models.{Job, JobTransition}
use suno_studio.Models.Status.{JobStatus, created, same_status, same_status_iff, may_become}
use suno_studio.Storage.Tables.{Db, empty, find_job, violates, stored, update_where, find_request}
use suno_studio.Storage.Find.{KeepsId, map_found, or_else, find_job-update_where, find_job-append}
use suno_studio.Storage.Ops.{
  Op, create, set_status, runtime, metadata, artifacts, save_asset, download, wait, run_op, run_ops,
}
use suno_studio.Storage.Updates.{
  set_job_status-unknown, set_job_status-invalid, set_job_status-done, update_known-unknown,
  update_known-done, create_job_idempotent-new, create_job_idempotent-existing,
  create_job_idempotent-clash,
}
use suno_studio.Storage.Downloads.{
  is_recorded, record_downloaded_asset-new, record_downloaded_asset-known,
}
use suno_studio.Storage.{
  StatusChange, create_job_idempotent, set_job_status, update_job_runtime_fields,
  update_job_provider_metadata, attach_job_artifacts, save_imported_asset, record_downloaded_asset,
  written, runtime_written, with_metadata, with_artifacts, update_known,
}

-- Follows the transitions of the job `i` from a status; `none` if one does not start where the one
-- before it ended.
pub replay : String → JobStatus → List JobTransition → Option JobStatus
replay i a [] = some a
replay i a (t ∷ ts) =
    if t.job_id == i
    then elim (same_status t.from_status a) [ true ↦ replay i t.to_status ts | false ↦ none ]
    else replay i a ts

-- The status of a row, and of a job that is yet to be created.
abbrev status_or_created : Option Job → JobStatus
status_or_created none = created
status_or_created (some j) = j.status

abbrev pub IsHistory : Db → Type 0
IsHistory s =
    (i : String) → replay i created s.job_transitions ≡ some (status_or_created (find_job i s.jobs))

-- Jobs are created with the status `created`, as `_create_job` does.
abbrev pub StartsCreated : Op → Type 0
StartsCreated (create j) = j.status ≡ created
StartsCreated _ = Unit

-- No job, no transition.
pub empty-IsHistory : (now : ℕ) → IsHistory (empty now)
unfolding replay find_job
empty-IsHistory now = λ i. refl

-- One more transition at the end of a history.
replay-append :
    (i : String) (a b : JobStatus) (ts : List JobTransition) (t : JobTransition)
    → replay i a ts ≡ some b
    → (t.job_id ≡ i → t.from_status ≡ b)
    → replay i a (ts ++ t ∷ []) ≡ some (if t.job_id == i then t.to_status else b)
unfolding replay
replay-append i a b [] t h k = elim (Bool-cases (t.job_id == i)) [
  | inl y ↦
      rw (y, (same_status_iff t.from_status a).1 (k ((eq_iff t.job_id i).0 y) ∙ sym (some_inj h)))
  | inr n ↦ rw n h
]
replay-append i a b (u ∷ ts) t h k = elim (Bool-cases (u.job_id == i)) [
  | inr n ↦ rw n (replay-append i a b ts t (rw n at h) k)
  | inl y ↦ elim (Bool-cases (same_status u.from_status a)) [
    | inl z ↦ rw (y, z) (replay-append i u.to_status b ts t (rw (y, z) at h) k)
    | inr z ↦ let stuck : none ≡ some b = rw (y, z) at h in cc
  ]
]

abbrev KeepsStatus : (Job → Job) → Type 0
KeepsStatus f = (j : Job) → (f j).status ≡ j.status

-- An UPDATE that leaves the status alone changes no status.
status-update_where :
    (i k : String) (f : Job → Job) (js : List Job)
    → KeepsId f
    → KeepsStatus f
    → status_or_created (find_job i (update_where k f js)) ≡ status_or_created (find_job i js)
status-update_where i k f js h st =
    rw (find_job-update_where i k f js h) (kept (k == i) (find_job i js))
  where
    kept :
        (b : Bool) (o : Option Job)
        → status_or_created (if b then map_found f o else o) ≡ status_or_created o
    kept true none = refl
    kept true (some j) = st j
    kept false o = refl

update_known-IsHistory :
    (k : String) (f : Job → ℕ → Job → Job) (s : Db)
    → ((c : Job) → KeepsId (f c s.now))
    → ((c : Job) → KeepsStatus (f c s.now))
    → IsHistory s
    → IsHistory (update_known k f s).1
update_known-IsHistory k f s h st v i = elim (Option-cases (find_job k s.jobs)) [
  | inl e ↦ rw (update_known-unknown k f s e) (v i)
  | inr (c, e) ↦
      rw (update_known-done k f s (h c) e)
        (v i ∙ ap some (sym (status-update_where i k (f c s.now) s.jobs (h c) (st c))))
]

status-stored :
    (i : String) (j : Job)
    → j.status ≡ created
    → status_or_created (find_job i (stored j ∷ [])) ≡ created
unfolding find_job stored
status-stored i j h = elim (Bool-cases (j.id == i)) [ inl y ↦ rw y h | inr n ↦ rw n ]

create-IsHistory :
    (j : Job) (s : Db) → j.status ≡ created → IsHistory s → IsHistory (create_job_idempotent j s).1
create-IsHistory j s h v i = elim (Bool-cases (violates j s.jobs)) [
  | inr new ↦
      rw (create_job_idempotent-new j s new, find_job-append)
        (v i ∙ ap some (sym (appended (find_job i s.jobs))))
  | inl clash ↦ elim (Option-cases (find_request j.type j.client_request_id s.jobs)) [
    | inl e ↦ rw (create_job_idempotent-clash j s clash e) (v i)
    | inr (_, e) ↦ rw (create_job_idempotent-existing j s clash e) (v i)
  ]
]
  where
    appended :
        (o : Option Job)
        → status_or_created (or_else o (find_job i (stored j ∷ []))) ≡ status_or_created o
    appended none = status-stored i j h
    appended (some c) = refl

-- The row that is found under `i` when the row `c` of `k` is given a status.
status-moved :
    (i k : String) (f : Job → Job) (o : Option Job) {c : Job}
    → (k ≡ i → o ≡ some c)
    → status_or_created (if k == i then map_found f o else o)
      ≡ (if k == i then (f c).status else status_or_created o)
status-moved i k f o {c} h = elim (Bool-cases (k == i)) [
  | inl y ↦ rw (y, h ((eq_iff k i).0 y))
  | inr n ↦ rw n
]

set_job_status-IsHistory :
    (k : String) (to : JobStatus) (ch : StatusChange) (s : Db)
    → IsHistory s
    → IsHistory (set_job_status k to ch s).1
set_job_status-IsHistory k to ch s v i = elim (Option-cases (find_job k s.jobs)) [
  | inl e ↦ rw (set_job_status-unknown k to ch s e) (v i)
  | inr (c, e) ↦
      let at : k ≡ i → find_job i s.jobs ≡ some c = λ q. rw (sym q) e in
      elim (Bool-cases (may_become c.status to)) [
        | inr no_way ↦ rw (set_job_status-invalid k to ch s e no_way) (v i)
        | inl way ↦ rw (set_job_status-done k to ch s e way) (
            replay-append i created (status_or_created (find_job i s.jobs)) s.job_transitions _
              (v i) (λ q. sym (ap status_or_created (at q)))
            ∙ ap some (
                sym (
                  ap status_or_created
                    (find_job-update_where i k (written c to ch s.now) s.jobs (λ j. refl))
                  ∙ status-moved i k (written c to ch s.now) (find_job i s.jobs) at)))
      ]
]

download-IsHistory :
    (k w c p : String) (s : Db) → IsHistory s → IsHistory (record_downloaded_asset k w c p s).1
download-IsHistory k w c p s v i = elim (Bool-cases (is_recorded k w c s)) [
  | inl y ↦ rw (record_downloaded_asset-known k w c p s y) (v i)
  | inr n ↦ rw (record_downloaded_asset-new k w c p s n) (v i)
]

run_op-IsHistory : (o : Op) (s : Db) → StartsCreated o → IsHistory s → IsHistory (run_op o s)
unfolding run_op
run_op-IsHistory (create j) s h v = create-IsHistory j s h v
run_op-IsHistory (set_status k to ch) s h v = set_job_status-IsHistory k to ch s v
run_op-IsHistory (runtime k r) s h v =
    unfold update_job_runtime_fields in
    update_known-IsHistory k (runtime_written r) s (λ c j. refl) (λ c j. refl) v
run_op-IsHistory (metadata k m) s h v =
    unfold update_job_provider_metadata in
    update_known-IsHistory k (λ c. with_metadata m) s (λ c j. refl) (λ c j. refl) v
run_op-IsHistory (artifacts k a) s h v =
    unfold attach_job_artifacts in
    update_known-IsHistory k (λ c. with_artifacts a) s (λ c j. refl) (λ c j. refl) v
run_op-IsHistory (save_asset k m) s h v = unfold save_imported_asset in v
run_op-IsHistory (download k w c p) s h v = download-IsHistory k w c p s v
run_op-IsHistory (wait n) s h v = v

-- If each job is created with the status `created`, and the table of transitions is the history of
-- the jobs, then it is so after any transactions: the transitions of a job, in their order, start
-- at `created`, each starts where the one before it ended, and the last ends at the job's status.
pub run_ops-IsHistory :
    (os : List Op) (s : Db) → All StartsCreated os → IsHistory s → IsHistory (run_ops os s)
unfolding run_ops
run_ops-IsHistory [] s h v = v
run_ops-IsHistory (o ∷ os) s h v =
    run_ops-IsHistory os (run_op o s) h.1 (run_op-IsHistory o s h.0 v)
