-- ===== src/Storage/Overlap/Witnesses.antt =====
-- The theorems on calls that overlap, at a table with one job.
use suno_studio.Prelude.{◌≡◌, refl, none, some, List, [], ◌∷◌, ◌++◌}
use suno_studio.Models.{Job}
use suno_studio.Models.Status.{JobStatus, downloading, complete, cancelling, may_become}
use suno_studio.Storage.{defaults}
use suno_studio.Storage.Tables.{Db, empty, find_job}
use suno_studio.Storage.Ops.{wait}
use suno_studio.Storage.Witnesses.{row}
use suno_studio.Storage.Overlap.{
  status_call, runtime_call, Threads, Turn, whole, reads, writes, run_turns,
}
use suno_studio.Storage.Overlap.Writes.{transition_of}
use suno_studio.Storage.Overlap.Terminal.{run_turns-terminal}
use suno_studio.Storage.Overlap.Race.{raced, set_job_status-overwrites}
use suno_studio.Storage.Overlap.Persists.{Persists, run_turns-Persists}

abbrev table : JobStatus → Db
table status = record (empty 5) { jobs = row "j1" status ∷ [] }

-- An update of the progress is under way.
abbrev threads : Threads
threads = record {
  db = table complete;
  pending =
      record {
        id = "j1";
        call =
            runtime_call (record { progress = some 50; last_error = none; remote_job_id = none });
        current = row "j1" downloading;
      }
      ∷ [];
}

abbrev turns : List Turn
turns =
    reads "j1" (status_call cancelling defaults)
    ∷ whole (wait 3)
    ∷ reads "j1" (status_call complete defaults)
    ∷ writes 0
    ∷ writes 0
    ∷ []

run_turns-terminal_example :
    (b : Job) × (find_job "j1" (run_turns turns threads).db.jobs ≡ some b) × (b.status ≡ complete)
run_turns-terminal_example =
    run_turns-terminal "j1" turns threads {a = row "j1" complete} (unfold find_job in refl) refl
      ((λ _. tt), tt)

run_turns-Persists_example :
    (b : Job) × (find_job "j1" (run_turns turns threads).db.jobs ≡ some b)
    × Persists (row "j1" complete) b
run_turns-Persists_example =
    run_turns-Persists "j1" turns threads {a = row "j1" complete} (unfold find_job in refl)

-- The worker completes the job while it is cancelled.
set_job_status-overwrites_example :
    let s = table downloading in
    let t = raced "j1" s complete cancelling defaults defaults in
    (b : Job) × (find_job "j1" t.db.jobs ≡ some b)
    × (b.status ≡ cancelling)
    × (b.last_error ≡ none)
    × (t.db.job_transitions
        ≡ (s.job_transitions
            ++ transition_of "j1" (row "j1" downloading) complete defaults s.now ∷ [])
          ++ transition_of "j1" (row "j1" downloading) cancelling defaults s.now ∷ [])
set_job_status-overwrites_example =
    set_job_status-overwrites "j1" (table downloading) complete cancelling defaults defaults
      {c = row "j1" downloading} (unfold find_job in refl) (unfold may_become in refl)
      (unfold may_become in refl)
