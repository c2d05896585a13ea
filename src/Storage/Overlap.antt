-- ===== src/Storage/Overlap.antt =====
-- storage/durable_storage.py: calls of `set_job_status` and `update_job_runtime_fields` that overlap.
-- Each call has a connection of its own, and its SELECT runs before sqlite3 begins the transaction for
-- its UPDATE, so that other threads may write between the two. A method that decides nothing by what
-- it reads before its transaction runs as a whole.
pub mod Writes
pub mod Terminal
pub mod Race
pub mod Persists
pub mod Witnesses
use suno_studio.Prelude.{ℕ, zero, suc, String, List, [], ◌∷◌, ◌++◌}
use suno_studio.Exec.{Exec, Result, ok, err, ◌>>=◌}
use suno_studio.Models.{Job}
use suno_studio.Models.Status.{JobStatus}
use suno_studio.Storage.{
  StatusChange, RuntimeFields, check_status, write_status, read_known, write_known, runtime_written,
}
use suno_studio.Storage.Tables.{Db}
use suno_studio.Storage.Ops.{Op, run_op}

-- The two methods, with their arguments.
pub data Call : Type 0 where
  status_call : JobStatus → StatusChange → Call
  runtime_call : RuntimeFields → Call

-- A call for the job `id` that has read the row `current`, and has not written yet.
pub record Pending : Type 0 where
  pub id : String
  pub call : Call
  pub current : Job

pub record Threads : Type 0 where
  pub db : Db
  pub pending : List Pending

-- What the threads do next: one runs a method as a whole, or one reads in one of the two calls, or the
-- unfinished call at a place in the list writes.
pub data Turn : Type 0 where
  whole : Op → Turn
  reads : String → Call → Turn
  writes : ℕ → Turn

unfoldable read_call : String → Call → Db → Result Job
unfolding check_status read_known
read_call i (status_call to ch) db = (check_status i to db).0
read_call i (runtime_call r) db = (read_known i db).0

unfoldable write_call : Call → String → Job → Db → Db
write_call (status_call to ch) i current db = (write_status i to ch current db).1
write_call (runtime_call r) i current db = (write_known i (runtime_written r current) db).1

-- A call that raises before it writes is over.
unfoldable begun : String → Call → Result Job → List Pending
begun i call (ok c) = record { id = i; call = call; current = c } ∷ []
begun i call (err e) = []

unfoldable write_at : ℕ → List Pending → Db → Db
unfolding write_call
write_at n [] db = db
write_at zero (p ∷ ps) db = write_call p.call p.id p.current db
write_at (suc n) (p ∷ ps) db = write_at n ps db

unfoldable without : ℕ → List Pending → List Pending
without n [] = []
without zero (p ∷ ps) = ps
without (suc n) (p ∷ ps) = p ∷ without n ps

unfoldable run_turn : Turn → Threads → Threads
unfolding read_call begun write_at without
run_turn (whole o) t = record t { db = run_op o t.db }
run_turn (reads i call) t = record t { pending = t.pending ++ begun i call (read_call i call t.db) }
run_turn (writes n) t = record { db = write_at n t.pending t.db; pending = without n t.pending }

unfoldable run_turns : List Turn → Threads → Threads
unfolding run_turn
run_turns [] t = t
run_turns (x ∷ xs) t = run_turns xs (run_turn x t)
