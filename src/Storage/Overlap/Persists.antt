-- ===== src/Storage/Overlap/Persists.antt =====
-- What every overlap of calls keeps of the row of a job.
use suno_studio.Prelude.{
  ℕ, zero, suc, ◌≤◌, String, ◌≡◌, ◌≢◌, refl, none, some, List, [], ◌∷◌, ◌==◌, arith, inl, inr,
  Bool-cases,
}
use suno_studio.Models.{Job}
use suno_studio.Storage.Tables.{Db, find_job}
use suno_studio.Storage.Ops.{run_op, run_ops}
use suno_studio.Storage.Steps.{Preserves}
use suno_studio.Storage.Lifecycle.{Evolves, run_ops-Evolves}
use suno_studio.Storage.Overlap.{
  Pending, Threads, Turn, whole, reads, writes, write_at, run_turn, run_turns,
}
use suno_studio.Storage.Overlap.Writes.{row_written, row_written-Preserves, find_job-write_call}

-- `b` is a later version of the row `a`, whatever has become of its status.
pub record Persists (a b : Job) : Type 0 where
  pub id : b.id ≡ a.id
  pub type : b.type ≡ a.type
  pub client_request_id : b.client_request_id ≡ a.client_request_id
  pub payload : b.payload ≡ a.payload
  pub provider_mode : b.provider_mode ≡ a.provider_mode
  pub created_at : b.created_at ≡ a.created_at
  pub attempts : a.attempts ≤ b.attempts
  pub remote_job_id : a.remote_job_id ≢ none → b.remote_job_id ≢ none

Persists-refl : (a : Job) → Persists a a
Persists-refl a = record {
  id = refl;
  type = refl;
  client_request_id = refl;
  payload = refl;
  provider_mode = refl;
  created_at = refl;
  attempts = omega arith;
  remote_job_id = λ h. h;
}

Persists-trans : {a b c : Job} → Persists a b → Persists b c → Persists a c
Persists-trans p q = record {
  id = cc;
  type = cc;
  client_request_id = cc;
  payload = cc;
  provider_mode = cc;
  created_at = cc;
  attempts = omega arith;
  remote_job_id = λ h. q.remote_job_id (p.remote_job_id h);
}

Evolves-Persists : {a b : Job} → Evolves a b → Persists a b
Evolves-Persists e = record {
  id = e.id;
  type = e.type;
  client_request_id = e.client_request_id;
  payload = e.payload;
  provider_mode = e.provider_mode;
  created_at = e.created_at;
  attempts = e.attempts;
  remote_job_id = e.remote_job_id;
}

Preserves-Persists : {f : Job → Job} → Preserves f → (a : Job) → Persists a (f a)
Preserves-Persists p a = record {
  id = p.id a;
  type = p.type a;
  client_request_id = p.client_request_id a;
  payload = p.payload a;
  provider_mode = p.provider_mode a;
  created_at = p.created_at a;
  attempts = p.attempts a;
  remote_job_id = p.remote_job_id a;
}

module _ (i : String) where
  abbrev Later : Job → Db → Type 0
  Later a s = (b : Job) × (find_job i s.jobs ≡ some b) × Persists a b

  write_at-Later :
      (n : ℕ) (ps : List Pending) (s : Db) {a : Job}
      → find_job i s.jobs ≡ some a
      → Later a (write_at n ps s)
  unfolding write_at
  write_at-Later n [] s {a} there = (a, there, Persists-refl a)
  write_at-Later zero (p ∷ ps) s {a} there =
      let f : Job → Job = row_written p.call p.current s.now in
      let kept : Persists a (f a) =
        Preserves-Persists (row_written-Preserves p.call p.current s.now) a in
      (
        _,
        find_job-write_call i p s there,
        elim (Bool-cases (p.id == i)) [ inl y ↦ rw y kept | inr n ↦ rw n (Persists-refl a) ],
      )
  write_at-Later (suc n) (p ∷ ps) s there = write_at-Later n ps s there

  run_turn-Later :
      (x : Turn) (t : Threads) {a : Job} → find_job i t.db.jobs ≡ some a → Later a (run_turn x t).db
  unfolding run_turn run_op run_ops
  run_turn-Later (whole o) t there =
      let (b, found, e) = run_ops-Evolves i (o ∷ []) t.db there in (b, found, Evolves-Persists e)
  run_turn-Later (reads k call) t {a} there = (a, there, Persists-refl a)
  run_turn-Later (writes n) t there = write_at-Later n t.pending t.db there

  -- However the calls of the threads overlap, a job that is in the table is found under its id after
  -- them, with the same type, client request id, payload, provider mode and creation time, with no
  -- fewer attempts, and with a remote id if it had one.
  pub run_turns-Persists :
      (xs : List Turn) (t : Threads) {a : Job}
      → find_job i t.db.jobs ≡ some a
      → (b : Job) × (find_job i (run_turns xs t).db.jobs ≡ some b) × Persists a b
  unfolding run_turns
  run_turns-Persists [] t {a} there = (a, there, Persists-refl a)
  run_turns-Persists (x ∷ xs) t there =
      let (b, found, e) = run_turn-Later x t there in
      let (c, last, f) = run_turns-Persists xs _ found in (c, last, Persists-trans e f)
