-- ===== src/Storage/Overlap/Writes.antt =====
-- What the two parts of a call do to the row of a job.
use suno_studio.Prelude.{
  ℕ, String, ◌≡◌, refl, true, none, some, [], ◌∷◌, ◌++◌, ◌==◌, if◌then◌else◌, inl, inr, Bool-cases,
  Option-cases, eq_iff, eq_refl, sym, ap,
}
use suno_studio.Exec.{Result, ok}
use suno_studio.Models.{Job, JobTransition}
use suno_studio.Models.Status.{JobStatus, may_become}
use suno_studio.Storage.{
  StatusChange, check_status, write_status, written, write_known, runtime_written,
}
use suno_studio.Storage.Tables.{Db, find_job, update_where}
use suno_studio.Storage.Find.{KeepsId, find_job-update_where}
use suno_studio.Storage.Updates.{find_job-update_where_self}
use suno_studio.Storage.Steps.{Preserves, written-Preserves, runtime_written-Preserves}
use suno_studio.Storage.Overlap.{Call, status_call, runtime_call, Pending, read_call, write_call}

abbrev pub transition_of : String → Job → JobStatus → StatusChange → ℕ → JobTransition
transition_of i c to ch now = record {
  job_id = i;
  from_status = c.status;
  to_status = to;
  occurred_at = now;
  reason = ch.reason;
}

abbrev pub after_writes : String → JobStatus → StatusChange → Job → Db → Db
after_writes i to ch c s = record s {
  jobs = update_where i (written c to ch s.now) s.jobs;
  job_transitions = s.job_transitions ++ transition_of i c to ch s.now ∷ [];
}

module _ (k : String) (to : JobStatus) (ch : StatusChange) (c : Job) (s : Db) where
  write_status-unknown : find_job k s.jobs ≡ none → (write_status k to ch c s).1 ≡ s
  unfolding write_status
  write_status-unknown h =
      rw (find_job-update_where k k (written c to ch s.now) s.jobs (λ j. refl), eq_refl, h)

  write_status-done :
      {d : Job}
      → find_job k s.jobs ≡ some d
      → (write_status k to ch c s).1 ≡ after_writes k to ch c s
  unfolding write_status
  write_status-done h =
      rw (find_job-update_where_self k (written c to ch s.now) s.jobs (λ j. refl) h)

  check_status-ok :
      find_job k s.jobs ≡ some c → may_become c.status to ≡ true → check_status k to s ≡ (ok c, s)
  unfolding check_status
  check_status-ok h v = rw (h, v)

  pub read_call-ok :
      find_job k s.jobs ≡ some c
      → may_become c.status to ≡ true
      → read_call k (status_call to ch) s ≡ ok c
  unfolding read_call
  read_call-ok h v = ap (λ r. r.0) (check_status-ok h v)

  pub write_call-done :
      {d : Job}
      → find_job k s.jobs ≡ some d
      → write_call (status_call to ch) k c s ≡ after_writes k to ch c s
  unfolding write_call
  write_call-done h = write_status-done h

  pub check_status-read :
      (check_status k to s).0 ≡ ok c
      → (find_job k s.jobs ≡ some c) × (may_become c.status to ≡ true)
  unfolding check_status
  check_status-read h = elim (Option-cases (find_job k s.jobs)) [
    | inl e ↦ absurd (cc (rw e at h))
    | inr (d, e) ↦ elim (Bool-cases (may_become d.status to)) [
      | inr v ↦ absurd (cc (rw (e, v) at h))
      | inl v ↦
          let same : ◌≡◌ {A = Result Job} (ok d) (ok c) = rw (e, v) at h in
          let d_is_c : d ≡ c = cc same in (rw e (rw d_is_c refl), rw (sym d_is_c) v)
    ]
  ]

module _ (k : String) (f : ℕ → Job → Job) (s : Db) (h : KeepsId (f s.now)) where
  write_known-unknown : find_job k s.jobs ≡ none → (write_known k f s).1 ≡ s
  unfolding write_known
  write_known-unknown e = rw (find_job-update_where k k (f s.now) s.jobs h, eq_refl, e)

  write_known-done :
      {d : Job}
      → find_job k s.jobs ≡ some d
      → (write_known k f s).1 ≡ record s { jobs = update_where k (f s.now) s.jobs }
  unfolding write_known
  write_known-done e = rw (find_job-update_where_self k (f s.now) s.jobs h e)

-- What the UPDATE of a call makes of a row.
abbrev pub row_written : Call → Job → ℕ → Job → Job
row_written (status_call to ch) c now = written c to ch now
row_written (runtime_call r) c now = runtime_written r c now

pub row_written-Preserves : (call : Call) (c : Job) (now : ℕ) → Preserves (row_written call c now)
row_written-Preserves (status_call to ch) c now = written-Preserves c to ch now
row_written-Preserves (runtime_call r) c now = runtime_written-Preserves r c now

write_call-jobs :
    (call : Call) (k : String) (c : Job) (s : Db) {d : Job}
    → find_job k s.jobs ≡ some d
    → (write_call call k c s).jobs ≡ update_where k (row_written call c s.now) s.jobs
unfolding write_call
write_call-jobs (status_call to ch) k c s e = rw (write_status-done k to ch c s e)
write_call-jobs (runtime_call r) k c s e =
    rw (write_known-done k (runtime_written r c) s (λ j. refl) e)

write_call-unknown :
    (call : Call) (k : String) (c : Job) (s : Db)
    → find_job k s.jobs ≡ none
    → write_call call k c s ≡ s
unfolding write_call
write_call-unknown (status_call to ch) k c s e = write_status-unknown k to ch c s e
write_call-unknown (runtime_call r) k c s e =
    write_known-unknown k (runtime_written r c) s (λ j. refl) e

-- The row of a job after the writes of a call: the call's, if it is a call for this job.
pub find_job-write_call :
    (i : String) (p : Pending) (s : Db) {b : Job}
    → find_job i s.jobs ≡ some b
    → find_job i (write_call p.call p.id p.current s).jobs
      ≡ some (if p.id == i then row_written p.call p.current s.now b else b)
find_job-write_call i p s {b} h =
    let keeps = (row_written-Preserves p.call p.current s.now).id in
    elim (Option-cases (find_job p.id s.jobs)) [
      | inl e ↦ elim (Bool-cases (p.id == i)) [
        | inl y ↦ let same_id : p.id ≡ i = (eq_iff p.id i).0 y in absurd (cc (e, h, same_id))
        | inr n ↦ rw n (rw (write_call-unknown p.call p.id p.current s e) h)
      ]
      | inr (d, e) ↦
          rw
            (
              write_call-jobs p.call p.id p.current s e,
              find_job-update_where i p.id (row_written p.call p.current s.now) s.jobs keeps,
              h,
            )
            (elim (Bool-cases (p.id == i)) [ inl y ↦ rw y | inr n ↦ rw n ])
    ]
