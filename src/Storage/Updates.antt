-- ===== src/Storage/Updates.antt =====
-- What the methods that write to `jobs` do, on every branch.
use suno_studio.Prelude.{
  ℕ, String, ◌≡◌, refl, true, false, none, some, List, [], ◌∷◌, ◌++◌, eq_refl,
}
use suno_studio.Exec.{key_error, value_error, integrity_error, ok, err, ◌>>=◌}
use suno_studio.Models.{Job}
use suno_studio.Models.Status.{JobStatus, may_become}
use suno_studio.Storage.Tables.{Db, find_job, update_where, violates, stored, find_request}
use suno_studio.Storage.Find.{KeepsId, find_job-update_where}
use suno_studio.Storage.{
  StatusChange, create_job_idempotent, set_job_status, read_known, write_known, update_known,
  with_status, written,
}

-- The row that an UPDATE has written is read back.
pub find_job-update_where_self :
    (i : String) (f : Job → Job) (js : List Job) {c : Job}
    → KeepsId f
    → find_job i js ≡ some c
    → find_job i (update_where i f js) ≡ some (f c)
find_job-update_where_self i f js h e = rw (find_job-update_where i i f js h, eq_refl, e)

module _ (i : String) (to : JobStatus) (change : StatusChange) (s : Db) where
  pub set_job_status-unknown :
      find_job i s.jobs ≡ none → set_job_status i to change s ≡ (err key_error, s)
  unfolding set_job_status
  set_job_status-unknown h = rw h

  module _ {c : Job} (h : find_job i s.jobs ≡ some c) where
    pub set_job_status-invalid :
        may_become c.status to ≡ false → set_job_status i to change s ≡ (err value_error, s)
    unfolding set_job_status
    set_job_status-invalid v = rw (h, v)

    pub set_job_status-done :
        may_become c.status to ≡ true
        → set_job_status i to change s ≡ (
          ok (with_status to change s.now c),
          record s {
            jobs = update_where i (written c to change s.now) s.jobs;
            job_transitions =
                s.job_transitions
                ++ record {
                  job_id = i;
                  from_status = c.status;
                  to_status = to;
                  occurred_at = s.now;
                  reason = change.reason;
                }
                  ∷ [];
          },
        )
    unfolding set_job_status
    set_job_status-done v =
        rw (h, v, find_job-update_where_self i (written c to change s.now) s.jobs (λ j. refl) h)

-- The three methods that leave the status alone.
module _ (i : String) (f : Job → ℕ → Job → Job) (s : Db) where
  pub update_known-unknown : find_job i s.jobs ≡ none → update_known i f s ≡ (err key_error, s)
  unfolding read_known write_known ◌>>=◌
  update_known-unknown h = rw h

  pub update_known-done :
      {c : Job}
      → KeepsId (f c s.now)
      → find_job i s.jobs ≡ some c
      → update_known i f s
        ≡ (ok (f c s.now c), record s { jobs = update_where i (f c s.now) s.jobs })
  unfolding read_known write_known ◌>>=◌
  update_known-done {c} k h = rw (h, find_job-update_where_self i (f c s.now) s.jobs k h)

module _ (j : Job) (s : Db) where
  pub create_job_idempotent-new :
      violates j s.jobs ≡ false
      → create_job_idempotent j s ≡ (ok (j, true), record s { jobs = s.jobs ++ stored j ∷ [] })
  unfolding create_job_idempotent
  create_job_idempotent-new h = rw h

  pub create_job_idempotent-existing :
      {e : Job}
      → violates j s.jobs ≡ true
      → find_request j.type j.client_request_id s.jobs ≡ some e
      → create_job_idempotent j s ≡ (ok (e, false), s)
  unfolding create_job_idempotent
  create_job_idempotent-existing h e = rw (h, e)

  pub create_job_idempotent-clash :
      violates j s.jobs ≡ true
      → find_request j.type j.client_request_id s.jobs ≡ none
      → create_job_idempotent j s ≡ (err integrity_error, s)
  unfolding create_job_idempotent
  create_job_idempotent-clash h e = rw (h, e)
