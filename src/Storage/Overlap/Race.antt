-- ===== src/Storage/Overlap/Race.antt =====
-- Two calls of `set_job_status` that both read before either writes.
use suno_studio.Prelude.{String, ◌≡◌, refl, true, some, [], ◌∷◌, ◌++◌, coalesce}
use suno_studio.Models.{Job}
use suno_studio.Models.Status.{JobStatus, may_become}
use suno_studio.Storage.{StatusChange, written}
use suno_studio.Storage.Tables.{Db, find_job}
use suno_studio.Storage.Updates.{find_job-update_where_self}
use suno_studio.Storage.Overlap.{
  status_call, Threads, reads, writes, begun, write_at, without, run_turn, run_turns,
}
use suno_studio.Storage.Overlap.Writes.{read_call-ok, write_call-done, transition_of, after_writes}

module _ (i : String) (s : Db) (to₁ to₂ : JobStatus) (ch₁ ch₂ : StatusChange) where
  -- Both calls read, then the first writes, and then the second.
  abbrev pub raced : Threads
  raced =
      run_turns
        (reads i (status_call to₁ ch₁) ∷ reads i (status_call to₂ ch₂) ∷ writes 0 ∷ writes 0 ∷ [])
        (record { db = s; pending = [] })

  -- If two calls of `set_job_status` for a job are allowed from its status, and both read the row
  -- before either writes, both write: the job ends with the status of the second, whatever the first
  -- has made of it, and without an error that only the first gave, and the table of transitions gets a
  -- row from the status that was read for each.
  pub set_job_status-overwrites :
      {c : Job}
      → find_job i s.jobs ≡ some c
      → may_become c.status to₁ ≡ true
      → may_become c.status to₂ ≡ true
      → (b : Job) × (find_job i raced.db.jobs ≡ some b)
        × (b.status ≡ to₂)
        × (b.last_error ≡ coalesce ch₂.last_error c.last_error)
        × (raced.db.job_transitions
            ≡ (s.job_transitions ++ transition_of i c to₁ ch₁ s.now ∷ [])
              ++ transition_of i c to₂ ch₂ s.now ∷ [])
  unfolding run_turns run_turn begun write_at without
  set_job_status-overwrites {c} there may₁ may₂ =
      let first = write_call-done i to₁ ch₁ c s there in
      let found = find_job-update_where_self i (written c to₁ ch₁ s.now) s.jobs (λ j. refl) there in
      let between : Db = after_writes i to₁ ch₁ c s in
      let second = write_call-done i to₂ ch₂ c between found in
      rw
        (
          read_call-ok i to₁ ch₁ c s there may₁,
          read_call-ok i to₂ ch₂ c s there may₂,
          first,
          second,
        )
        (
          _,
          find_job-update_where_self i (written c to₂ ch₂ s.now) between.jobs (λ j. refl) found,
          refl,
          refl,
          refl,
        )
