-- ===== src/Plugin.antt =====
-- plugin/session_state.py: APVTSSessionState. `saved` is the content of the file at `state_path`, if
-- there is one; `dumps_sorted` is `json.dumps(…, indent=2, sort_keys=True)`. UUIDs are texts.
pub mod Entries
pub mod Requests
pub mod Coding
pub mod Reload
pub mod Witnesses
use mathlib.Core.List.{reverse}
use suno_studio.Prelude.{
  String, Bool, true, false, not, ◌&&◌, ◌||◌, Option, none, some, List, [], ◌∷◌, if◌then◌else◌,
}
use suno_studio.Exec.{key_error, Result, ok, err, Exec}
use suno_studio.Models.{Job}
use suno_studio.Models.Values.{Json, Fields, present}
use suno_studio.Models.Status.{JobStatus, complete, failed, same_status}
use suno_studio.Storage.Tables.{Db, find_job}
use suno_studio.Storage.{list_jobs_by_ids}
use Entries.{SubmissionEntry, Submissions, find_entry, put_entry, payload, loaded_submissions}

pub record SessionState : Type 0 where
  pub submissions : Submissions
  pub saved : Option String

abbrev new_entry : String → String → SubmissionEntry
new_entry k new = record { submission_id = k; request_id = new; job_id = none; resolved = false }

abbrev is_unresolved : SubmissionEntry → Bool
is_unresolved e = present e.job_id && not e.resolved

text_of : Option String → String
text_of none = ""
text_of (some i) = i

unfoldable unresolved_ids : Submissions → List String
unfolding text_of
unresolved_ids [] = []
unresolved_ids ((k, e) ∷ m) =
    let rest = unresolved_ids m in if is_unresolved e then text_of e.job_id ∷ rest else rest

-- jobs.get(entry.job_id or ""), where of two jobs with one id the later one is in the dict
unfoldable job_of : List Job → SubmissionEntry → Option Job
unfolding text_of
job_of jobs e = find_job (text_of e.job_id) (reverse jobs)

abbrev is_over : JobStatus → Bool
is_over s = same_status s complete || same_status s failed

abbrev resolved_by : Option Job → SubmissionEntry → SubmissionEntry
resolved_by none e = e
resolved_by (some job) e = if is_over job.status then record e { resolved = true } else e

-- What the loop makes of an entry.
reconcile_entry : List Job → SubmissionEntry → SubmissionEntry
reconcile_entry jobs e = if is_unresolved e then resolved_by (job_of jobs e) e else e

reconcile_entries : List Job → Submissions → Submissions
reconcile_entries jobs [] = []
reconcile_entries jobs ((k, e) ∷ m) = (k, reconcile_entry jobs e) ∷ reconcile_entries jobs m

abbrev is_known : Option Job → Bool
is_known none = false
is_known (some job) = true

unfoldable reconciled_of : List Job → Submissions → List SubmissionEntry
reconciled_of jobs [] = []
reconciled_of jobs ((k, e) ∷ m) =
    let rest = reconciled_of jobs m in
    if is_unresolved e && is_known (job_of jobs e) then reconcile_entry jobs e ∷ rest else rest

module _ (dumps_sorted : Fields → String) where
  -- A change of `submissions`, and `self.save()`.
  abbrev with_saved : Submissions → SessionState → SessionState
  with_saved m s = record s { submissions = m; saved = some (dumps_sorted (payload m)) }

  abbrev ensured :
      String → String → Option SubmissionEntry → SessionState → Result String × SessionState
  ensured k new (some existing) s = (ok existing.request_id, s)
  ensured k new none s = (ok new, with_saved (put_entry k (new_entry k new) s.submissions) s)

  -- `new` is what `uuid4` returns.
  pub ensure_request_id : String → String → Exec SessionState String
  ensure_request_id k new s = ensured k new (find_entry k s.submissions) s

  abbrev marked :
      String → String → Option SubmissionEntry → SessionState → Result (Unit {0}) × SessionState
  marked k i none s = (err key_error, s)
  marked k i (some e) s =
      (ok tt, with_saved (put_entry k (record e { job_id = some i }) s.submissions) s)

  pub mark_job : String → String → Exec SessionState (Unit {0})
  mark_job k i s = marked k i (find_entry k s.submissions) s

  abbrev saved_if_any : List SubmissionEntry → Submissions → SessionState → SessionState
  saved_if_any [] m s = record s { submissions = m }
  saved_if_any (e ∷ es) m s = with_saved m s

  abbrev reconciled :
      Result (List Job) → SessionState → Result (List SubmissionEntry) × SessionState
  reconciled (err e) s = (err e, s)
  reconciled (ok jobs) s =
      let found = reconciled_of jobs s.submissions in
      (ok found, saved_if_any found (reconcile_entries jobs s.submissions) s)

  -- The tables of the storage are only read.
  pub reconcile_unresolved : Db → Exec SessionState (List SubmissionEntry)
  reconcile_unresolved db s = reconciled (list_jobs_by_ids (unresolved_ids s.submissions) db).0 s

-- load, where `loads` is `json.loads`
module _ (loads : String → Result Json) (parse_uuid : String → Option String) where
  abbrev with_loaded : Result Submissions → SessionState → Result (Unit {0}) × SessionState
  with_loaded (err e) s = (err e, s)
  with_loaded (ok m) s = (ok tt, record s { submissions = m })

  abbrev load_raw : Result Json → SessionState → Result (Unit {0}) × SessionState
  load_raw (err e) s = (err e, s)
  load_raw (ok raw) s = with_loaded (loaded_submissions parse_uuid raw) s

  abbrev load_file : Option String → SessionState → Result (Unit {0}) × SessionState
  load_file none s = (ok tt, s)
  load_file (some text) s = load_raw (loads text) s

  pub load : Exec SessionState (Unit {0})
  unfolding loaded_submissions
  load s = load_file s.saved s
