-- ===== src/Plugin/Requests.antt =====
-- plugin/session_state.py: the request id of a submission, under a sequence of calls.
use suno_studio.Prelude.{
  String, ◌≡◌, refl, Option, none, some, List, [], ◌∷◌, arith, eq_iff, eq_refl, sym, ap, some_inj,
  ◌∙◌, inl, inr, Bool-cases, ◌==◌, if◌then◌else◌,
}
use suno_studio.Exec.{Result, ok, err}
use suno_studio.Models.{Job}
use suno_studio.Storage.Tables.{Db}
use suno_studio.Storage.{list_jobs_by_ids}
use suno_studio.Models.Values.{Fields}
use suno_studio.Plugin.Entries.{SubmissionEntry, Submissions, find_entry, put_entry}
use suno_studio.Plugin.{
  with_saved, new_entry, SessionState, ensure_request_id, mark_job, ensured, marked,
  reconcile_entry, reconcile_entries, reconciled, reconciled_of, saved_if_any, resolved_by, job_of,
  is_unresolved, reconcile_unresolved, unresolved_ids,
}

pub data Call : Type 0 where
  ensure : String → String → Call
  mark : String → String → Call
  reconcile : Db → Call

module _ (dumps_sorted : Fields → String) where
  unfoldable pub run_call : Call → SessionState → SessionState
  run_call (ensure k new) s = (ensure_request_id dumps_sorted k new s).1
  run_call (mark k i) s = (mark_job dumps_sorted k i s).1
  run_call (reconcile db) s = (reconcile_unresolved dumps_sorted db s).1

  unfoldable pub run_calls : List Call → SessionState → SessionState
  run_calls [] s = s
  run_calls (c ∷ cs) s = run_calls cs (run_call c s)

  -- The submission `k` has the request id `r`.
  abbrev HasRequest : String → String → SessionState → Type 0
  HasRequest k r s =
      (e : SubmissionEntry) × (find_entry k s.submissions ≡ some e) × (e.request_id ≡ r)

  find_entry-put_entry :
      (k j : String) (e : SubmissionEntry) (m : Submissions)
      → find_entry k (put_entry j e m) ≡ (if j == k then some e else find_entry k m)
  unfolding find_entry put_entry
  find_entry-put_entry k j e [] = refl
  find_entry-put_entry k j e ((i, d) ∷ m) =
      ground (arith, find_entry-put_entry k j e m, eq_iff i k, eq_iff i j, eq_iff j k)

  mapped : List Job → Option SubmissionEntry → Option SubmissionEntry
  mapped jobs none = none
  mapped jobs (some e) = some (reconcile_entry jobs e)

  find_entry-reconcile_entries :
      (k : String) (jobs : List Job) (m : Submissions)
      → find_entry k (reconcile_entries jobs m) ≡ mapped jobs (find_entry k m)
  unfolding find_entry reconcile_entries mapped
  find_entry-reconcile_entries k jobs [] = refl
  find_entry-reconcile_entries k jobs ((i, d) ∷ m) = elim (Bool-cases (i == k)) [
    | inl y ↦ rw y
    | inr n ↦ rw n (find_entry-reconcile_entries k jobs m)
  ]

  -- What the loop changes of an entry is whether it is resolved.
  resolved_by-request :
      (o : Option Job) (e : SubmissionEntry) → (resolved_by o e).request_id ≡ e.request_id
  resolved_by-request none e = refl
  resolved_by-request (some job) e = ground arith

  reconcile_entry-request :
      (jobs : List Job) (e : SubmissionEntry) → (reconcile_entry jobs e).request_id ≡ e.request_id
  unfolding reconcile_entry
  reconcile_entry-request jobs e = elim (Bool-cases (is_unresolved e)) [
    | inl y ↦ rw y (resolved_by-request (job_of jobs e) e)
    | inr n ↦ rw n
  ]

  module _ (k r : String) (s : SessionState) {e : SubmissionEntry}
      (found : find_entry k s.submissions ≡ some e) (same : e.request_id ≡ r) where
    -- A submission with the same request id, or another one, is put into the dict.
    put_entry-HasRequest :
        (j : String) (d : SubmissionEntry)
        → (j ≡ k → d.request_id ≡ r)
        → HasRequest k r (with_saved dumps_sorted (put_entry j d s.submissions) s)
    put_entry-HasRequest j d keeps = elim (Bool-cases (j == k)) [
      | inl y ↦ (d, rw (find_entry-put_entry k j d s.submissions, y), keeps ((eq_iff j k).0 y))
      | inr n ↦ (e, rw (find_entry-put_entry k j d s.submissions, n) found, same)
    ]

    ensured-HasRequest :
        (j new : String) (o : Option SubmissionEntry)
        → find_entry j s.submissions ≡ o
        → HasRequest k r (ensured dumps_sorted j new o s).1
    ensured-HasRequest j new (some d) there = (e, found, same)
    ensured-HasRequest j new none there =
        put_entry-HasRequest j (new_entry j new)
          (λ is. absurd (cc (ap (λ q. find_entry q s.submissions) is, there, found)))

    marked-HasRequest :
        (j i : String) (o : Option SubmissionEntry)
        → find_entry j s.submissions ≡ o
        → HasRequest k r (marked dumps_sorted j i o s).1
    marked-HasRequest j i none there = (e, found, same)
    marked-HasRequest j i (some d) there =
        put_entry-HasRequest j (record d { job_id = some i })
          (λ is.
            ap (λ (x : SubmissionEntry). x.request_id)
              (some_inj (sym there ∙ ap (λ q. find_entry q s.submissions) is ∙ found))
            ∙ same)

    reconciled-HasRequest : (o : Result (List Job)) → HasRequest k r (reconciled dumps_sorted o s).1
    unfolding mapped
    reconciled-HasRequest (err x) = (e, found, same)
    reconciled-HasRequest (ok jobs) = after (reconciled_of jobs s.submissions)
      where
        after :
            (es : List SubmissionEntry)
            → HasRequest k r (saved_if_any dumps_sorted es (reconcile_entries jobs s.submissions) s)
        after [] = (
          reconcile_entry jobs e,
          rw (find_entry-reconcile_entries k jobs s.submissions, found),
          reconcile_entry-request jobs e ∙ same,
        )
        after (d ∷ es) = (
          reconcile_entry jobs e,
          rw (find_entry-reconcile_entries k jobs s.submissions, found),
          reconcile_entry-request jobs e ∙ same,
        )

  run_call-HasRequest :
      (k r : String) (c : Call) (s : SessionState)
      → HasRequest k r s
      → HasRequest k r (run_call c s)
  unfolding run_call ensure_request_id mark_job reconcile_unresolved
  run_call-HasRequest k r (ensure j new) s (e, found, same) =
      ensured-HasRequest k r s found same j new (find_entry j s.submissions) refl
  run_call-HasRequest k r (mark j i) s (e, found, same) =
      marked-HasRequest k r s found same j i (find_entry j s.submissions) refl
  run_call-HasRequest k r (reconcile db) s (e, found, same) =
      reconciled-HasRequest k r s found same (list_jobs_by_ids (unresolved_ids s.submissions) db).0

  run_calls-HasRequest :
      (k r : String) (cs : List Call) (s : SessionState)
      → HasRequest k r s
      → HasRequest k r (run_calls cs s)
  unfolding run_calls
  run_calls-HasRequest k r [] s h = h
  run_calls-HasRequest k r (c ∷ cs) s h =
      run_calls-HasRequest k r cs (run_call c s) (run_call-HasRequest k r c s h)

  ensured-request :
      (k new : String) (s : SessionState) (o : Option SubmissionEntry)
      → find_entry k s.submissions ≡ o
      → (r : String) × ((ensured dumps_sorted k new o s).0 ≡ ok r)
        × HasRequest k r (ensured dumps_sorted k new o s).1
  ensured-request k new s (some e) there = (e.request_id, refl, (e, there, refl))
  ensured-request k new s none there = (
    new,
    refl,
    (new_entry k new, rw (find_entry-put_entry k k (new_entry k new) s.submissions, eq_refl), refl),
  )

  -- Once `ensure_request_id` has returned a request id for a submission, it returns the same one for it
  -- again, and changes nothing, whatever calls of the three methods come in between and whichever UUID
  -- is offered.
  pub ensure_request_id-stable :
      (k new other : String) (cs : List Call) (s : SessionState)
      → let s' = run_calls cs (ensure_request_id dumps_sorted k new s).1 in
        ensure_request_id dumps_sorted k other s' ≡ ((ensure_request_id dumps_sorted k new s).0, s')
  unfolding ensure_request_id
  ensure_request_id-stable k new other cs s =
      let (r, first, has) = ensured-request k new s (find_entry k s.submissions) refl in
      let s' : SessionState = run_calls cs (ensure_request_id dumps_sorted k new s).1 in
      let (e, found, same) =
        run_calls-HasRequest k r cs (ensure_request_id dumps_sorted k new s).1 has in
      ap (λ o. ensured dumps_sorted k other o s') found
      ∙ ap (λ x. (ok x, s')) same
      ∙ ap (λ x. (x, s')) (sym first)
