-- ===== src/Plugin/Reload.antt =====
-- plugin/session_state.py: what `load` finds in the file that the calls before it have left.
use suno_studio.Prelude.{
  String, ◌≡◌, refl, false, Option, none, some, List, [], ◌∷◌, eq_iff, sym, ap, subst, some_inj,
  All, ◌∙◌, inl, inr, Bool-cases, ◌==◌, ◌⊎◌, ◌&&◌,
}
use suno_studio.Exec.{Result, ok, err}
use suno_studio.Models.{Job}
use suno_studio.Models.Values.{Fields, Json, obj}
use suno_studio.Storage.{list_jobs_by_ids}
use suno_studio.Plugin.Entries.{
  SubmissionEntry, Submissions, find_entry, put_entry, payload, sorted_fields,
}
use suno_studio.Plugin.Coding.{
  IsSound, sorted_entries, find_entry-sorted_entries, loaded_submissions-payload,
}
use suno_studio.Plugin.{
  SessionState, ensured, marked, reconciled, saved_if_any, resolved_by, reconcile_entry,
  reconcile_entries, reconciled_of, is_unresolved, is_over, is_known, job_of, ensure_request_id,
  mark_job, reconcile_unresolved, unresolved_ids, load, with_loaded, load_raw, load_file,
}
use suno_studio.Plugin.Requests.{Call, ensure, mark, reconcile, run_call, run_calls}

module _ (parse_uuid : String → Option String) where
  find_entry-IsSound :
      (k : String) (m : Submissions) {e : SubmissionEntry}
      → All (IsSound parse_uuid) m
      → find_entry k m ≡ some e
      → IsSound parse_uuid (k, e)
  unfolding find_entry
  find_entry-IsSound k [] h there = absurd (cc there)
  find_entry-IsSound k ((j, d) ∷ m) {e} (now, h) there = elim (Bool-cases (j == k)) [
    | inl y ↦
        let same : d ≡ e = some_inj (rw y at there) in
        subst (λ x. IsSound parse_uuid (k, x)) same (now.0 ∙ (eq_iff j k).0 y, now.1)
    | inr n ↦ find_entry-IsSound k m {e = e} h (rw n at there)
  ]

  put_entry-IsSound :
      (k : String) (e : SubmissionEntry) (m : Submissions)
      → IsSound parse_uuid (k, e)
      → All (IsSound parse_uuid) m
      → All (IsSound parse_uuid) (put_entry k e m)
  unfolding put_entry
  put_entry-IsSound k e [] h all = (h, tt)
  put_entry-IsSound k e ((j, d) ∷ m) h (now, all) = elim (Bool-cases (j == k)) [
    | inl y ↦ rw y ((h.0 ∙ sym ((eq_iff j k).0 y), h.1), all)
    | inr n ↦ rw n (now, put_entry-IsSound k e m h all)
  ]

  resolved_by-IsSound :
      (k : String) (o : Option Job) (e : SubmissionEntry)
      → IsSound parse_uuid (k, e)
      → IsSound parse_uuid (k, resolved_by o e)
  resolved_by-IsSound k none e h = h
  resolved_by-IsSound k (some job) e h = elim (Bool-cases (is_over job.status)) [
    | inl y ↦ rw y h
    | inr n ↦ rw n h
  ]

  reconcile_entry-IsSound :
      (k : String) (jobs : List Job) (e : SubmissionEntry)
      → IsSound parse_uuid (k, e)
      → IsSound parse_uuid (k, reconcile_entry jobs e)
  unfolding reconcile_entry
  reconcile_entry-IsSound k jobs e h = elim (Bool-cases (is_unresolved e)) [
    | inl y ↦ rw y (resolved_by-IsSound k (job_of jobs e) e h)
    | inr n ↦ rw n h
  ]

  reconcile_entries-IsSound :
      (jobs : List Job) (m : Submissions)
      → All (IsSound parse_uuid) m
      → All (IsSound parse_uuid) (reconcile_entries jobs m)
  unfolding reconcile_entries
  reconcile_entries-IsSound jobs [] h = tt
  reconcile_entries-IsSound jobs ((k, e) ∷ m) (now, h) =
      (reconcile_entry-IsSound k jobs e now, reconcile_entries-IsSound jobs m h)

  reconcile_entry-unknown :
      (jobs : List Job) (e : SubmissionEntry)
      → (is_unresolved e && is_known (job_of jobs e)) ≡ false
      → reconcile_entry jobs e ≡ e
  unfolding reconcile_entry
  reconcile_entry-unknown jobs e h = elim (Bool-cases (is_unresolved e)) [
    | inl y ↦ rw y (by_job (job_of jobs e) (rw y at h))
    | inr n ↦ rw n
  ]
    where
      by_job : (o : Option Job) → is_known o ≡ false → resolved_by o e ≡ e
      by_job none h = refl
      by_job (some job) h = absurd (cc h)

  -- Where nothing is reconciled, no entry changes.
  reconcile_entries-same :
      (jobs : List Job) (m : Submissions) → reconciled_of jobs m ≡ [] → reconcile_entries jobs m ≡ m
  unfolding reconciled_of reconcile_entries
  reconcile_entries-same jobs [] h = refl
  reconcile_entries-same jobs ((k, e) ∷ m) h =
      elim (Bool-cases (is_unresolved e && is_known (job_of jobs e))) [
        | inl y ↦ absurd (cc (rw y at h))
        | inr n ↦ rw (reconcile_entry-unknown jobs e n, reconcile_entries-same jobs m (rw n at h))
      ]

  module _ (dumps_sorted : Fields → String) where
    -- The file holds the submissions that there are, or there are none and no file.
    abbrev IsUpToDate : SessionState → Type 0
    IsUpToDate s =
        (s.saved ≡ some (dumps_sorted (payload s.submissions)))
        ⊎ ((s.saved ≡ none) × (s.submissions ≡ []))

    abbrev IsKept : SessionState → Type 0
    IsKept s = All (IsSound parse_uuid) s.submissions × IsUpToDate s

    -- The UUID that `ensure_request_id` is given is read back as it is.
    abbrev HasUuid : Call → Type 0
    HasUuid (ensure k new) = parse_uuid new ≡ some new
    HasUuid _ = Unit

    ensured-IsKept :
        (k new : String) (o : Option SubmissionEntry) (s : SessionState)
        → parse_uuid new ≡ some new
        → IsKept s
        → IsKept (ensured dumps_sorted k new o s).1
    ensured-IsKept k new (some e) s known h = h
    ensured-IsKept k new none s known h =
        (put_entry-IsSound k _ s.submissions (refl, known) h.0, inl refl)

    marked-IsKept :
        (k i : String) (o : Option SubmissionEntry) (s : SessionState)
        → find_entry k s.submissions ≡ o
        → IsKept s
        → IsKept (marked dumps_sorted k i o s).1
    marked-IsKept k i none s there h = h
    marked-IsKept k i (some e) s there h = (
      put_entry-IsSound k _ s.submissions (find_entry-IsSound k s.submissions h.0 there) h.0,
      inl refl,
    )

    reconciled-IsKept :
        (r : Result (List Job)) (s : SessionState)
        → IsKept s
        → IsKept (reconciled dumps_sorted r s).1
    reconciled-IsKept (err e) s h = h
    reconciled-IsKept (ok jobs) s h = by_found (reconciled_of jobs s.submissions) refl
      where
        by_found :
            (es : List SubmissionEntry)
            → reconciled_of jobs s.submissions ≡ es
            → IsKept (saved_if_any dumps_sorted es (reconcile_entries jobs s.submissions) s)
        by_found [] e = rw (reconcile_entries-same jobs s.submissions e) h
        by_found (x ∷ xs) e = (reconcile_entries-IsSound jobs s.submissions h.0, inl refl)

    run_call-IsKept :
        (c : Call) (s : SessionState) → HasUuid c → IsKept s → IsKept (run_call dumps_sorted c s)
    unfolding run_call ensure_request_id mark_job reconcile_unresolved
    run_call-IsKept (ensure k new) s known h =
        ensured-IsKept k new (find_entry k s.submissions) s known h
    run_call-IsKept (mark k i) s known h = marked-IsKept k i (find_entry k s.submissions) s refl h
    run_call-IsKept (reconcile db) s known h =
        reconciled-IsKept (list_jobs_by_ids (unresolved_ids s.submissions) db).0 s h

    run_calls-IsKept :
        (cs : List Call) (s : SessionState)
        → All HasUuid cs
        → IsKept s
        → IsKept (run_calls dumps_sorted cs s)
    unfolding run_calls
    run_calls-IsKept [] s known h = h
    run_calls-IsKept (c ∷ cs) s (now, known) h =
        run_calls-IsKept cs (run_call dumps_sorted c s) known (run_call-IsKept c s now h)

    module _ (loads : String → Result Json) where
      -- A new session, on the file of another one.
      abbrev restarted : SessionState → SessionState
      restarted s = record { submissions = []; saved = s.saved }

      abbrev pub IsRestored : SessionState → Type 0
      IsRestored s =
          (m : Submissions) × (load loads parse_uuid (restarted s)
            ≡ (ok tt, record { submissions = m; saved = s.saved }))
          × ((k : String) → find_entry k m ≡ find_entry k s.submissions)

      load-restores :
          (s : SessionState)
          → IsKept s
          → loads (dumps_sorted (payload s.submissions))
            ≡ ok (obj (sorted_fields (payload s.submissions)))
          → IsRestored s
      unfolding load find_entry
      load-restores s (sound, inr (nothing, empty)) back = (
        [],
        ap (λ o. load_file loads parse_uuid o (restarted s)) nothing,
        λ k. ap (find_entry k) (sym empty),
      )
      load-restores s (sound, inl file) back = (
        sorted_entries s.submissions,
        ap (λ o. load_file loads parse_uuid o (restarted s)) file
            ∙ ap (λ r. load_raw loads parse_uuid r (restarted s)) back
            ∙ ap (λ r. with_loaded loads parse_uuid r (restarted s))
                (loaded_submissions-payload parse_uuid s.submissions sound),
        λ k. find_entry-sorted_entries k s.submissions,
      )

      -- Suppose that the UUIDs of new request ids are read back as they are, and that json.loads reads
      -- the file as the dict that was dumped, with its keys in order. Whatever calls a new session has
      -- had, a session that is started on its file loads it, and finds the same entry as the first one
      -- for every submission.
      pub run_calls-IsRestored :
          (cs : List Call)
          → All HasUuid cs
          → let s = run_calls dumps_sorted cs (record { submissions = []; saved = none }) in
            loads (dumps_sorted (payload s.submissions))
              ≡ ok (obj (sorted_fields (payload s.submissions)))
            → IsRestored s
      run_calls-IsRestored cs known back =
          load-restores (run_calls dumps_sorted cs (record { submissions = []; saved = none }))
            (run_calls-IsKept cs (record { submissions = []; saved = none }) known
              (tt, inr (refl, refl)))
            back
