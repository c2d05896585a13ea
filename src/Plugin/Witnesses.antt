-- ===== src/Plugin/Witnesses.antt =====
-- The theorem on the plug-in's session state, at concrete submissions.
use suno_studio.Prelude.{◌≡◌, none, [], ◌∷◌, List, String, some, false, refl}
use suno_studio.Exec.{Result, ok}
use suno_studio.Models.Values.{Json, obj, str, bool, null, Fields, field, end}
use suno_studio.Plugin.Entries.{
  find_entry, put_entry, submission_fields, sorted, insert_field, text_le,
}
use suno_studio.Plugin.Reload.{IsRestored, run_calls-IsRestored}
use suno_studio.Storage.Tables.{empty}
use suno_studio.Plugin.{SessionState, ensure_request_id, mark_job, reconcile_unresolved}
use suno_studio.Plugin.Requests.{
  Call, ensure, mark, reconcile, run_calls, run_call, ensure_request_id-stable,
}

abbrev dumps : Fields → String
dumps d = "{}"

abbrev fresh : SessionState
fresh = record { submissions = []; saved = none }

abbrev calls : List Call
calls = mark "s1" "j1" ∷ ensure "s2" "u2" ∷ reconcile (empty 5) ∷ []

ensure_request_id-stable_example :
    let s' = run_calls dumps calls (ensure_request_id dumps "s1" "u1" fresh).1 in
    ensure_request_id dumps "s1" "u3" s' ≡ ((ensure_request_id dumps "s1" "u1" fresh).0, s')
ensure_request_id-stable_example = ensure_request_id-stable dumps "s1" "u1" "u3" calls fresh

abbrev coming : List Call
coming = ensure "s1" "u1" ∷ mark "s1" "j1" ∷ ensure "s2" "u2" ∷ []

abbrev loads : String → Result Json
loads text = ok (
    obj (
      field "submissions"
        (obj (
          field "s1"
            (obj (
              field "job_id" (str "j1")
                (field "request_id" (str "u1") (field "resolved" (bool false) end))))
            (field "s2"
              (obj (
                field "job_id" null
                  (field "request_id" (str "u2") (field "resolved" (bool false) end))))
              end)))
        end))

run_calls-IsRestored_example : IsRestored (λ u. some u) dumps loads (run_calls dumps coming fresh)
unfolding run_calls run_call ensure_request_id mark_job reconcile_unresolved find_entry put_entry
    submission_fields sorted insert_field text_le
run_calls-IsRestored_example =
    run_calls-IsRestored (λ u. some u) dumps loads coming (refl, (tt, (refl, tt))) refl
