-- ===== src/Storage/Requests.antt =====
-- storage/durable_storage.py: `create_job_idempotent`, called again for a request.
use suno_studio.Prelude.{
  String, ◌≡◌, refl, true, false, some, List, [], ◌∷◌, ◌++◌, arith, eq_iff, inl, inr, some_inj,
  Bool-cases, ◌∙◌, ap, ◌==◌, if◌then◌else◌,
}
use suno_studio.Exec.{ok}
use suno_studio.Models.{JobType, Job}
use suno_studio.Storage.Tables.{Db, is_request, find_request, update_where, violates, stored}
use suno_studio.Storage.Ops.{Op, run_op, run_ops}
use suno_studio.Storage.Steps.{Preserves, TableStep, same, insert, update, run_op-TableStep}
use suno_studio.Storage.Updates.{create_job_idempotent-new, create_job_idempotent-existing}
use suno_studio.Storage.{create_job_idempotent}

-- The request (t, r) is answered by the job `i`.
abbrev Answered : JobType → String → String → List Job → Type 0
Answered t r i js = (e : Job) × (find_request t r js ≡ some e) × (e.id ≡ i)

find_request-append :
    (t : JobType) (r : String) (js ks : List Job) {e : Job}
    → find_request t r js ≡ some e
    → find_request t r (js ++ ks) ≡ some e
unfolding find_request
find_request-append t r [] ks h = cc
find_request-append t r (j ∷ js) ks {e} h = ground (arith, find_request-append t r js ks {e = e})

abbrev written : String → (Job → Job) → Job → Job
written k f j = if j.id == k then f j else j

written-id : (k : String) (f : Job → Job) (j : Job) → Preserves f → (written k f j).id ≡ j.id
written-id k f j p = ground (arith, p.id j)

written-is_request :
    (t : JobType) (r k : String) (f : Job → Job) (j : Job)
    → Preserves f
    → is_request t r (written k f j) ≡ is_request t r j
written-is_request t r k f j p = ground (arith, p.type j, p.client_request_id j)

Answered-update_where :
    (t : JobType) (r i k : String) (f : Job → Job) (js : List Job)
    → Preserves f
    → Answered t r i js
    → Answered t r i (update_where k f js)
unfolding find_request update_where
Answered-update_where t r i k f [] p (e, found, same_id) = cc
Answered-update_where t r i k f (j ∷ js) p (e, found, same_id) =
    elim (Bool-cases (is_request t r j)) [
      | inl y ↦ (
        written k f j,
        rw (written-is_request t r k f j p, y),
        written-id k f j p ∙ ap (λ (x : Job). x.id) (some_inj (rw y at found)) ∙ same_id,
      )
      | inr n ↦
          let (e', found', same_id') =
            Answered-update_where t r i k f js p (e, rw n at found, same_id) in
          (e', rw (written-is_request t r k f j p, n) found', same_id')
    ]

TableStep-Answered :
    {Q : Job → Type 0} (t : JobType) (r i : String) {js ks : List Job}
    → TableStep Q js ks
    → Answered t r i js
    → Answered t r i ks
TableStep-Answered t r i same h = h
TableStep-Answered t r i {js} (insert j q v) (e, found, same_id) =
    (e, find_request-append t r js _ found, same_id)
TableStep-Answered t r i {js} (update k f c e v p er) h = Answered-update_where t r i k f js p h

run_ops-Answered :
    (t : JobType) (r i : String) (os : List Op) (s : Db)
    → Answered t r i s.jobs
    → Answered t r i (run_ops os s).jobs
unfolding run_ops
run_ops-Answered t r i [] s h = h
run_ops-Answered t r i (o ∷ os) s h =
    run_ops-Answered t r i os (run_op o s) (TableStep-Answered t r i (run_op-TableStep o s) h)

-- A request that is answered violates the uniqueness of the row that would answer it again.
violates-answered :
    (j : Job) (js : List Job) {e : Job}
    → find_request j.type j.client_request_id js ≡ some e
    → violates j js ≡ true
unfolding violates find_request
violates-answered j [] h = cc
violates-answered j (k ∷ js) {e} h = ground (arith, violates-answered j js {e = e})

stored-Answered :
    (j : Job) (js : List Job)
    → violates j js ≡ false
    → find_request j.type j.client_request_id (js ++ stored j ∷ []) ≡ some (stored j)
unfolding violates find_request stored
stored-Answered j [] v = ground (arith, eq_iff j.client_request_id j.client_request_id)
stored-Answered j (k ∷ js) v = ground (arith, stored-Answered j js)

module _ (j k : Job) (os : List Op) (s : Db) (new : violates j s.jobs ≡ false)
    (kind : k.type ≡ j.type) (same_request : k.client_request_id ≡ j.client_request_id) where
  -- Once a job `j` has been created, whatever transactions come in between, a second creation `k`
  -- with the type and the client request id of `j` creates nothing: it returns the row that has the
  -- id of `j`, with `created` false, and leaves the tables as they are.
  pub create_job_idempotent_twice :
      let s' = run_ops os (create_job_idempotent j s).1 in
      (e : Job) × (create_job_idempotent k s' ≡ (ok (e, false), s')) × (e.id ≡ j.id)
  create_job_idempotent_twice =
      let s1 : Db = record s { jobs = s.jobs ++ stored j ∷ [] } in
      let made : create_job_idempotent j s ≡ (ok (j, true), s1) =
        create_job_idempotent-new j s new in
      let (e, found, same_id) =
        run_ops-Answered j.type j.client_request_id j.id os s1
          (stored j, stored-Answered j s.jobs new, unfold stored in refl) in
      let again : find_request k.type k.client_request_id (run_ops os s1).jobs ≡ some e =
        rw (kind, same_request) found in
      rw made (
        e,
        create_job_idempotent-existing k (run_ops os s1)
            (violates-answered k (run_ops os s1).jobs again) again,
        same_id,
      )
