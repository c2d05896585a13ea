-- ===== src/Storage/Refines.antt =====
-- storage/durable_storage.py: the table of jobs refines a map from ids to statuses.
use suno_studio.Prelude.{
  String, ◌≡◌, refl, sym, ap, ◌∙◌, fun_ext, true, false, Option, none, some, List, [], ◌∷◌, ◌++◌,
  All, subst, arith, eq_iff, inl, inr, Bool-cases, ◌==◌, if◌then◌else◌,
}
use suno_studio.Models.{Job}
use suno_studio.Models.Status.{JobStatus, created, may_become}
use suno_studio.Storage.Tables.{Db, find_job, update_where, violates, stored}
use suno_studio.Storage.Find.{or_else, find_job-update_where, find_job-append}
use suno_studio.Storage.Steps.{Preserves, TableStep, same, insert, update, run_op-TableStep}
use suno_studio.Storage.History.{StartsCreated}
use suno_studio.Storage.Ops.{Op, create, run_op, run_ops}

-- What a client of the storage may rely on: a status for each id, from the start CREATED, and then
-- along `allowed_transitions`; ids do not disappear.
abbrev View : Type 0
View = String → Option JobStatus

abbrev with_entry : View → String → JobStatus → View
with_entry v i a k = if i == k then some a else v k

infix 40 ◌⟿◌
pub data ◌⟿◌ : View → View → Type 0 where
  stay : {v : View} → v ⟿ v
  appear : {u v : View} (i : String) → u ⟿ v → v i ≡ none → u ⟿ with_entry v i created
  move :
      {u v : View} (i : String) (a b : JobStatus)
      → u ⟿ v
      → v i ≡ some a
      → may_become a b ≡ true
      → u ⟿ with_entry v i b

abbrev status_found : Option Job → Option JobStatus
status_found none = none
status_found (some j) = some j.status

-- The abstraction.
abbrev view_rows : List Job → View
view_rows js i = status_found (find_job i js)

abbrev pub view : Db → View
view s = view_rows s.jobs

pub fresh_id : (j : Job) (js : List Job) → violates j js ≡ false → find_job j.id js ≡ none
unfolding violates find_job
fresh_id j [] h = refl
fresh_id j (k ∷ js) h = ground (arith, fresh_id j js)

added :
    (j : Job) (k : String) (o : Option Job)
    → (j.id ≡ k → o ≡ none)
    → status_found (or_else o (find_job k (stored j ∷ [])))
      ≡ (if j.id == k then some j.status else status_found o)
unfolding find_job stored
added j k o h = elim (Bool-cases (j.id == k)) [
  | inl y ↦ rw (y, h ((eq_iff j.id k).0 y))
  | inr n ↦ rw n (unchanged o)
]
  where
    unchanged : (o : Option Job) → status_found (or_else o none) ≡ status_found o
    unchanged none = refl
    unchanged (some a) = refl

view-append :
    (j : Job) (js : List Job)
    → find_job j.id js ≡ none
    → view_rows (js ++ stored j ∷ []) ≡ with_entry (view_rows js) j.id j.status
view-append j js h =
    fun_ext λ k.
      rw find_job-append (added j k (find_job k js) (λ e. subst (λ i. find_job i js ≡ none) e h))

view-update_where :
    (i : String) (f : Job → Job) (js : List Job) {c : Job}
    → Preserves f
    → find_job i js ≡ some c
    → view_rows (update_where i f js) ≡ with_entry (view_rows js) i (f c).status
view-update_where i f js {c} p h = fun_ext λ k.
    rw (find_job-update_where k i f js p.id) (elim (Bool-cases (i == k)) [
      | inl y ↦ let there : find_job k js ≡ some c = rw (sym ((eq_iff i k).0 y)) h in rw (y, there)
      | inr n ↦ rw n
    ])

TableStep-refines :
    {Q : Job → Type 0} {u : View} {js ks : List Job}
    → ((j : Job) → Q j → j.status ≡ created)
    → TableStep Q js ks
    → u ⟿ view_rows js
    → u ⟿ view_rows ks
TableStep-refines q same r = r
TableStep-refines {u = u} {js = js} q (insert j known v) r =
    let free = fresh_id j js v in
    subst (λ x. u ⟿ x)
      (ap (with_entry (view_rows js) j.id) (sym (q j known)) ∙ sym (view-append j js free))
      (appear j.id r (ap status_found free))
TableStep-refines {u = u} {js = js} q (update i f c there way p er) r =
    subst (λ x. u ⟿ x) (sym (view-update_where i f js p there))
      (move i c.status (f c).status r (ap status_found there) way)

starts : (o : Op) → StartsCreated o → (j : Job) → o ≡ create j → j.status ≡ created
starts o h j e = subst StartsCreated e h

run_ops-from :
    (os : List Op) (s : Db) (u : View) → All StartsCreated os → u ⟿ view s → u ⟿ view (run_ops os s)
unfolding run_ops
run_ops-from [] s u h r = r
run_ops-from (o ∷ os) s u h r =
    run_ops-from os (run_op o s) u h.1 (TableStep-refines (starts o h.0) (run_op-TableStep o s) r)

-- Any transactions, committed or rolled back, that create jobs as CREATED only.
pub run_ops-refines : (os : List Op) (s : Db) → All StartsCreated os → view s ⟿ view (run_ops os s)
run_ops-refines os s h = run_ops-from os s (view s) h stay
