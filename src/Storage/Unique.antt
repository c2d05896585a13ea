-- ===== src/Storage/Unique.antt =====
-- storage/durable_storage.py: PRIMARY KEY id and UNIQUE(type, client_request_id) of the table `jobs`.
use suno_studio.Prelude.{
  String, ◌≡◌, refl, false, List, [], ◌∷◌, ◌++◌, arith, eq_iff, inl, inr, Bool-cases, ◌∙◌, ◌==◌,
}
use suno_studio.Models.{Job}
use suno_studio.Storage.Tables.{Db, update_where, violates, stored}
use suno_studio.Storage.Ops.{Op, run_op, run_ops}
use suno_studio.Storage.Steps.{Preserves, TableStep, same, insert, update, run_op-TableStep}

-- No row clashes with one below it, in the id or in type and request id.
abbrev pub AreUnique : List Job → Type 0
AreUnique [] = Unit
AreUnique (j ∷ js) = (violates j js ≡ false) × AreUnique js

violates-append :
    (a b : Job) (js : List Job)
    → violates a js ≡ false
    → violates b (a ∷ []) ≡ false
    → violates a (js ++ stored b ∷ []) ≡ false
unfolding violates stored
violates-append a b [] h k = ground (
  arith,
  eq_iff b.id a.id,
  eq_iff a.id b.id,
  eq_iff b.client_request_id a.client_request_id,
  eq_iff a.client_request_id b.client_request_id,
)
violates-append a b (j ∷ js) h k = ground (arith, violates-append a b js)

AreUnique-append :
    (b : Job) (js : List Job)
    → AreUnique js
    → violates b js ≡ false
    → AreUnique (js ++ stored b ∷ [])
unfolding violates stored
AreUnique-append b [] u v = (refl, tt)
AreUnique-append b (j ∷ js) u v = ground (arith, violates-append j b js, AreUnique-append b js)

-- An UPDATE changes none of the columns that the constraints read.
violates-update_where :
    (a b : Job) (i : String) (f : Job → Job) (js : List Job)
    → Preserves f
    → b.id ≡ a.id
    → b.type ≡ a.type
    → b.client_request_id ≡ a.client_request_id
    → violates b (update_where i f js) ≡ violates a js
unfolding violates update_where
violates-update_where a b i f [] p e1 e2 e3 = refl
violates-update_where a b i f (j ∷ js) p e1 e2 e3 =
    ground
      (arith, violates-update_where a b i f js p e1 e2 e3, p.id j, p.type j, p.client_request_id j)

AreUnique-update_where :
    (i : String) (f : Job → Job) (js : List Job)
    → Preserves f
    → AreUnique js
    → AreUnique (update_where i f js)
unfolding update_where
AreUnique-update_where i f [] p u = tt
AreUnique-update_where i f (j ∷ js) p u = (
  elim (Bool-cases (j.id == i)) [
    | inl e ↦
        rw e
          (violates-update_where j (f j) i f js p (p.id j) (p.type j) (p.client_request_id j) ∙ u.0)
    | inr e ↦ rw e (violates-update_where j j i f js p refl refl refl ∙ u.0)
  ],
  AreUnique-update_where i f js p u.1,
)

TableStep-AreUnique :
    {Q : Job → Type 0} {js ks : List Job} → TableStep Q js ks → AreUnique js → AreUnique ks
TableStep-AreUnique same u = u
TableStep-AreUnique {js} (insert j q v) u = AreUnique-append j js u v
TableStep-AreUnique {js} (update i f c e v p er) u = AreUnique-update_where i f js p u

-- If no two rows share an id, or a type and a client request id, none do after any transactions.
pub run_ops-AreUnique : (os : List Op) (s : Db) → AreUnique s.jobs → AreUnique (run_ops os s).jobs
unfolding run_ops
run_ops-AreUnique [] s u = u
run_ops-AreUnique (o ∷ os) s u =
    run_ops-AreUnique os (run_op o s) (TableStep-AreUnique (run_op-TableStep o s) u)
