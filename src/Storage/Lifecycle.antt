-- ===== src/Storage/Lifecycle.antt =====
-- storage/durable_storage.py: a row of the table `jobs` under a sequence of transactions.
use suno_studio.Prelude.{
  ◌≤◌, String, ◌≡◌, ◌≢◌, refl, true, Option, none, some, List, [], ◌∷◌, subst, arith, eq_iff, sym,
  inl, inr, some_inj, Bool-cases, ◌==◌,
}
use suno_studio.Models.{Job}
use suno_studio.Models.Status.{JobStatus, may_become, is_terminal}
use suno_studio.Storage.Tables.{Db, find_job}
use suno_studio.Storage.Find.{or_else, find_job-update_where, find_job-append}
use suno_studio.Storage.Steps.{Preserves, TableStep, same, insert, update, run_op-TableStep}
use suno_studio.Storage.Ops.{Op, run_op, run_ops}

-- The walks along `allowed_transitions`.
infix 40 ◌⟶*◌
pub data ◌⟶*◌ : JobStatus → JobStatus → Type 0 where
  here : {a : JobStatus} → a ⟶* a
  next : {a b c : JobStatus} → a ⟶* b → may_become b c ≡ true → a ⟶* c

⟶*-trans : {a b c : JobStatus} → a ⟶* b → b ⟶* c → a ⟶* c
⟶*-trans p here = p
⟶*-trans p (next q e) = next (⟶*-trans p q) e

-- `b` is a later version of the row `a`.
pub record Evolves (a b : Job) : Type 0 where
  pub id : b.id ≡ a.id
  pub type : b.type ≡ a.type
  pub client_request_id : b.client_request_id ≡ a.client_request_id
  pub payload : b.payload ≡ a.payload
  pub provider_mode : b.provider_mode ≡ a.provider_mode
  pub created_at : b.created_at ≡ a.created_at
  pub status : a.status ⟶* b.status
  pub attempts : a.attempts ≤ b.attempts
  pub remote_job_id : a.remote_job_id ≢ none → b.remote_job_id ≢ none
  pub last_error : a.last_error ≢ none → b.last_error ≢ none

-- A row that is there stays there and evolves; nothing is said of one that is not.
abbrev Later : Option Job → Option Job → Type 0
Later none o = Unit
Later (some a) none = ⊥
Later (some a) (some b) = Evolves a b

Evolves-refl : (a : Job) → Evolves a a
Evolves-refl a = record {
  id = refl;
  type = refl;
  client_request_id = refl;
  payload = refl;
  provider_mode = refl;
  created_at = refl;
  status = here;
  attempts = omega arith;
  remote_job_id = λ h. h;
  last_error = λ h. h;
}

Evolves-trans : {a b c : Job} → Evolves a b → Evolves b c → Evolves a c
Evolves-trans p q = record {
  id = cc;
  type = cc;
  client_request_id = cc;
  payload = cc;
  provider_mode = cc;
  created_at = cc;
  status = ⟶*-trans p.status q.status;
  attempts = omega arith;
  remote_job_id = λ h. q.remote_job_id (p.remote_job_id h);
  last_error = λ h. q.last_error (p.last_error h);
}

Later-refl : (o : Option Job) → Later o o
Later-refl none = tt
Later-refl (some a) = Evolves-refl a

Later-trans : (o p q : Option Job) → Later o p → Later p q → Later o q
Later-trans none p q h k = tt
Later-trans (some a) none q h k = absurd h
Later-trans (some a) (some b) none h k = absurd k
Later-trans (some a) (some b) (some c) h k = Evolves-trans h k

Later-or_else : (o p : Option Job) → Later o (or_else o p)
Later-or_else none p = tt
Later-or_else (some a) p = Evolves-refl a

update-Evolves :
    (f : Job → Job) (c : Job)
    → Preserves f
    → may_become c.status (f c).status ≡ true
    → (c.last_error ≢ none → (f c).last_error ≢ none)
    → Evolves c (f c)
update-Evolves f c p v er = record {
  id = p.id c;
  type = p.type c;
  client_request_id = p.client_request_id c;
  payload = p.payload c;
  provider_mode = p.provider_mode c;
  created_at = p.created_at c;
  status = next here v;
  attempts = p.attempts c;
  remote_job_id = p.remote_job_id c;
  last_error = er;
}

from_Later :
    (o p : Option Job) {a : Job} → o ≡ some a → Later o p → (b : Job) × (p ≡ some b) × Evolves a b
from_Later none p e h = cc
from_Later (some c) none e h = absurd h
from_Later (some c) (some b) e h = (b, refl, subst (λ x. Evolves x b) (some_inj e) h)

pub terminal_final :
    (a m b : JobStatus) → is_terminal a ≡ true → m ≡ a → may_become m b ≡ true → b ≡ a
unfolding may_become
terminal_final a m b t e v = ground arith

-- A walk that starts at a terminal status stays there.
⟶*-terminal : {a b : JobStatus} → is_terminal a ≡ true → a ⟶* b → b ≡ a
⟶*-terminal t here = refl
⟶*-terminal {a} {b} t (next {b = m} p v) = terminal_final a m b t (⟶*-terminal t p) v

module _ (i : String) where
  TableStep-Later :
      {Q : Job → Type 0} {js ks : List Job}
      → TableStep Q js ks
      → Later (find_job i js) (find_job i ks)
  TableStep-Later {js} same = Later-refl (find_job i js)
  TableStep-Later {js} (insert j q v) = rw find_job-append (Later-or_else (find_job i js) _)
  TableStep-Later {js} (update k f c e v p er) =
      rw (find_job-update_where i k f js p.id) (elim (Bool-cases (k == i)) [
        | inr ne ↦ rw ne (Later-refl (find_job i js))
        | inl eq ↦
            let same_id : find_job i js ≡ some c = rw (sym ((eq_iff k i).0 eq)) e in
            rw (eq, same_id) (update-Evolves f c p v er)
      ])

  run_ops-Later :
      (os : List Op) (s : Db) → Later (find_job i s.jobs) (find_job i (run_ops os s).jobs)
  unfolding run_ops
  run_ops-Later [] s = Later-refl (find_job i s.jobs)
  run_ops-Later (o ∷ os) s =
      Later-trans (find_job i s.jobs) (find_job i (run_op o s).jobs) _
        (TableStep-Later (run_op-TableStep o s)) (run_ops-Later os (run_op o s))

  module _ (os : List Op) (s : Db) {a : Job} (there : find_job i s.jobs ≡ some a) where
    -- After any transactions, committed or rolled back, a job that was in the table is still found
    -- under its id. Its id, type, client request id, payload, provider mode and creation time are
    -- the same, its status was reached along `allowed_transitions`, its attempts have not gone
    -- down, and a remote job id and a last error, once set, are still set.
    pub run_ops-Evolves : (b : Job) × (find_job i (run_ops os s).jobs ≡ some b) × Evolves a b
    run_ops-Evolves =
        from_Later (find_job i s.jobs) (find_job i (run_ops os s).jobs) there (run_ops-Later os s)

    -- A job that is complete, failed or cancelled keeps that status through any transactions.
    pub run_ops-terminal :
        is_terminal a.status ≡ true
        → (b : Job) × (find_job i (run_ops os s).jobs ≡ some b) × (b.status ≡ a.status)
    run_ops-terminal t = let (b, found, ev) = run_ops-Evolves in (b, found, ⟶*-terminal t ev.status)
