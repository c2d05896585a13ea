-- ===== src/Orchestrator/MockJobs.antt =====
-- bridge/services/job_service.py: _poll_and_download with the provider of bridge/adapters/mock_suno.py.
use Prim.Native.String
use suno_studio.Prelude.{
  ℕ, zero, suc, ◌+◌, ◌≤◌, ◌<◌, String, ◌≡◌, ◌⊎◌, inl, inr, ap, ◌∙◌, true, false, none, some, List,
  [], ◌∷◌, arith, ltb, eq_refl, Bool-cases, ◌==◌,
}
use suno_studio.Exec.{key_error, ok, err, gets, or_raise, pure}
use suno_studio.Models.{Job}
use suno_studio.Models.Values.{pos}
use suno_studio.Models.Status.{polling_remote}
use suno_studio.Adapters.{ProviderOutput, ProviderPollResult}
use suno_studio.Adapters.Mock.{
  MockJob, States, find_state, put_state, poll_state, poll_job, download_outputs, mock_adapter,
}
use suno_studio.Storage.Tables.{find_job}
use suno_studio.Orchestrator.Runtime.{World, Settings, done, holds}
use suno_studio.Orchestrator.Poll.{poll_loop}
use suno_studio.Orchestrator.Completes.{IsCompleted, Ready, at_once, not_yet, poll_loop-completes}

find_state-put_state :
    (r : String) (v : MockJob) (m : States) → find_state r (put_state r v m) ≡ some v
unfolding find_state put_state
find_state-put_state r v [] = rw (eq_refl)
find_state-put_state r v ((k, w) ∷ m) = elim (Bool-cases (k == r)) [
  | inl y ↦ rw (y, y)
  | inr n ↦ rw n (rw n (find_state-put_state r v m))
]

-- A job of the mock provider that will not fail, with `k` poll steps.
pub record IsSteady (k : ℕ) (st : MockJob) : Type 0 where
  pub cancelled : st.cancelled ≡ false
  pub fail_once : st.fail_once ≡ false
  pub poll_steps : st.poll_steps ≡ pos k

module _ (k : ℕ) (some_step : 1 ≤ k) (st : MockJob) (steady : IsSteady k st) where
  -- The state after a poll, and the answer.
  abbrev polled : MockJob
  polled = (poll_state st).0

  abbrev answered : ProviderPollResult
  answered = (poll_state st).1

  polled-count :
      (IsSteady k polled) × (polled.poll_count ≡ st.poll_count + 1) × (polled.prompt ≡ st.prompt)
  unfolding poll_state
  polled-count =
      let a = steady.cancelled in
      let b = steady.fail_once in
      let c = steady.poll_steps in
      (
        record { cancelled = ground arith; fail_once = ground arith; poll_steps = ground arith },
        ground arith,
        ground arith,
      )

  answered-waits :
      st.poll_count < k → (answered.state ≡ "queued") ⊎ (answered.state ≡ "in_progress")
  unfolding poll_state
  answered-waits h =
      let a = steady.cancelled in
      let b = steady.fail_once in let c = steady.poll_steps in ground arith

  answered-ready : st.poll_count ≡ k → answered.state ≡ "ready"
  unfolding poll_state
  answered-ready h =
      let a = steady.cancelled in
      let b = steady.fail_once in let c = steady.poll_steps in ground arith

-- The one output of the mock provider.
abbrev pub outputs : (String → List ℕ) → String → String → List ProviderOutput
outputs encode r prompt =
    record {
      variant = "main";
      extension = "wav";
      content = encode (String.◌++◌ "MOCK_OUTPUT::" (String.◌++◌ r (String.◌++◌ "::" prompt)));
    }
    ∷ []

module _ (settings : Settings States) (i : String) (encode : String → List ℕ) (r : String)
    (prompt : String) (k : ℕ) (some_step : 1 ≤ k) where
  poll_job-found :
      (m : States) {st : MockJob}
      → find_state r m ≡ some st
      → poll_job r m ≡ (ok (poll_state st).1, put_state r (poll_state st).0 m)
  unfolding poll_job
  poll_job-found m there =
      ap
        (λ o. elim o [
          | none ↦ (err key_error, m)
          | some st ↦ (ok (poll_state st).1, put_state r (poll_state st).0 m)
        ])
        there

  download_outputs-found :
      (m : States) {st : MockJob}
      → find_state r m ≡ some st
      → st.prompt ≡ prompt
      → download_outputs encode r m ≡ (ok (outputs encode r prompt), m)
  unfolding download_outputs or_raise gets pure
  download_outputs-found m there same = rw there (rw same)

  pub mock-Ready :
      (n : ℕ) (m : States) (st : MockJob)
      → IsSteady k st
      → find_state r m ≡ some st
      → st.prompt ≡ prompt
      → n + st.poll_count ≡ k
      → Ready settings i (mock_adapter encode) r (outputs encode r prompt) n m
  mock-Ready zero m st steady there same left =
      let (next, count, kept) = polled-count k some_step st steady in
      at_once (poll_job-found m there) (answered-ready k some_step st steady (omega arith))
        (download_outputs-found _ (find_state-put_state r (poll_state st).0 m) (kept ∙ same))
  mock-Ready (suc n) m st steady there same left =
      let (next, count, kept) = polled-count k some_step st steady in
      not_yet (poll_job-found m there) (answered-waits k some_step st steady (omega arith)) (
        mock-Ready n (put_state r (poll_state st).0 m) (poll_state st).0 next
          (find_state-put_state r (poll_state st).0 m) (kept ∙ same) (omega arith))

  -- A job of the mock provider that is polling, not cancelled and with attempts left, and whose mock
  -- state is new, will not fail and has `k` poll steps, `k` at least 1, is completed with the one
  -- output of the mock provider, as soon as there is fuel for more than `k` rounds.
  pub mock_job-completes :
      (fuel attempts : ℕ) (w : World States) (c : Job) (st : MockJob)
      → k < fuel
      → ltb attempts settings.max_attempts ≡ true
      → find_job i w.db.jobs ≡ some c
      → c.status ≡ polling_remote
      → c.remote_job_id ≡ some r
      → holds w.cancelled i ≡ false
      → find_state r w.provider_state ≡ some st
      → IsSteady k st
      → st.poll_count ≡ 0
      → st.prompt ≡ prompt
      → (v : World States) × (poll_loop settings fuel (mock_adapter encode) attempts c w
          ≡ (ok done, v))
        × IsCompleted settings i (outputs encode r prompt) v
  mock_job-completes fuel attempts w c st enough left there polling remote go state steady new
        same =
      poll_loop-completes settings i (mock_adapter encode) r (outputs encode r prompt) fuel k
        attempts w c enough left there polling remote go
        (mock-Ready k w.provider_state st steady state same (omega arith))
