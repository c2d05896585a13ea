-- ===== src/Client/Waiting.antt =====
-- bridge/client.py: wait_for_job. Times are natural numbers of some unit.
use Prim.Native.String.{◌++◌}
use suno_studio.Prelude.{
  ℕ, zero, suc, ◌+◌, ◌≤◌, ◌<◌, String, ◌≡◌, inl, inr, refl, ap, Bool, true, false, ◌||◌, Option,
  none, some, arith, ltb, Bool-cases, ◌==◌, if◌then◌else◌,
}
use suno_studio.Exec.{
  Exn, key_error, type_error, timeout_error, Result, ok, err, Exec, pure, proceed, ◌>>=◌,
}
use suno_studio.Models.Values.{Json, str, arr, obj, get}
use suno_studio.Models.Status.{JobStatus, complete, is_terminal}
use suno_studio.Storage.Rows.{status_value}
use suno_studio.Http.{lift}

-- job["status"]
abbrev status_of : Json → Result Json
status_of (obj d) = elim (get d "status") [ none ↦ err key_error | some v ↦ ok v ]
status_of _ = err type_error

-- status in {"complete", "failed", "cancelled"}: a list or a dict cannot be hashed.
abbrev is_final : Json → Result Bool
is_final (str s) = ok (s == "complete" || s == "failed" || s == "cancelled")
is_final (arr v) = err type_error
is_final (obj d) = err type_error
is_final _ = ok false

-- What the loop calls: `time.time`, `time.sleep` and `get_job`, on the state of the world.
pub record Surroundings (S : Type 0) : Type 0 where
  pub time : S → ℕ
  pub sleep : ℕ → S → S
  pub get_job : String → Exec S Json

abbrev timed_out : String → Exn
timed_out job_id = timeout_error ("Timed out waiting for job " ++ job_id)

-- One test of the job: `none` to go on.
abbrev inspect : {S : Type 0} → Json → Exec S (Option Json)
inspect job = do
  status ← lift (status_of job)
  final ← lift (is_final status)
  if final then pure (some job) else pure none

module _ {S : Type 0} (around : Surroundings S) (job_id : String) where
  pub look : Exec S (Option Json)
  look = around.get_job job_id >>= inspect

  -- The rest of a round: `rest` are the rounds that follow.
  abbrev go_on : ℕ → Exec S (Option Json) → Result (Option Json) × S → Result (Option Json) × S
  go_on poll_interval rest (ok none, s) = rest (around.sleep poll_interval s)
  go_on poll_interval rest (r, s) = (r, s)

  -- `none` is that the fuel does not suffice.
  pub wait : ℕ → ℕ → ℕ → Exec S (Option Json)
  unfolding look
  wait zero poll_interval deadline s = (ok none, s)
  wait (suc n) poll_interval deadline s =
      let rest = wait n poll_interval deadline in
      if ltb (around.time s) deadline
      then go_on poll_interval rest (look s)
      else (err (timed_out job_id), s)

  -- The loop, with as many rounds as the timeout has units, and one more.
  pub wait_for_job : ℕ → ℕ → Exec S (Option Json)
  wait_for_job timeout poll_interval s =
      wait (suc timeout) poll_interval (around.time s + timeout) s

  -- How the loop ends: with a job whose status is final, at the deadline, or with an exception that
  -- `get_job` raised or its answer caused.
  pub data Ends (deadline : ℕ) : Result (Option Json) × S → Type 0 where
    returned :
        (job status : Json) (s : S)
        → status_of job ≡ ok status
        → is_final status ≡ ok true
        → Ends deadline (ok (some job), s)
    late : (s : S) → deadline ≤ around.time s → Ends deadline (err (timed_out job_id), s)
    broken : (e : Exn) (before s : S) → look before ≡ (err e, s) → Ends deadline (err e, s)

  module _ (poll_interval : ℕ) (positive : 0 < poll_interval)
      (forward : (n : ℕ) (s : S) → around.time s + n ≤ around.time (around.sleep n s))
      (kept : (s : S) → around.time s ≤ around.time (around.get_job job_id s).1) where
    -- What a look at the job finds, and when it is over.
    Finds : S → Result (Option Json) × S → Type 0
    Finds before (ok none, s) = around.time before ≤ around.time s
    Finds before (ok (some job), s) =
        (status : Json) × (status_of job ≡ ok status) × (is_final status ≡ ok true)
    Finds before (err e, s) = look before ≡ (err e, s)

    final-Finds :
        (before s : S) (job status : Json) (r : Result Bool)
        → is_final status ≡ r
        → status_of job ≡ ok status
        → look before ≡ ((λ s. (r, s)) >>= λ final. if final then pure (some job) else pure none) s
        → around.time before ≤ around.time s
        → Finds before (((λ s. (r, s)) >>= λ final. if final then pure (some job) else pure none) s)
    unfolding Finds pure ◌>>=◌
    final-Finds before s job status (ok true) e f l later = (status, f, e)
    final-Finds before s job status (ok false) e f l later = later
    final-Finds before s job status (err x) e f l later = l

    status-Finds :
        (before s : S) (job : Json) (r : Result Json)
        → status_of job ≡ r
        → look before
          ≡ ((λ s. (r, s)) >>= λ status.
                lift (is_final status) >>= λ final. if final then pure (some job) else pure none)
              s
        → around.time before ≤ around.time s
        → Finds before (
            ((λ s. (r, s)) >>= λ status.
            lift (is_final status) >>= λ final. if final then pure (some job) else pure none)
              s)
    unfolding Finds ◌>>=◌
    status-Finds before s job (ok status) e l later =
        final-Finds before s job status (is_final status) refl e l later
    status-Finds before s job (err x) e l later = l

    answer-Finds :
        (before : S) (r : Result Json × S)
        → around.get_job job_id before ≡ r
        → around.time before ≤ around.time r.1
        → Finds before (proceed r inspect)
    unfolding Finds look ◌>>=◌
    answer-Finds before (ok job, s) e later =
        status-Finds before s job (status_of job) refl (ap (λ r. proceed r inspect) e) later
    answer-Finds before (err x, s) e later = ap (λ r. proceed r inspect) e

    look-Finds : (s : S) → Finds s (look s)
    unfolding look ◌>>=◌
    look-Finds s = answer-Finds s (around.get_job job_id s) refl (kept s)

    round-Ends :
        (deadline n : ℕ) (rest : Exec S (Option Json)) (s : S) (r : Result (Option Json) × S)
        → Finds s r
        → ((t : S) → deadline ≤ around.time t + n → Ends deadline (rest t))
        → deadline ≤ around.time s + suc n
        → Ends deadline (go_on poll_interval rest r)
    unfolding Finds
    round-Ends deadline n rest s (ok none, t) f ends enough =
        ends (around.sleep poll_interval t)
          (let slept = forward poll_interval t in omega (arith, positive, f, slept, enough))
    round-Ends deadline n rest s (ok (some job), t) (status, f, e) ends enough =
        returned job status t f e
    round-Ends deadline n rest s (err x, t) f ends enough = broken x s t f

    wait-Ends :
        (n deadline : ℕ) (s : S)
        → deadline ≤ around.time s + n
        → Ends deadline (wait (suc n) poll_interval deadline s)
    unfolding wait
    wait-Ends zero deadline s enough =
        let over : ltb (around.time s) deadline ≡ false = ground arith in
        rw over (late s (omega arith))
    wait-Ends (suc n) deadline s enough = elim (Bool-cases (ltb (around.time s) deadline)) [
      | inl y ↦ rw y (
          round-Ends deadline n (wait (suc n) poll_interval deadline) s (look s) (look-Finds s)
            (wait-Ends n deadline) enough)
      | inr m ↦ rw m (late s (ground arith))
    ]

    -- Suppose that the poll interval is positive, that sleeping for n units lets at least n units pass,
    -- and that the clock does not run back during `get_job`. Then `wait_for_job` comes to an end: it
    -- returns a job whose status is final, or it raises the TimeoutError, and then the timeout has
    -- passed, or it raises what a look at the job raised.
    pub wait_for_job-Ends :
        (timeout : ℕ) (s : S)
        → Ends (around.time s + timeout) (wait_for_job timeout poll_interval s)
    unfolding wait_for_job
    wait_for_job-Ends timeout s = wait-Ends timeout (around.time s + timeout) s (omega arith)

-- The client takes exactly the terminal states of the bridge for final.
is_final-status : (a : JobStatus) → is_final (str (status_value a)) ≡ ok (is_terminal a)
is_final-status complete = refl
is_final-status _ = refl
