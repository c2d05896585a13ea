-- ===== src/Adapters/Mock.antt =====
-- bridge/adapters/mock_suno.py: MockSunoAdapter. Its state is the dict from remote ids to jobs.
-- Progress is in hundredths.
use Prim.Native.String.{◌++◌}
use suno_studio.Prelude.{
  ℕ, ◌+◌, String, Bool, true, false, not, ◌&&◌, Option, none, some, List, [], ◌∷◌, min, leb, eqb,
  ◌==◌, if◌then◌else◌,
}
use suno_studio.Exec.{
  key_error, value_error, type_error, Result, ok, err, Exec, pure, gets, or_raise, ◌>>=◌,
}
use suno_studio.Models.Values.{ℤ, pos, negsuc, Json, bool, int, str, Fields, get, truthy}
use suno_studio.Text.{codes, parse_int}
use suno_studio.Adapters.{ProviderOutput, ProviderPollResult, ProviderAdapter, of_dict}

pub record MockJob : Type 0 where
  pub prompt : String
  pub source : Option String
  pub poll_count : ℕ
  pub poll_steps : ℤ
  pub progress : ℕ
  pub fail_once : Bool
  pub failed_once : Bool
  pub cancelled : Bool

abbrev pub States : Type 0
States = List (String × MockJob)

unfoldable pub find_state : String → States → Option MockJob
find_state r [] = none
find_state r ((k, v) ∷ m) = if k == r then some v else find_state r m

-- self._states[r] = v
unfoldable pub put_state : String → MockJob → States → States
put_state r v [] = (r, v) ∷ []
put_state r v ((k, w) ∷ m) = if k == r then (k, v) ∷ m else (k, w) ∷ put_state r v m

-- int(v)
to_int : Json → Result ℤ
to_int (int z) = ok z
to_int (bool b) = ok (if b then pos 1 else pos 0)
to_int (str s) = elim (parse_int (codes s)) [ none ↦ err value_error | some z ↦ ok z ]
to_int _ = err type_error

abbrev or_default : Option Json → Json → Json
or_default none d = d
or_default (some v) d = v

abbrev started : String → Fields → Option String → Result ℤ → Result MockJob
started prompt metadata source (err e) = err e
started prompt metadata source (ok steps) = ok (record {
  prompt = prompt;
  source = source;
  poll_count = 0;
  poll_steps = steps;
  progress = 0;
  fail_once = truthy (or_default (get metadata "mock_fail_once") (bool false));
  failed_once = false;
  cancelled = false;
})

unfoldable pub initial_state : String → Fields → Option String → Result MockJob
unfolding to_int
initial_state prompt metadata source =
    started prompt metadata source
      (to_int (or_default (get metadata "mock_poll_steps") (int (pos 3))))

abbrev submit : String → Result MockJob → Exec States String
submit r (err e) m = (err e, m)
submit r (ok state) m = (ok r, put_state r state m)

unfoldable pub submit_text_job : String → String → Fields → Exec States String
submit_text_job i prompt metadata = submit ("mock-text-" ++ i) (initial_state prompt metadata none)

unfoldable pub submit_audio_job : String → String → Fields → String → Exec States String
submit_audio_job i prompt metadata source_path =
    submit ("mock-audio-" ++ i) (initial_state prompt metadata (some source_path))

-- state["poll_count"] <= state["poll_steps"]
abbrev pub within : ℕ → ℤ → Bool
within n (pos k) = leb n k
within n (negsuc k) = false

abbrev answer : String → ℕ → ProviderPollResult
answer state progress = record { state = state; progress = progress; retryable_error = none }

-- One poll of a job: its new state, and the answer.
unfoldable pub poll_state : MockJob → MockJob × ProviderPollResult
poll_state st =
    let counted = record st { poll_count = st.poll_count + 1 } in
    let stepped = min 90 (st.progress + 30) in
    if st.cancelled
    then (st, answer "cancelled" st.progress)
    else if st.fail_once && not st.failed_once
    then (
      record counted { failed_once = true },
      record {
        state = "retryable_error";
        progress = st.progress;
        retryable_error = some "transient";
      },
    )
    else if eqb (st.poll_count + 1) 1
    then (record counted { progress = 10 }, answer "queued" 10)
    else if within (st.poll_count + 1) st.poll_steps
    then (record counted { progress = stepped }, answer "in_progress" stepped)
    else (record counted { progress = 100 }, answer "ready" 100)

unfoldable pub poll_job : String → Exec States ProviderPollResult
poll_job r m = elim (find_state r m) [
  | none ↦ (err key_error, m)
  | some st ↦ let (st', a) = poll_state st in (ok a, put_state r st' m)
]

-- `encode` is the UTF-8 encoding.
unfoldable pub download_outputs : (String → List ℕ) → String → Exec States (List ProviderOutput)
unfolding ◌>>=◌
download_outputs encode r = do
  found ← gets (find_state r)
  state ← or_raise key_error found
  pure (
      record {
        variant = "main";
        extension = "wav";
        content = encode ("MOCK_OUTPUT::" ++ r ++ "::" ++ state.prompt);
      }
      ∷ [])

unfoldable pub cancel_remote_job : String → Exec States Bool
cancel_remote_job r m = elim (find_state r m) [
  | none ↦ (ok false, m)
  | some st ↦ (ok true, put_state r (record st { cancelled = true }) m)
]

abbrev pub mock_adapter : (String → List ℕ) → ProviderAdapter States
mock_adapter encode = record {
  submit_text_job = λ i prompt metadata. of_dict metadata (submit_text_job i prompt);
  submit_audio_job =
      λ i prompt metadata path. of_dict metadata λ d. submit_audio_job i prompt d path;
  poll_job = poll_job;
  download_outputs = download_outputs encode;
  cancel_remote_job = cancel_remote_job;
  get_handoff = none;
}
