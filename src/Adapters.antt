-- ===== src/Adapters.antt =====
-- bridge/adapters/base.py: what the orchestrator asks of a provider. `P` is the state of the
-- providers; every method may raise.
pub mod Mock
pub mod Manual
pub mod Registry
pub mod HandsOff
use suno_studio.Prelude.{ℕ, String, Bool, Option, List}
use suno_studio.Exec.{Exec, attribute_error, err}
use suno_studio.Models.Values.{Json, obj, Fields}

pub record ProviderOutput : Type 0 where
  pub variant : String
  pub extension : String
  pub content : List ℕ

pub record ProviderPollResult : Type 0 where
  pub state : String
  pub progress : ℕ
  pub retryable_error : Option String

-- `get_handoff` is there exactly if the adapter is a `ManualSunoAdapter`.
pub record ProviderAdapter (P : Type 0) : Type 0 where
  pub submit_text_job : String → String → Json → Exec P String
  pub submit_audio_job : String → String → Json → String → Exec P String
  pub poll_job : String → Exec P ProviderPollResult
  pub download_outputs : String → Exec P (List ProviderOutput)
  pub cancel_remote_job : String → Exec P Bool
  pub get_handoff : Option (String → Exec P Fields)

-- The adapters call `metadata.get`, which only a dict has.
abbrev pub of_dict : {P A : Type 0} → Json → (Fields → Exec P A) → Exec P A
of_dict (obj metadata) f = f metadata
of_dict _ f = λ s. (err attribute_error, s)
