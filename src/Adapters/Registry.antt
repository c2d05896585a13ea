-- ===== src/Adapters/Registry.antt =====
-- The two providers that `create_app` of bridge/app.py puts into the map of the orchestrator.
use suno_studio.Prelude.{ℕ, String, Bool, Option, none, some, List}
use suno_studio.Exec.{Result, Exec}
use suno_studio.Models.Values.{Fields}
use suno_studio.Models.{ProviderMode, mock_suno, manual_suno}
use suno_studio.Adapters.{ProviderAdapter}
use suno_studio.Adapters.Mock.{States, mock_adapter}
use suno_studio.Adapters.Manual.{Workspaces, manual_adapter}

pub record Adapters : Type 0 where
  pub mock : States
  pub manual : Workspaces

module _ {A : Type 0} where
  abbrev back_mock : Adapters → Result A × States → Result A × Adapters
  back_mock s (r, t) = (r, record s { mock = t })

  abbrev on_mock : Exec States A → Exec Adapters A
  on_mock m s = back_mock s (m s.mock)

  abbrev back_manual : Adapters → Result A × Workspaces → Result A × Adapters
  back_manual s (r, t) = (r, record s { manual = t })

  abbrev pub on_manual : Exec Workspaces A → Exec Adapters A
  on_manual m s = back_manual s (m s.manual)

module _ {P Q : Type 0} (lift : (A : Type 0) → Exec P A → Exec Q A) where
  abbrev lift_handoff : Option (String → Exec P Fields) → Option (String → Exec Q Fields)
  lift_handoff none = none
  lift_handoff (some h) = some (λ i. lift Fields (h i))

  -- An adapter that keeps its state as a part of `Q`.
  abbrev pub lift_adapter : ProviderAdapter P → ProviderAdapter Q
  lift_adapter a = record {
    submit_text_job = λ i p m. lift _ (a.submit_text_job i p m);
    submit_audio_job = λ i p m s. lift _ (a.submit_audio_job i p m s);
    poll_job = λ r. lift _ (a.poll_job r);
    download_outputs = λ r. lift _ (a.download_outputs r);
    cancel_remote_job = λ r. lift _ (a.cancel_remote_job r);
    get_handoff = lift_handoff a.get_handoff;
  }

-- `encode` is UTF-8, `root` the folder of the workspaces, `exists` tells which files are there.
module _ (encode : String → List ℕ) (root : String) (exists : String → Bool) where
  abbrev pub app_providers : ProviderMode → Option (ProviderAdapter Adapters)
  app_providers mock_suno = some (lift_adapter (λ A m. on_mock m) (mock_adapter encode))
  app_providers manual_suno = some (lift_adapter (λ A m. on_manual m) (manual_adapter root exists))
  app_providers _ = none
