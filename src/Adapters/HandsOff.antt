-- ===== src/Adapters/HandsOff.antt =====
-- bridge/adapters/manual_suno.py: the handoff of a text job that was submitted.
use Prim.Native.String
use suno_studio.Prelude.{
  String, ◌≡◌, refl, Bool, some, [], ◌∷◌, eq_refl, ◌==◌, inl, inr, Bool-cases,
}
use suno_studio.Exec.{ok, gets, or_raise, pure, Exec}
use suno_studio.Models.Values.{Fields, field, obj, str, end}
use suno_studio.Adapters.{ProviderAdapter}
use suno_studio.Adapters.Manual.{
  Workspace, Workspaces, find_workspace, put_workspace, write_workspace, submit_text_job,
  get_handoff, manual_adapter, workspace_for_job, handoff_of,
}
use suno_studio.Adapters.Registry.{Adapters, on_manual, lift_adapter}

find_workspace-put_workspace :
    (i : String) (v : Workspace) (m : Workspaces) → find_workspace i (put_workspace i v m) ≡ some v
unfolding find_workspace put_workspace
find_workspace-put_workspace i v [] = rw (eq_refl)
find_workspace-put_workspace i v ((k, w) ∷ m) = elim (Bool-cases (k == i)) [
  | inl y ↦ rw (y, y)
  | inr n ↦ rw n (rw n (find_workspace-put_workspace i v m))
]

-- The manual provider of the application.
module _ (root : String) (exists : String → Bool) where
  abbrev pub provider : ProviderAdapter Adapters
  provider = lift_adapter (λ A m. on_manual m) (manual_adapter root exists)

  abbrev pub handoffs : String → Exec Adapters Fields
  handoffs k = on_manual (get_handoff root exists k)

module _ (root : String) (exists : String → Bool) (i prompt : String) (metadata : Fields) where
  -- What `get_handoff` answers for the job.
  abbrev pub answer : Fields
  answer = field "workspace" (str (workspace_for_job root exists i)) (
      field "handoff" (obj (handoff_of i prompt metadata)) (
        field "instructionsPath" (str (String.◌++◌ (workspace_for_job root exists i) "/README.md"))
          end))

  abbrev written : Workspaces → Workspaces
  written m = (submit_text_job root exists i prompt metadata m).1

  get_handoff-written :
      (m : Workspaces) → get_handoff root exists i (written m) ≡ (ok answer, written m)
  unfolding submit_text_job write_workspace get_handoff gets or_raise pure
  get_handoff-written m = rw find_workspace-put_workspace

  pub submit_text_job-hands_off :
      (s : Adapters)
      → (t : Adapters) × ((provider root exists).submit_text_job i prompt (obj metadata) s
          ≡ (ok (String.◌++◌ "manual-" i), t))
        × (handoffs root exists i t ≡ (ok answer, t))
  unfolding submit_text_job pure write_workspace
  submit_text_job-hands_off s =
      (record s { manual = written s.manual }, refl, rw (get_handoff-written s.manual))
