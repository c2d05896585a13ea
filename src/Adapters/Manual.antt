-- ===== src/Adapters/Manual.antt =====
-- bridge/adapters/manual_suno.py: ManualSunoAdapter. Its state is what it has written below
-- `workspaces_root`, a workspace to a job; README.md has a fixed text, which is left out.
use Prim.Native.String.{◌++◌}
use suno_studio.Prelude.{
  String, Bool, true, false, Option, none, some, List, [], ◌∷◌, ◌==◌, if◌then◌else◌,
}
use suno_studio.Exec.{file_not_found, ok, Exec, pure, gets, or_raise, ◌>>=◌, ◌>>◌}
use suno_studio.Models.Values.{Json, null, bool, str, obj, Fields, end, field, get, truthy}
use suno_studio.Adapters.{ProviderAdapter, of_dict}

pub record Workspace : Type 0 where
  pub handoff : Fields
  pub prompt_txt : String
  pub metadata_json : Fields
  pub source_audio : Option String

abbrev pub Workspaces : Type 0
Workspaces = List (String × Workspace)

unfoldable pub find_workspace : String → Workspaces → Option Workspace
find_workspace i [] = none
find_workspace i ((k, w) ∷ m) = if k == i then some w else find_workspace i m

unfoldable pub put_workspace : String → Workspace → Workspaces → Workspaces
put_workspace i w [] = (i, w) ∷ []
put_workspace i w ((k, v) ∷ m) = if k == i then (k, w) ∷ m else (k, v) ∷ put_workspace i w m

-- bool(metadata.get(key, d))
abbrev flag : Fields → String → Bool → Json
flag metadata key d = elim (get metadata key) [ none ↦ bool d | some v ↦ bool (truthy v) ]

-- metadata.get(key)
abbrev or_null : Fields → String → Json
or_null metadata key = elim (get metadata key) [ none ↦ null | some v ↦ v ]

pub requested_deliverables : Fields → Fields
requested_deliverables metadata = field "mix" (flag metadata "request_mix" true) (
    field "stems" (flag metadata "request_stems" false) (
      field "tempo_locked_stems" (flag metadata "request_tempo_locked_stems" false) (
        field "midi" (flag metadata "request_midi" false) (
          field "selected_range_export" (flag metadata "request_selected_range_export" false)
            end))))

unfoldable pub handoff_of : String → String → Fields → Fields
unfolding requested_deliverables
handoff_of i prompt metadata = field "provider" (str "suno_manual") (
    field "job_id" (str i) (
      field "mode" (elim (get metadata "mode") [ none ↦ str "song" | some v ↦ v ])
        (field "prompt" (str prompt) (
          field "audio_prompt_asset_id" (or_null metadata "audio_prompt_asset_id") (
            field "sound_options"
              (obj (
                field "one_shot" (or_null metadata "one_shot") (
                  field "loop" (or_null metadata "loop") (
                    field "bpm" (or_null metadata "bpm")
                      (field "key" (or_null metadata "key") end)))))
              (field "requested_deliverables" (obj (requested_deliverables metadata)) end))))))

abbrev old_audio : Option Workspace → Option String
old_audio none = none
old_audio (some w) = w.source_audio

-- `root` is the folder of the workspaces, and `exists` tells which files are there.
module _ (root : String) (exists : String → Bool) where
  -- `source_audio` is the file that was copied last; it stays if there is none to copy.
  abbrev copied : Option String → Option String → Option String
  copied (some p) old = if exists p then some p else old
  copied none old = old

  pub workspace_for_job : String → String
  workspace_for_job i = root ++ "/" ++ i

  unfoldable pub write_workspace :
      String → String → Fields → Option String → Exec Workspaces (Unit {0})
  unfolding handoff_of
  write_workspace i prompt metadata source_path m =
      let old = old_audio (find_workspace i m) in
      (
        ok tt,
        put_workspace i
            (record {
              handoff = handoff_of i prompt metadata;
              prompt_txt = prompt;
              metadata_json = metadata;
              source_audio = copied source_path old;
            })
            m,
      )

  unfoldable pub submit_text_job : String → String → Fields → Exec Workspaces String
  unfolding ◌>>=◌
  submit_text_job i prompt metadata = do
    write_workspace i prompt metadata none
    pure ("manual-" ++ i)

  unfoldable pub submit_audio_job : String → String → Fields → String → Exec Workspaces String
  unfolding ◌>>=◌
  submit_audio_job i prompt metadata source_path = do
    write_workspace i prompt metadata (some source_path)
    pure ("manual-" ++ i)

  unfoldable pub get_handoff : String → Exec Workspaces Fields
  unfolding workspace_for_job ◌>>=◌
  get_handoff i = do
    found ← gets (find_workspace i)
    w ← or_raise file_not_found found
    pure (
        field "workspace" (str (workspace_for_job i)) (
          field "handoff" (obj w.handoff)
            (field "instructionsPath" (str (workspace_for_job i ++ "/README.md")) end)))

  abbrev pub manual_adapter : ProviderAdapter Workspaces
  manual_adapter = record {
    submit_text_job = λ i prompt metadata. of_dict metadata (submit_text_job i prompt);
    submit_audio_job =
        λ i prompt metadata path. of_dict metadata λ d. submit_audio_job i prompt d path;
    poll_job = λ r.
        pure (record { state = "awaiting_manual_result"; progress = 50; retryable_error = none });
    download_outputs = λ r. pure [];
    cancel_remote_job = λ r. pure true;
    get_handoff = some get_handoff;
  }
