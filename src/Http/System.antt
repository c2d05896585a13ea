-- ===== src/Http/System.antt =====
-- The bridge as a whole: bridge/app.py with its middleware, its handlers and the start, and the
-- turns of the worker, one after another in any order, over the state that they share.
pub mod Witnesses
use suno_studio.Prelude.{ℕ, String, ◌≡◌, Bool, some, List, [], ◌∷◌}
use suno_studio.Models.{Job}
use suno_studio.Storage.Tables.{find_job}
use suno_studio.Storage.Lifecycle.{Evolves, run_ops-Evolves}
use suno_studio.Storage.Refines.{view, ◌⟿◌, run_ops-refines}
use suno_studio.Storage.Unique.{AreUnique, run_ops-AreUnique}
use suno_studio.Storage.History.{IsHistory, run_ops-IsHistory}
use suno_studio.Security.Nonces.{NonceCache}
use suno_studio.Orchestrator.Runtime.{World}
use suno_studio.Orchestrator.Service.{worker_turn}
use suno_studio.Orchestrator.{recover_inflight_jobs}
use suno_studio.Orchestrator.Traces.{recover_inflight_jobs-Transacts}
use suno_studio.Orchestrator.Traces.Rules.{Trace}
use suno_studio.Orchestrator.Traces.Turns.{Trace-refl, Trace-trans, turn-Trace}
use suno_studio.Http.{Upload}
use suno_studio.Http.Application.{App}
use suno_studio.Http.Assets.{post_assets_import}
use suno_studio.Http.Jobs.{
  TextJobCreateRequest, AudioForm, post_jobs_text, post_jobs_audio, post_cancel, get_job_status,
  get_job_handoff,
}
use suno_studio.Http.Manual.{ManualForm, post_manual_complete}
use suno_studio.Http.Gate.{HttpRequest, Admission, passed, answered, raised, middleware}
use suno_studio.Http.Traces.{
  post_jobs_text-Transacts, post_jobs_audio-Transacts, post_cancel-Transacts,
  post_assets_import-Transacts, post_manual_complete-Transacts, get_job_status-Transacts,
  get_job_handoff-Transacts,
}

-- The handlers, with the arguments that FastAPI gives them and the new ids.
data Handler : Type 0 where
  capabilities : Handler
  text_job : String → TextJobCreateRequest → Handler
  audio_job : String → String → AudioForm → Handler
  job_status : String → Handler
  job_handoff : String → Handler
  cancel : String → Handler
  import_asset : String → Upload → Bool → Handler
  manual_complete : String → ManualForm → Handler

data Event : Type 0 where
  -- a request, the time at which it is checked, and the handler of its route
  request : HttpRequest → ℕ → Handler → Event
  -- the start of the bridge
  start : Event
  -- a turn of the worker, with the fuel of its poll loop
  turn : ℕ → Event

record Bridge (P : Type 0) : Type 0 where
  pub world : World P
  pub nonces : NonceCache

module _ {F P : Type 0} (app : App F P) where
  open app use {
    settings, imports, paths, temporary, parse_uuid, loads, crypto, shared_secret, int_error,
    require_hmac,
  }

  run_handler : Handler → World P → World P
  run_handler capabilities w = w
  run_handler (text_job i payload) w = (post_jobs_text settings i payload w).1
  run_handler (audio_job i asset_id form) w =
      (post_jobs_audio settings parse_uuid loads imports paths temporary i asset_id form w).1
  run_handler (job_status i) w = (get_job_status i w).1
  run_handler (job_handoff i) w = (get_job_handoff i w).1
  run_handler (cancel i) w = (post_cancel settings i w).1
  run_handler (import_asset i upload normalize) w =
      (post_assets_import imports paths temporary i upload normalize w).1
  run_handler (manual_complete i form) w = (post_manual_complete settings paths i form w).1

  -- A request goes on to its handler if the middleware lets it pass.
  abbrev served : Handler → World P → Admission × NonceCache → Bridge P
  served h w (passed, c) = record { world = run_handler h w; nonces = c }
  served h w (answered status content, c) = record { world = w; nonces = c }
  served h w (raised e, c) = record { world = w; nonces = c }

  run_event : Event → Bridge P → Bridge P
  unfolding run_handler
  run_event (request r clock h) b =
      served h b.world (middleware crypto shared_secret int_error require_hmac r clock b.nonces)
  run_event start b = record b { world = (recover_inflight_jobs settings b.world).1 }
  run_event (turn fuel) b = record b { world = (worker_turn settings fuel b.world).1 }

  run_events : List Event → Bridge P → Bridge P
  run_events [] b = b
  run_events (e ∷ es) b = run_events es (run_event e b)

  run_handler-Trace : (h : Handler) (w : World P) → Trace w.db (run_handler h w).db
  unfolding run_handler
  run_handler-Trace capabilities w = Trace-refl w.db
  run_handler-Trace (text_job i payload) w = (post_jobs_text-Transacts settings i payload).at w
  run_handler-Trace (audio_job i asset_id form) w =
      (post_jobs_audio-Transacts settings imports paths temporary parse_uuid loads i asset_id
          form).at
        w
  run_handler-Trace (job_status i) w = (get_job_status-Transacts settings i).at w
  run_handler-Trace (job_handoff i) w = (get_job_handoff-Transacts settings i).at w
  run_handler-Trace (cancel i) w = (post_cancel-Transacts settings i).at w
  run_handler-Trace (import_asset i upload normalize) w =
      (post_assets_import-Transacts settings imports paths temporary i upload normalize).at w
  run_handler-Trace (manual_complete i form) w =
      (post_manual_complete-Transacts settings paths i form).at w

  served-Trace :
      (h : Handler) (w : World P) (a : Admission × NonceCache) → Trace w.db (served h w a).world.db
  served-Trace h w (passed, c) = run_handler-Trace h w
  served-Trace h w (answered status content, c) = Trace-refl w.db
  served-Trace h w (raised e, c) = Trace-refl w.db

  run_event-Trace : (e : Event) (b : Bridge P) → Trace b.world.db (run_event e b).world.db
  unfolding run_event
  run_event-Trace (request r clock h) b =
      served-Trace h b.world
        (middleware crypto shared_secret int_error require_hmac r clock b.nonces)
  run_event-Trace start b = (recover_inflight_jobs-Transacts settings).at b.world
  run_event-Trace (turn fuel) b = turn-Trace settings fuel b.world

  run_events-Trace : (es : List Event) (b : Bridge P) → Trace b.world.db (run_events es b).world.db
  unfolding run_events
  run_events-Trace [] b = Trace-refl b.world.db
  run_events-Trace (e ∷ es) b =
      Trace-trans b.world.db (run_event e b).world.db _ (run_event-Trace e b)
        (run_events-Trace es (run_event e b))

  module _ (es : List Event) (b : Bridge P) where
    -- Whatever the providers do, and in whatever order the requests, the start and the turns of the
    -- worker come: if no two rows of the table of jobs clash, and the table of transitions is the
    -- history of the jobs, then both hold after them.
    run_events-integrity :
        AreUnique b.world.db.jobs
        → IsHistory b.world.db
        → AreUnique (run_events es b).world.db.jobs × IsHistory (run_events es b).world.db
    run_events-integrity u h =
        let (os, c, e) = run_events-Trace es b in
        rw e (run_ops-AreUnique os b.world.db u, run_ops-IsHistory os b.world.db c h)

    -- Whatever the providers do, and in whatever order the requests, the start and the turns of the
    -- worker come, a job that was in the table stays there and evolves: its identity, payload and
    -- provider mode are fixed, its status moves along `allowed_transitions`, its attempts do not go
    -- down, and a remote id or a last error that it has may be replaced but not taken away.
    run_events-Evolves :
        (i : String) {a : Job}
        → find_job i b.world.db.jobs ≡ some a
        → (c : Job) × (find_job i (run_events es b).world.db.jobs ≡ some c) × Evolves a c
    run_events-Evolves i there =
        let (os, c, e) = run_events-Trace es b in rw e (run_ops-Evolves i os b.world.db there)

    -- The bridge refines a map from the ids of jobs to statuses. Whatever the providers do, and in
    -- whatever order the requests, the start and the turns of the worker come, the statuses after them
    -- come from those before by steps of the map: in each step an id that was free appears with the
    -- status CREATED, or the status of one id moves as `allowed_transitions` says.
    run_events-refines : view b.world.db ⟿ view (run_events es b).world.db
    run_events-refines =
        let (os, c, e) = run_events-Trace es b in rw e (run_ops-refines os b.world.db c)
