-- ===== src/Lib.antt =====
-- The Suno Studio bridge (Python): a local server that takes jobs from a plug-in, keeps them in SQLite,
-- runs them on a provider in a worker thread, and stores the results.
--
-- The parts, and the files that model them:
-- - bridge/models.py: Models.antt, Models/Status.antt (JobStatus, the terminal and in-flight sets, and
--   _ALLOWED_TRANSITIONS of storage/durable_storage.py), Models/Values.antt (JSON values).
-- - storage/durable_storage.py: Storage.antt has the methods of DurableStorage under their names,
--   Storage/Tables.antt the tables and the statements run on them, Storage/Rows.antt the INSERT's
--   parameters and `_row_to_job`. Storage/Ops.antt lists the writes that the rest of the program makes.
-- - bridge/services/job_service.py: Orchestrator.antt (enqueue_job, recover_inflight_jobs, cancel_job,
--   process_one), Orchestrator/Submit.antt (_submit_remote), Manual.antt (_prepare_manual), Poll.antt
--   (_poll_and_download), Service.antt (JobService, WorkerLoop), Runtime.antt (JobQueue,
--   CancellationRegistry, _provider_for, and AssetDownloader of bridge/downloader.py).
-- - bridge/adapters/: Adapters.antt (base.py), Adapters/Mock.antt, Adapters/Manual.antt, and
--   Adapters/Registry.antt, the map of providers that create_app of bridge/app.py builds.
-- - bridge/middleware.py and bridge/errors.py: Protocol.antt, Errors.antt, and Text.antt for int(s).
-- - bridge_security.py: Security/Nonces.antt (NonceCache), Security/Signer.antt (RequestSigner),
--   Security/Session.antt (SessionCrypto), Security/Session/Store.antt (EncryptedSessionStore),
--   Security/Secrets.antt (OSKeychain, SharedSecretManager), Security/Redaction.antt
--   (RedactingFormatter).
-- - bridge/app.py: Http.antt (provider modes, errors), Http/Gate.antt (protocol_security_middleware),
--   Http/Jobs.antt, Http/Assets.antt and Http/Manual.antt (the handlers), Http/Responses.antt (the
--   models of bridge/schemas/api_models.py, bridge_error_handler, and bridge/server.py),
--   Http/Application.antt (create_app), and Http/System.antt: the whole bridge, as sequences of requests,
--   starts and turns of the worker.
-- - bridge/services/import_service.py and transcode_service.py: Imports.antt, with
--   Imports/Analysis.antt and Imports/Wave.antt for _analyze_wav, Imports/Schema.antt for
--   bridge/schemas/manifest_schema.py, and Imports/Keywords.antt, which says what the keywords of JSON
--   Schema in it mean.
-- - bridge/client.py: Client.antt (the handshake), Client/Requests.antt (the requests of each method, with
--   Client/Multipart.antt for their forms), Client/Answers.antt (_urlopen_json), Client/Waiting.antt
--   (wait_for_job), Client/Discovery.antt (from_discovery_file).
-- - plugin/session_state.py: Plugin.antt (APVTSSessionState), Plugin/Entries.antt (SubmissionEntry, and the
--   dict in the file).
-- - bridge/main.py and bridge/bootstrap.py: Startup.antt, with BridgeBinder of bridge_security.py.
-- Exec.antt is the monad of methods that change an object and may raise; Prelude.antt has the shared
-- names and lemmas. The modules named Witnesses apply the theorems at concrete inputs.
--
-- How they interact: a handler calls JobService, which writes a job to the tables and its id to the
-- queue; a turn of the worker takes an id and calls process_one, which drives a provider and writes each
-- change of status to the tables; a cancellation is left in the registry, where the worker looks it up.
-- The state of the orchestrator is the record World: the tables, the queue, the registry, the files
-- written and the state of the providers.
--
-- Conventions. An exception takes back what a storage call has written. The calls on World, a handler
-- or a turn of the worker, run one after another, and so do the storage calls that they make: the
-- theorems on them say nothing of threads that overlap. Storage/Overlap.antt takes set_job_status and
-- update_job_runtime_fields apart, which read before their transaction begins, and runs their parts in
-- any order between the calls of other threads; Storage/Overlap/ has what still holds then, and what
-- does not. Progress is in hundredths (0.95 is 95), times are readings of a clock, and the clock moves
-- with `sleep` and `wait`. A SELECT without ORDER BY returns the rows in the order in which they were
-- inserted. The dict of a payload is a record, since `_create_job` is its one writer; the numbers in
-- metadata are integers. The columns of the table jobs are kept decoded, and Storage/Rows.antt says
-- how they are coded. uuid4 and `secrets` are arguments; SHA-256, HMAC, PBKDF2, JSON texts,
-- `str.lower` and ISO dates are parameters, and what the code relies on is a named field or
-- hypothesis: the lengths of digests, and that `loads` undoes `dumps`.
--
-- Outside of the code. The commands of the keychains, base64, the wave module, floating-point numbers,
-- paths, MIME types and percent-encoding are parameters too. Header names are in lower case. The file
-- system is the list of what was written to each path. In bridge/client.py the sending of a request is
-- apart from its making and from the reading of its answer.
--
-- Fuel. The key stream gets as many rounds as bytes are asked for, which is enough since a block has 32
-- bytes. The poll loop takes its fuel as an argument, since it waits as long as the provider keeps it
-- waiting; how much is enough is part of the theorems on it. wait_for_job gets one round more than its
-- timeout has units, which is enough since each round sleeps for a unit at least.
--
-- Not modelled: the creation and migration of the schema, the start and stop of threads, sockets
-- beyond their addresses, build_secure_logger of bridge_security.py, routing, the checks of arguments
-- and temporary files of the HTTP layer, the directories of files, what dict(metadata) makes of a list
-- with anything but pairs of a text and a value (the model raises), the tool that makes test assets,
-- and the clients in other languages.
pub mod Prelude
pub mod Exec
pub mod Models
pub mod Storage
pub mod Security
pub mod Text
pub mod Errors
pub mod Protocol
pub mod Adapters
pub mod Orchestrator
pub mod Plugin
pub mod Http
pub mod Imports
pub mod Client
pub mod Startup
