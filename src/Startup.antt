-- ===== src/Startup.antt =====
-- bridge/bootstrap.py and bridge/main.py, and BridgeBinder of bridge_security.py: how the bridge is
-- started, and the file by which it is found. Sockets are not modelled beyond the address that they
-- are bound to, and the directories are taken to be there.
pub mod Discovers
pub mod Witnesses
use Prim.Native.String.{◌++◌}
use suno_studio.Prelude.{
  ℕ, String, Bool, true, false, Option, none, some, List, [], ◌∷◌, ◌==◌, if◌then◌else◌,
}
use suno_studio.Exec.{value_error, Result, Exec, pure, or_raise, modify, gets, ◌>>=◌, ◌>>◌}
use suno_studio.Models.Values.{ℤ, pos, bool, int, str, obj, Fields, end, field}
use suno_studio.Text.{codes, parse_int}
use suno_studio.Protocol.{ProtocolRange, protocol_range}
use suno_studio.Adapters.Registry.{Adapters}
use suno_studio.Http.Application.{App, Libraries, create_app}
use suno_studio.Security.Secrets.{Host, Machine, Keychain, find_text, get_or_create}

-- `machine` has the files and what keeps the secret, `modes` the modes that were set last, the last one
-- first, `environ` the variables of the environment, and `sock` the address of an open socket.
pub record Environment (S : Type 0) : Type 0 where
  pub machine : Machine S
  pub modes : List (String × ℕ)
  pub environ : List (String × String)
  pub sock : Option (String × ℕ)

abbrev without_file : String → List (String × String) → List (String × String)
without_file path [] = []
without_file path ((p, t) ∷ files) =
    let rest = without_file path files in if p == path then rest else (p, t) ∷ rest

record RuntimeBootstrap : Type 0 where
  pub host : String
  pub port : ℤ
  pub shared_secret : String
  pub lockfile : Option String

-- What `uvicorn.run` is called with, and `db_path`.
pub record Server (F : Type 0) : Type 0 where
  pub db_path : String
  pub app : App F Adapters
  pub host : String
  pub port : ℤ

-- What is called: `json.dumps` with an indentation, `bytes.hex`, Base64; then the
-- address that the system gives to a socket on port 0 of 127.0.0.1, and new values of
-- `token_urlsafe`, `getpid` and `token_bytes`.
pub record Surroundings : Type 0 where
  pub dumps_indented : Fields → String
  pub hex : List ℕ → String
  pub b64encode : List ℕ → String
  pub b64decode : String → Option (List ℕ)
  pub address : String × ℕ
  pub token : String
  pub pid : ℕ
  pub raw : List ℕ

module _ {S : Type 0} (host : Host S) (keychain : Keychain) (around : Surroundings) where
  open around use {dumps_indented, hex, b64encode, b64decode, address, token, pid, raw}

  -- os.getenv(name, d)
  abbrev getenv : String → String → Environment S → String
  getenv name d p = elim (find_text name p.environ) [ none ↦ d | some v ↦ v ]

  -- os.environ[name] = value
  setenv : String → String → Exec (Environment S) (Unit {0})
  unfolding modify
  setenv name value = modify λ p. record p { environ = (name, value) ∷ p.environ }

  -- path.write_text(text), and os.chmod(path, 0o600)
  write_private : String → String → Exec (Environment S) (Unit {0})
  unfolding modify
  write_private path text = modify λ p. record p {
    machine = record (p.machine) { files = (path, text) ∷ p.machine.files };
    modes = (path, 384) ∷ p.modes;
  }

  abbrev bound_fields : Fields
  bound_fields = field "host" (str address.0) (
      field "port" (int (pos address.1))
        (field "discovery_token" (str token) (field "pid" (int (pos pid)) end)))

  -- BridgeBinder.bind
  bind : String → Exec (Environment S) (String × ℕ)
  unfolding modify
  bind lockfile = do
    write_private lockfile (host.dumps bound_fields)
    modify (λ p. record p { sock = some address })
    pure address

  -- BridgeBinder.close
  close : String → Exec (Environment S) (Unit {0})
  unfolding modify
  close lockfile = modify λ p. record p {
    machine = record (p.machine) { files = without_file lockfile p.machine.files };
    sock = none;
  }

  abbrev with_machine :
      {A : Type 0} → Environment S → Result A × Machine S → Result A × Environment S
  with_machine p (r, m) = (r, record p { machine = m })

  -- What works on the machine.
  on_machine : {A : Type 0} → Exec (Machine S) A → Exec (Environment S) A
  on_machine m p = with_machine p (m p.machine)

  abbrev discovery : ProtocolRange → String → ℕ → Fields
  discovery range h port = field "host" (str h) (
      field "port" (int (pos port)) (
        field "protocol"
          (obj (
            field "min_supported" (str range.min_supported)
              (field "max_supported" (str range.max_supported) end)))
          (field "auth"
            (obj (field "hmac" (bool true) (field "shared_secret_bootstrap" (str "keychain") end)))
            end)))

  -- With BRIDGE_DEV_MODE.
  abbrev dev_bootstrap : Exec (Environment S) RuntimeBootstrap
  dev_bootstrap p =
      (do
        port ← or_raise value_error (parse_int (codes (getenv "BRIDGE_PORT" "7071" p)))
        pure (record {
          host = getenv "BRIDGE_HOST" "127.0.0.1" p;
          port = port;
          shared_secret = getenv "BRIDGE_SHARED_SECRET" "dev-shared-secret" p;
          lockfile = none;
        }))
        p

  abbrev lockfile_path : Environment S → String
  lockfile_path p = getenv "BRIDGE_LOCKFILE" (host.home ++ "/.suno_studio/bridge.lock") p

  abbrev local_bootstrap : ProtocolRange → String → Exec (Environment S) RuntimeBootstrap
  local_bootstrap range lockfile = do
    bound ← bind lockfile
    close lockfile
    secret_bytes ← on_machine (get_or_create host keychain b64encode b64decode raw)
    setenv "BRIDGE_SHARED_SECRET" (hex secret_bytes)
    write_private lockfile (dumps_indented (discovery range bound.0 bound.1))
    pure (record {
      host = bound.0;
      port = pos bound.1;
      shared_secret = hex secret_bytes;
      lockfile = some lockfile;
    })

  abbrev bootstrap_by : ProtocolRange → Bool → Exec (Environment S) RuntimeBootstrap
  bootstrap_by range true = dev_bootstrap
  bootstrap_by range false = λ p. local_bootstrap range (lockfile_path p) p

  initialize_runtime_bootstrap : ProtocolRange → Exec (Environment S) RuntimeBootstrap
  initialize_runtime_bootstrap range p =
      bootstrap_by range (getenv "BRIDGE_DEV_MODE" "0" p == "1") p

  module _ {F : Type 0} (libraries : Libraries F) where
    abbrev serving : RuntimeBootstrap → Environment S → Server F
    serving b p = record {
      db_path = getenv "BRIDGE_DB_PATH" "storage/jobs.db" p;
      app =
          create_app libraries (getenv "BRIDGE_ASSETS_ROOT" "storage/assets" p)
            (some (getenv "BRIDGE_ENABLE_HMAC" "1" p == "1")) (some b.shared_secret);
      host = b.host;
      port = b.port;
    }

    -- main
    pub main : Exec (Environment S) (Server F)
    main = do bootstrap ← initialize_runtime_bootstrap protocol_range; gets (serving bootstrap)
