-- ===== src/Startup/Discovers.antt =====
-- bridge/main.py, bridge/bootstrap.py and bridge/client.py: a client that is made from the
-- discovery file.
use Prim.Native.String.{◌++◌}
use suno_studio.Prelude.{
  ℕ, String, ◌≡◌, refl, sym, ◌∙◌, ap, false, none, some, List, ◌∷◌, eq_refl, ◌==◌, if◌then◌else◌,
}
use suno_studio.Exec.{ok, Result, pure, gets, modify, ◌>>=◌}
use suno_studio.Models.Values.{Json, pos, int, obj}
use suno_studio.Orchestrator.Steps.{then_step}
use suno_studio.Protocol.{protocol_range}
use suno_studio.Security.Secrets.{Host, Machine, Keychain, find_text, get_or_create}
use suno_studio.Http.Application.{Libraries, create_app}
use suno_studio.Client.{ClientConfig}
use suno_studio.Client.Discovery.{from_discovery_file, from_payload}
use suno_studio.Startup.{
  Environment, RuntimeBootstrap, Surroundings, Server, without_file, getenv, setenv, write_private,
  bind, close, on_machine, discovery, lockfile_path, local_bootstrap, bootstrap_by,
  initialize_runtime_bootstrap, serving, main,
}

module _ {S : Type 0} (host : Host S) (keychain : Keychain) (around : Surroundings) where
  open around use {dumps_indented, hex, b64encode, b64decode, address, raw}

  -- The lock file is removed.
  abbrev cleared : String → Machine S → Machine S
  cleared path m = record m { files = without_file path m.files }

  module _ (p : Environment S) (secret : List ℕ) (m : Machine S) where
    abbrev path : String
    path = lockfile_path host keychain around p

    -- What `initialize_runtime_bootstrap` leaves, where `m` is the machine with the secret.
    abbrev left : Environment S
    left = record {
      machine = record m {
        files =
            (
              path,
              dumps_indented (discovery host keychain around protocol_range address.0 address.1),
            )
            ∷ m.files;
      };
      modes = (path, 384) ∷ (path, 384) ∷ p.modes;
      environ = ("BRIDGE_SHARED_SECRET", hex secret) ∷ p.environ;
      sock = none;
    }

    abbrev started : RuntimeBootstrap
    started = record {
      host = address.0;
      port = pos address.1;
      shared_secret = hex secret;
      lockfile = some path;
    }

    local_bootstrap-runs :
        get_or_create host keychain b64encode b64decode raw (cleared path p.machine)
          ≡ (ok secret, m)
        → local_bootstrap host keychain around protocol_range path p ≡ (ok started, left)
    unfolding bind close write_private setenv on_machine modify pure ◌>>=◌
    local_bootstrap-runs h = rw (eq_refl) (rw h refl)

    main-runs :
        {F : Type 0} (libraries : Libraries F)
        → (getenv host keychain around "BRIDGE_DEV_MODE" "0" p == "1") ≡ false
        → get_or_create host keychain b64encode b64decode raw (cleared path p.machine)
          ≡ (ok secret, m)
        → main host keychain around libraries p
          ≡ (ok (serving host keychain around libraries started left), left)
    unfolding main initialize_runtime_bootstrap gets
    main-runs libraries mode h = then_step _ _ p (
        ap (λ b. bootstrap_by host keychain around protocol_range b p) mode
        ∙ local_bootstrap-runs h)

    module _ {F : Type 0} (libraries : Libraries F) (show : Json → String)
        (plugin_version protocol_version : String) where
      -- A client that has the file of an environment, and the secret of its variables.
      abbrev pub client_of : Environment S → Result ClientConfig
      client_of q =
          from_discovery_file host.loads show libraries.encode plugin_version protocol_version
            (getenv host keychain around "BRIDGE_SHARED_SECRET" "" q)
            (find_text path q.machine.files)

      -- The client finds the server, and signs with the key that the server checks with.
      abbrev pub Reaches : ClientConfig → Server F → Type 0
      Reaches c server =
          (c.base_url ≡ "http://" ++ server.host ++ ":" ++ show (int server.port))
          × (c.shared_secret ≡ server.app.shared_secret)

      abbrev known : ClientConfig
      known = record {
        base_url = "http://" ++ address.0 ++ ":" ++ show (int (pos address.1));
        plugin_version = plugin_version;
        protocol_version = protocol_version;
        shared_secret = libraries.encode (hex secret);
      }

      client_of-left :
          (let d = discovery host keychain around protocol_range address.0 address.1 in
            host.loads (dumps_indented d) ≡ some (obj d))
          → client_of left ≡ ok known
      unfolding from_discovery_file find_text
      client_of-left back = rw (eq_refl) (
          ap
            (from_payload host.loads show libraries.encode plugin_version protocol_version
              (hex secret))
            back)

      -- Suppose that the bridge is started without BRIDGE_DEV_MODE, that the keychain gives a secret
      -- whose digits are not empty, and that json.loads reads back the discovery file. Then main
      -- serves, its first socket closed, and a client that is made from the file of the lockfile's
      -- path, with the secret in BRIDGE_SHARED_SECRET, has the address of the server, and the key that
      -- the server checks signatures with.
      pub main-reached :
          (getenv host keychain around "BRIDGE_DEV_MODE" "0" p == "1") ≡ false
          → get_or_create host keychain b64encode b64decode raw (cleared path p.machine)
            ≡ (ok secret, m)
          → (hex secret == "") ≡ false
          → (let d = discovery host keychain around protocol_range address.0 address.1 in
              host.loads (dumps_indented d) ≡ some (obj d))
          → (server : Server F) × (q : Environment S) × (c : ClientConfig) × (main host keychain
                around libraries p
              ≡ (ok server, q))
            × (client_of q ≡ ok c)
            × Reaches c server
            × (q.sock ≡ none)
      unfolding create_app
      main-reached mode h some_secret back = (
        _,
        left,
        known,
        main-runs libraries mode h,
        client_of-left back,
        (
          refl,
          ap (λ b. libraries.encode (if b then "dev-shared-secret" else hex secret))
              (sym some_secret),
        ),
        refl,
      )
