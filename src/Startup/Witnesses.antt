-- ===== src/Startup/Witnesses.antt =====
-- The theorem on the start of the bridge, at a machine that has a secret.
use suno_studio.Prelude.{ℕ, ◌≡◌, refl, true, false, none, some, [], ◌∷◌}
use suno_studio.Http.Application.{Libraries}
use suno_studio.Exec.{type_error, err, ok, ◌>>=◌, pure}
use suno_studio.Models.Values.{pos, bool, str, int, obj, Fields, end, field}
use suno_studio.Security.Secrets.{
  Host, Machine, Keychain, linux, find_text, get_or_create, keychain_get, run_command,
}
use suno_studio.Client.{ClientConfig}
use suno_studio.Startup.{Environment, Surroundings, Server, main}
use suno_studio.Startup.Discovers.{client_of, Reaches, main-reached}

-- What `json.loads` makes of the discovery file.
abbrev found : Fields
found = field "host" (str "127.0.0.1") (
    field "port" (int (pos 50123)) (
      field "protocol"
        (obj (field "min_supported" (str "1.2") (field "max_supported" (str "1.3") end)))
        (field "auth"
          (obj (field "hmac" (bool true) (field "shared_secret_bootstrap" (str "keychain") end)))
          end)))

-- `secret-tool` prints the secret.
abbrev host : Host (Unit {0})
host = record {
  system = linux;
  run = λ args input s. (record { returncode = pos 0; stdout = "AQI="; stderr = "" }, s);
  strip = λ s. s;
  within = λ t s. true;
  home = "h";
  loads = λ s. some (obj found);
  dumps = λ d. "{}";
}

abbrev keychain : Keychain
keychain = record { service = "s"; account = "a" }

abbrev around : Surroundings
around = record {
  dumps_indented = λ d. "{...}";
  hex = λ raw. "0102";
  b64encode = λ raw. "AQI=";
  b64decode = λ s. some (1 ∷ 2 ∷ []);
  address = ("127.0.0.1", 50123);
  token = "t";
  pid = 7;
  raw = 9 ∷ [];
}

abbrev machine : Machine (Unit {0})
machine = record { store = tt; files = [] }

abbrev start : Environment (Unit {0})
start = record { machine = machine; modes = []; environ = []; sock = none }

abbrev libraries : Libraries ℕ
libraries = record {
  sha256 = λ c. "ab";
  encode = λ s. 48 ∷ 49 ∷ 48 ∷ 50 ∷ [];
  exists = λ p. false;
  parent = λ p. "storage";
  suffix_lower = λ p. ".wav";
  wave_open = λ c. err type_error;
  dumps_indented = λ m. 123 ∷ [];
  floats = record {
    literal = λ s. 1;
    divide = λ a b. a;
    log10 = λ x. x;
    times = λ x y. y;
    minus = λ x y. x;
    max = λ x y. x;
    number = λ x. int (pos x);
  };
  paths = record { suffix = λ s. ".wav"; name = λ s. s };
  temporary = λ s. "tmp";
  parse_uuid = λ s. some s;
  loads = λ s. some (obj end);
  crypto = record { sha256_hex = λ b. "ab"; hmac_hex = λ k t. "cd"; decimal = λ z. "7" };
  int_error = λ s. "invalid";
}

main-reached_example :
    (server : Server ℕ) × (q : Environment (Unit {0})) × (c : ClientConfig) × (main host keychain
        around libraries start
      ≡ (ok server, q))
    × (client_of host keychain around start
          (1 ∷ 2 ∷ [])
          machine
          libraries
          (λ v. "50123")
          "0.9"
          "1.3"
          q
        ≡ ok c)
    × Reaches host keychain around start
        (1 ∷ 2 ∷ [])
        machine
        libraries
        (λ v. "50123")
        "0.9"
        "1.3"
        c
        server
    × (q.sock ≡ none)
main-reached_example =
    main-reached host keychain around start (1 ∷ 2 ∷ []) machine libraries (λ v. "50123") "0.9"
      "1.3" (unfold find_text in refl)
      (unfold get_or_create keychain_get run_command ◌>>=◌ pure in refl) refl refl
