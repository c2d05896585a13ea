-- ===== src/Security/Secrets.antt =====
-- bridge_security.py: OSKeychain and SharedSecretManager. What runs a command is a parameter, on a
-- state of its own; the file that Windows needs besides is in `files`.
pub mod Persists
pub mod Witnesses
use Prim.Native.String.{◌++◌}
use suno_studio.Prelude.{
  ℕ, String, Bool, true, false, not, ◌&&◌, Option, none, some, List, [], ◌∷◌, eqb, ◌==◌,
  if◌then◌else◌,
}
use suno_studio.Exec.{
  Exn, value_error, type_error, attribute_error, runtime_error, Result, ok, err, Exec, pure, gets,
  modify, require, ◌>>=◌, ◌>>◌,
}
use suno_studio.Models.Values.{ℤ, pos, Json, null, str, obj, Fields, end, get, put, present}
use suno_studio.Http.{lift}

-- subprocess.CompletedProcess
pub record Process : Type 0 where
  pub returncode : ℤ
  pub stdout : String
  pub stderr : String

pub data OsName : Type 0 where
  nt darwin linux : OsName

-- The machine: `system` stands for `os.name` and `os.uname`, `run` for `subprocess.run`; the other
-- members are `str.strip`, `in` on texts, `Path.home`, and `json.loads` and `dumps`, where `none` is a
-- JSONDecodeError.
pub record Host (S : Type 0) : Type 0 where
  pub system : OsName
  pub run : List String → Option String → S → Process × S
  pub strip : String → String
  pub within : String → String → Bool
  pub home : String
  pub loads : String → Option Json
  pub dumps : Fields → String

pub record Machine (S : Type 0) : Type 0 where
  pub store : S
  pub files : List (String × String)

-- OSKeychain
pub record Keychain : Type 0 where
  pub service : String
  pub account : String

abbrev is_zero : ℤ → Bool
is_zero (pos n) = eqb n 0
is_zero _ = false

abbrev succeeded : Process → Bool
succeeded proc = is_zero proc.returncode

-- `s or None`
abbrev or_none : String → Option String
or_none s = if s == "" then none else some s

abbrev or_message : String → String → String
or_message s d = if s == "" then d else s

-- The text that was written last to the path.
unfoldable pub find_text : String → List (String × String) → Option String
find_text path [] = none
find_text path ((p, t) ∷ files) =
    let rest = find_text path files in if p == path then some t else rest

module _ {S : Type 0} (host : Host S) (keychain : Keychain) where
  open host use {system, run, strip, within, home, loads, dumps}
  open keychain use {service, account}

  abbrev ran : Machine S → Process × S → Result Process × Machine S
  ran m (proc, s) = (ok proc, record m { store = s })

  unfoldable pub run_command : List String → Option String → Exec (Machine S) Process
  run_command args input m = ran m (run args input m.store)

  abbrev mac_find : List String
  mac_find = "security" ∷ "find-generic-password" ∷ "-s" ∷ service ∷ "-a" ∷ account ∷ "-w" ∷ []

  abbrev mac_add : String → List String
  mac_add value =
      "security" ∷ "add-generic-password" ∷ "-U" ∷ "-s" ∷ service ∷ "-a" ∷ account ∷ "-w" ∷ value
      ∷ []

  abbrev pub target : String
  target = service ++ ":" ++ account

  abbrev linux_lookup : List String
  linux_lookup = "secret-tool" ∷ "lookup" ∷ "service" ∷ service ∷ "account" ∷ account ∷ []

  abbrev linux_store : List String
  linux_store =
      "secret-tool" ∷ "store" ∷ "--label" ∷ target ∷ "service" ∷ service ∷ "account" ∷ account ∷ []

  abbrev win_list : List String
  win_list = "cmdkey" ∷ "/list" ∷ []

  abbrev win_add : List String
  win_add = "cmdkey" ∷ ("/generic:" ++ target) ∷ "/user:suno" ∷ "/pass:managed" ∷ []

  abbrev pub printed : Process → Option String
  printed proc = if succeeded proc then or_none (strip proc.stdout) else none

  -- _mac_get and _linux_get
  abbrev get_printed : List String → Exec (Machine S) (Option String)
  get_printed args = do proc ← run_command args none; pure (printed proc)

  abbrev or_fail : String → Process → Exec (Machine S) (Unit {0})
  or_fail message proc =
      require (succeeded proc) (runtime_error (or_message (strip proc.stderr) message))

  -- _mac_set and _linux_set
  abbrev set_by : List String → Option String → Exec (Machine S) (Unit {0})
  set_by args input = do proc ← run_command args input; or_fail "failed to store credential" proc

  abbrev blob_path : String
  blob_path = home ++ "/.suno_studio/windows_cred_fallback.json"

  -- `data.get(target)`; the values are taken to be texts, as `_win_set` writes them.
  abbrev stored_text : Option Json → Result (Option String)
  stored_text none = ok none
  stored_text (some null) = ok none
  stored_text (some (str v)) = ok (some v)
  stored_text (some _) = err attribute_error

  abbrev entry_of : Option Json → Result (Option String)
  entry_of none = err value_error
  entry_of (some (obj d)) = stored_text (get d target)
  entry_of (some _) = err attribute_error

  abbrev entry_in : Option String → Result (Option String)
  entry_in none = ok none
  entry_in (some text) = entry_of (loads text)

  abbrev read_blob : Exec (Machine S) (Option String)
  read_blob m = (entry_in (find_text blob_path m.files), m)

  abbrev win_get : Exec (Machine S) (Option String)
  win_get = do
    proc ← run_command win_list none
    if succeeded proc && within target proc.stdout then read_blob else pure none

  abbrev data_of : Option Json → Result Fields
  data_of none = err value_error
  data_of (some (obj d)) = ok d
  data_of (some _) = err type_error

  abbrev data_in : Option String → Result Fields
  data_in none = ok end
  data_in (some text) = data_of (loads text)

  abbrev write_blob : Fields → Exec (Machine S) (Unit {0})
  write_blob d = modify λ m. record m { files = (blob_path, dumps d) ∷ m.files }

  abbrev read_data : Exec (Machine S) Fields
  read_data m = (data_in (find_text blob_path m.files), m)

  abbrev win_set : String → Exec (Machine S) (Unit {0})
  win_set value = do
    proc ← run_command win_add none
    or_fail "failed to register Windows credential" proc
    d ← read_data
    write_blob (put d target (str value))

  abbrev get_on : OsName → Exec (Machine S) (Option String)
  get_on nt = win_get
  get_on darwin = get_printed mac_find
  get_on linux = get_printed linux_lookup

  abbrev set_on : OsName → String → Exec (Machine S) (Unit {0})
  set_on nt value = win_set value
  set_on darwin value = set_by (mac_add value) none
  set_on linux value = set_by linux_store (some value)

  unfoldable pub keychain_get : Exec (Machine S) (Option String)
  keychain_get = get_on system

  pub keychain_set : String → Exec (Machine S) (Unit {0})
  keychain_set value = set_on system value

  module _ (b64encode : List ℕ → String) (b64decode : String → Option (List ℕ)) where
    abbrev decoded : Option (List ℕ) → Result (List ℕ)
    decoded none = err value_error
    decoded (some raw) = ok raw

    abbrev pub create : List ℕ → Exec (Machine S) (List ℕ)
    create raw = do keychain_set (b64encode raw); pure raw

    abbrev load_or : List ℕ → Option String → Exec (Machine S) (List ℕ)
    load_or raw none = create raw
    load_or raw (some existing) =
        if existing == "" then create raw else lift (decoded (b64decode existing))

    -- SharedSecretManager.get_or_create; `raw` are the new random bytes.
    unfoldable pub get_or_create : List ℕ → Exec (Machine S) (List ℕ)
    get_or_create raw = do existing ← keychain_get; load_or raw existing
