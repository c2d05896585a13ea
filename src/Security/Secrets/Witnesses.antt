-- ===== src/Security/Secrets/Witnesses.antt =====
-- The theorem on the shared secret, at a machine with a Windows store.
use suno_studio.Prelude.{ℕ, String, ◌≡◌, refl, sym, Option, some, List, [], ◌∷◌, true}
use suno_studio.Exec.{ok, ◌>>=◌, pure, require, modify}
use suno_studio.Models.Values.{pos, str, obj, end, field}
use suno_studio.Security.Secrets.{
  nt, Host, Machine, Keychain, get_or_create, keychain_get, keychain_set, run_command, find_text,
}
use suno_studio.Security.Secrets.Persists.{Keeps, get-put, get_or_create-persists}

abbrev value : String
value = "AQI="

abbrev keychain : Keychain
keychain = record { service = "s"; account = "a" }

-- Every command succeeds and prints the one value.
abbrev host : Host (Unit {0})
host = record {
  system = nt;
  run = λ args input s. (record { returncode = pos 0; stdout = value; stderr = "" }, s);
  strip = λ s. s;
  within = λ t s. true;
  home = "h";
  loads = λ s. some (obj (field "s:a" (str value) end));
  dumps = λ d. "{}";
}

laws : Keeps host keychain value
laws = record {
  reads = λ s. (refl, refl, refl);
  mac = λ s h. refl;
  secret_tool = λ s h. refl;
  cmdkey = λ s h. refl;
  json = λ d. (field "s:a" (str value) end, refl, sym (get-put d "s:a" (str value)));
}

abbrev machine : Machine (Unit {0})
machine = record { store = tt; files = [] }

abbrev kept : Machine (Unit {0})
kept = record { store = tt; files = ("h/.suno_studio/windows_cred_fallback.json", "{}") ∷ [] }

abbrev encode : List ℕ → String
encode raw = value

abbrev decode : String → Option (List ℕ)
decode t = some (1 ∷ 2 ∷ [])

first_call :
    get_or_create host keychain encode decode (1 ∷ 2 ∷ []) machine ≡ (ok (1 ∷ 2 ∷ []), kept)
unfolding get_or_create keychain_get keychain_set run_command find_text ◌>>=◌ pure require modify
first_call = refl

get_or_create-persists_example :
    (get_or_create host keychain encode decode (3 ∷ []) kept).0 ≡ ok (1 ∷ 2 ∷ [])
get_or_create-persists_example =
    get_or_create-persists host keychain encode decode (1 ∷ 2 ∷ []) (3 ∷ []) laws refl refl
      (1 ∷ 2 ∷ []) machine kept first_call
