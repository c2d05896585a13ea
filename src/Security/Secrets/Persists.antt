-- ===== src/Security/Secrets/Persists.antt =====
-- bridge_security.py: SharedSecretManager, from one start of the bridge to the next.
use suno_studio.Prelude.{
  ℕ, String, ◌≡◌, refl, sym, ap, ◌∙◌, Bool, true, false, ◌&&◌, Option, none, some, List, ◌∷◌,
  eq_refl, inl, inr, Bool-cases, ◌==◌, if◌then◌else◌, subst, arith,
}
use suno_studio.Exec.{Result, ok, err, pure, proceed, require, modify, ◌>>=◌}
use suno_studio.Models.Values.{Json, str, obj, Fields, end, field, get, put}
use suno_studio.Security.Secrets.{
  Process, OsName, nt, darwin, linux, Host, Machine, Keychain, succeeded, find_text, run_command,
  mac_find, mac_add, target, linux_lookup, linux_store, win_list, win_add, printed, or_fail,
  win_get, get_on, set_on, keychain_get, keychain_set, load_or, get_or_create, decoded, read_blob,
  write_blob, data_in, blob_path, entry_in, entry_of, stored_text,
}

pub get-put : (d : Fields) (k : String) (v : Json) → get (put d k v) k ≡ some v
get-put end k v = rw eq_refl
get-put (field j w d) k v = ground (arith, get-put d k v)

module _ {S : Type 0} (host : Host S) (keychain : Keychain) where
  open host use {system, run, strip, within, home, loads, dumps}

  -- What the commands of the three systems do for a value: a command that reads leaves the store as
  -- it is, and after a command that writes has succeeded, the one that reads succeeds with the value.
  pub record Keeps (value : String) : Type 0 where
    pub reads :
        (s : S)
        → ((run (mac_find host keychain) none s).1 ≡ s)
          × ((run (linux_lookup host keychain) none s).1 ≡ s)
          × ((run (win_list host keychain) none s).1 ≡ s)
    pub mac :
        (s : S)
        → succeeded (run (mac_add host keychain value) none s).0 ≡ true
        → printed host keychain
            (run (mac_find host keychain) none (run (mac_add host keychain value) none s).1).0
          ≡ some value
    pub secret_tool :
        (s : S)
        → succeeded (run (linux_store host keychain) (some value) s).0 ≡ true
        → printed host keychain
            (run
              (linux_lookup host keychain)
              none
              (run (linux_store host keychain) (some value) s).1).0
          ≡ some value
    pub cmdkey :
        (s : S)
        → succeeded (run (win_add host keychain) none s).0 ≡ true
        → (succeeded (run (win_list host keychain) none (run (win_add host keychain) none s).1).0
            && within
                (target host keychain)
                (run (win_list host keychain) none (run (win_add host keychain) none s).1).0.stdout)
          ≡ true
    -- JSON keeps the entry.
    pub json :
        (d : Fields)
        → (e : Fields) × (loads (dumps (put d (target host keychain) (str value))) ≡ some (obj e))
          × (get e (target host keychain)
              ≡ get (put d (target host keychain) (str value)) (target host keychain))

  module _ (value : String) (laws : Keeps value) where
    after_list :
        (m : Machine S) (b : Bool)
        → ((if b then read_blob host keychain else pure none)
            (record m { store = (run (win_list host keychain) none m.store).1 })).1
          ≡ m
    unfolding pure
    after_list m true = let (_, _, e) = laws.reads m.store in ap (λ s. record m { store = s }) e
    after_list m false = let (_, _, e) = laws.reads m.store in ap (λ s. record m { store = s }) e

    get_on-same : (name : OsName) (m : Machine S) → (get_on host keychain name m).1 ≡ m
    unfolding ◌>>=◌ run_command pure
    get_on-same nt m = after_list m _
    get_on-same darwin m = let (e, _, _) = laws.reads m.store in ap (λ s. record m { store = s }) e
    get_on-same linux m = let (_, e, _) = laws.reads m.store in ap (λ s. record m { store = s }) e

    abbrev Gets : OsName → Result (Unit {0}) × Machine S → Type 0
    Gets name (r, m) = (get_on host keychain name m).0 ≡ ok (some value)

    -- A command that writes a value, and then the one that reads it.
    set_by-kept :
        (name : OsName) (proc : Process) (m m' : Machine S)
        → (succeeded proc ≡ true → (get_on host keychain name m).0 ≡ ok (some value))
        → or_fail host keychain "failed to store credential" proc m ≡ (ok tt, m')
        → (get_on host keychain name m').0 ≡ ok (some value)
    unfolding require
    set_by-kept name proc m m' k h = elim (Bool-cases (succeeded proc)) [
      | inl y ↦ subst (Gets name) (rw y at h) (k y)
      | inr n ↦ absurd (cc (rw n at h))
    ]

    -- The file, after the dict that was in it has got the value.
    file_kept :
        (d : Fields) (files : List (String × String))
        → entry_in host keychain (
            find_text
              (blob_path host keychain)
              ((blob_path host keychain, dumps (put d (target host keychain) (str value))) ∷ files))
          ≡ ok (some value)
    unfolding find_text
    file_kept d files =
        let (e, read, kept) = laws.json d in
        rw eq_refl (
          ap (entry_of host keychain) read
          ∙ ap (stored_text host keychain) (kept ∙ get-put d (target host keychain) (str value)))

    written :
        (m m' : Machine S) (r : Result Fields)
        → succeeded (run (win_add host keychain) none m.store).0 ≡ true
        → proceed
            (r, record m { store = (run (win_add host keychain) none m.store).1 })
            (λ d. write_blob host keychain (put d (target host keychain) (str value)))
          ≡ (ok tt, m')
        → (win_get host keychain m').0 ≡ ok (some value)
    unfolding ◌>>=◌ run_command modify
    written m m' (ok d) y h = subst (Gets nt) h (rw (laws.cmdkey m.store y) (file_kept d m.files))
    written m m' (err e) y h = absurd (cc h)

    set_on-kept :
        (name : OsName) (m m' : Machine S)
        → set_on host keychain name value m ≡ (ok tt, m')
        → (get_on host keychain name m').0 ≡ ok (some value)
    unfolding ◌>>=◌ run_command pure
    set_on-kept nt m m' h =
        elim (Bool-cases (succeeded (run (win_add host keychain) none m.store).0)) [
          | inl y ↦
              written m m' (data_in host keychain (find_text (blob_path host keychain) m.files)) y
                (rw y at h)
          | inr n ↦ absurd (cc (rw n at h))
        ]
    set_on-kept darwin m m' h =
        set_by-kept darwin (run (mac_add host keychain value) none m.store).0
          (record m { store = (run (mac_add host keychain value) none m.store).1 }) m'
          (λ y. ap ok (laws.mac m.store y)) h
    set_on-kept linux m m' h =
        set_by-kept linux (run (linux_store host keychain) (some value) m.store).0
          (record m { store = (run (linux_store host keychain) (some value) m.store).1 }) m'
          (λ y. ap ok (laws.secret_tool m.store y)) h

  module _ (b64encode : List ℕ → String) (b64decode : String → Option (List ℕ)) (raw later : List ℕ)
      (laws : Keeps (b64encode raw)) (decodes : b64decode (b64encode raw) ≡ some raw)
      (not_empty : (b64encode raw == "") ≡ false) where
    abbrev secret_of : String → Result (List ℕ)
    secret_of t = decoded host keychain b64encode b64decode (b64decode t)

    loaded :
        (secret : List ℕ) (t : String) (r : Result (Option String) × Machine S)
        → (t == "") ≡ false
        → secret_of t ≡ ok secret
        → r.0 ≡ ok (some t)
        → (proceed r (load_or host keychain b64encode b64decode later)).0 ≡ ok secret
    loaded secret t (r, m) n e h =
        ap (λ x. (proceed (x, m) (load_or host keychain b64encode b64decode later)).0) h ∙ rw n e

    -- What a later call gives after a call that gave `r` and left the machine.
    Later : Result (List ℕ) × Machine S → Type 0
    Later (ok secret, m) = (get_or_create host keychain b64encode b64decode later m).0 ≡ ok secret
    Later (err e, m) = Unit

    created :
        (m : Machine S) (r : Result (Unit {0}) × Machine S)
        → keychain_set host keychain (b64encode raw) m ≡ r
        → Later (proceed r (λ u. pure raw))
    unfolding Later pure keychain_set keychain_get get_or_create ◌>>=◌
    created m (ok u, m') e =
        loaded raw (b64encode raw) (keychain_get host keychain m') not_empty
          (ap (decoded host keychain b64encode b64decode) decodes)
          (set_on-kept (b64encode raw) laws system m m' e)
    created m (err x, m') e = tt

    later_load :
        (m : Machine S) (t : String)
        → (keychain_get host keychain m).0 ≡ ok (some t)
        → (t == "") ≡ false
        → (x : Result (List ℕ)) → secret_of t ≡ x
        → Later (x, m)
    unfolding Later get_or_create ◌>>=◌
    later_load m t h n (ok secret) e = loaded secret t (keychain_get host keychain m) n e h
    later_load m t h n (err x) e = tt

    got :
        (m : Machine S) (o : Result (Option String))
        → (keychain_get host keychain m).0 ≡ o
        → Later (proceed (o, m) (load_or host keychain b64encode b64decode raw))
    unfolding Later ◌>>=◌
    got m (ok none) h = created m (keychain_set host keychain (b64encode raw) m) refl
    got m (ok (some t)) h = elim (Bool-cases (t == "")) [
      | inl y ↦ rw y (created m (keychain_set host keychain (b64encode raw) m) refl)
      | inr n ↦ rw n (later_load m t h n (secret_of t) refl)
    ]
    got m (err e) h = tt

    same_machine : (m : Machine S) → (keychain_get host keychain m).1 ≡ m
    unfolding keychain_get
    same_machine m = get_on-same (b64encode raw) laws system m

    get_or_create-Later :
        (m : Machine S) → Later (get_or_create host keychain b64encode b64decode raw m)
    unfolding get_or_create ◌>>=◌
    get_or_create-Later m =
        subst
          (λ m'. Later (
            proceed ((keychain_get host keychain m).0, m')
              (load_or host keychain b64encode b64decode raw)))
          (sym (same_machine m)) (got m (keychain_get host keychain m).0 refl)

    -- Suppose that the commands keep the encoded secret as their manuals say, that JSON keeps the
    -- entry, that base64 decodes what it has encoded, and that the encoding of the new random bytes is not empty. If
    -- `get_or_create` returns a secret, whether it found it or made it, the next call returns the same
    -- secret, whatever random bytes it is given, on all three systems.
    pub get_or_create-persists :
        (secret : List ℕ) (m m' : Machine S)
        → get_or_create host keychain b64encode b64decode raw m ≡ (ok secret, m')
        → (get_or_create host keychain b64encode b64decode later m').0 ≡ ok secret
    unfolding Later
    get_or_create-persists secret m m' h = subst Later h (get_or_create-Later m)
