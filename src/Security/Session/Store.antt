-- ===== src/Security/Session/Store.antt =====
-- bridge_security.py: EncryptedSessionStore, with the files below its root, the last one first.
use Prim.Native.String.{◌++◌}
use suno_studio.Prelude.{
  ℕ, String, ◌≡◌, false, Option, none, some, List, [], ◌∷◌, length, ◌==◌, if◌then◌else◌, eq_refl,
  ap,
}
use suno_studio.Exec.{file_not_found, Result, ok, err}
use suno_studio.Security.Session.{Hashes, encrypt, decrypt}
use suno_studio.Security.Session.RoundTrip.{decrypt-encrypt}

abbrev pub Files : Type 0
Files = List (String × List ℕ)

find_file : String → Files → Option (List ℕ)
find_file path [] = none
find_file path ((p, content) ∷ files) =
    let rest = find_file path files in if p == path then some content else rest

module _ (hashes : Hashes) (shared_secret : List ℕ) (root : String) where
  -- self.root / f"{name}.bin"
  abbrev pub target : String → String
  target name = root ++ "/" ++ name ++ ".bin"

  abbrev stored : String → Files → Option (List ℕ) → Option Files
  stored name files none = none
  stored name files (some encrypted) = some ((target name, encrypted) ∷ files)

  -- The outer `none` is that the fuel of the keystream ran out, as in `encrypt`; `nonce` is its nonce.
  pub write : List ℕ → String → List ℕ → Files → Option Files
  write nonce name payload files = stored name files (encrypt hashes shared_secret nonce payload)

  abbrev decrypted : Option (List ℕ) → Option (Result (List ℕ))
  decrypted none = some (err file_not_found)
  decrypted (some blob) = decrypt hashes shared_secret blob

  pub read : String → Files → Option (Result (List ℕ))
  read name files = decrypted (find_file (target name) files)

  -- With a nonce of 16 bytes, `write` ends and `read` then returns what was written under the name,
  -- also where there was a session of that name before, and a session of another file is read as
  -- before.
  pub read-write :
      (nonce : List ℕ) (name : String) (payload : List ℕ) (files : Files)
      → length nonce ≡ 16
      → (files' : Files) × (write nonce name payload files ≡ some files')
        × (read name files' ≡ some (ok payload))
        × ((other : String)
            → (target name == target other) ≡ false
            → read other files' ≡ read other files)
  unfolding write read find_file
  read-write nonce name payload files h =
      let (blob, made, back) = decrypt-encrypt hashes shared_secret nonce payload h in
      ((target name, blob) ∷ files, ap (stored name files) made, rw eq_refl back, λ other n. rw n)
