-- ===== src/Security/Session.antt =====
-- bridge_security.py: SessionCrypto. Bytes are numbers, and the hashes of Python's library are a
-- parameter.
pub mod RoundTrip
pub mod Store
use Prim.Native.Nat.{bit_xor}
use suno_studio.Prelude.{
  ℕ, zero, suc, ◌+◌, ◌/◌, ◌%◌, String, ◌≡◌, Bool, true, false, ◌&&◌, Option, none, some, List, [],
  ◌∷◌, ◌++◌, length, take, drop, ltb, eqb, ◌==◌, if◌then◌else◌,
}
use suno_studio.Exec.{Exn, value_error, file_not_found, Result, ok, err}

-- hashlib and hmac: a SHA-256 digest has 32 bytes.
pub record Hashes : Type 0 where
  pub sha256 : List ℕ → List ℕ
  pub hmac_sha256 : List ℕ → List ℕ → List ℕ
  pub pbkdf2 : List ℕ → String → List ℕ
  pub length-sha256 : (m : List ℕ) → length (sha256 m) ≡ 32
  pub length-hmac : (k m : List ℕ) → length (hmac_sha256 k m) ≡ 32

-- n.to_bytes(w, "big")
unfoldable pub to_bytes : ℕ → ℕ → List ℕ
to_bytes zero n = []
to_bytes (suc w) n = to_bytes w (n / 256) ++ (n % 256) ∷ []

-- bytes(a ^ b for a, b in zip(xs, ys))
unfoldable pub xor_bytes : List ℕ → List ℕ → List ℕ
xor_bytes (a ∷ xs) (b ∷ ys) = bit_xor a b ∷ xor_bytes xs ys
xor_bytes _ _ = []

-- hmac.compare_digest on bytes
unfoldable pub same_bytes : List ℕ → List ℕ → Bool
same_bytes [] [] = true
same_bytes (a ∷ xs) (b ∷ ys) = eqb a b && same_bytes xs ys
same_bytes _ _ = false

module _ (hashes : Hashes) (shared_secret : List ℕ) where
  open hashes use {sha256, hmac_sha256, pbkdf2}

  abbrev enc_key : List ℕ
  enc_key = pbkdf2 shared_secret "session-enc"

  abbrev mac_key : List ℕ
  mac_key = pbkdf2 shared_secret "session-mac"

  -- The loop of `_keystream`: `blocks` is what has been joined so far. A round takes one unit of
  -- fuel; `none` means that the fuel ran out.
  unfoldable pub keystream_loop : ℕ → List ℕ → ℕ → ℕ → List ℕ → Option (List ℕ)
  keystream_loop zero nonce len counter blocks =
      if ltb (length blocks) len then none else some blocks
  keystream_loop (suc fuel) nonce len counter blocks =
      let rest =
        keystream_loop fuel nonce len (counter + 1)
          (blocks ++ sha256 (enc_key ++ nonce ++ to_bytes 8 counter)) in
      if ltb (length blocks) len then rest else some blocks

  abbrev cut : ℕ → Option (List ℕ) → Option (List ℕ)
  cut len none = none
  cut len (some blocks) = some (take len blocks)

  -- As many rounds as bytes are enough, since a block has 32 of them.
  unfoldable pub keystream : List ℕ → ℕ → Option (List ℕ)
  unfolding keystream_loop
  keystream nonce len = cut len (keystream_loop len nonce len 0 [])

  abbrev seal : List ℕ → List ℕ → Option (List ℕ) → Option (List ℕ)
  seal nonce plaintext none = none
  seal nonce plaintext (some stream) =
      let ciphertext = xor_bytes plaintext stream in
      some (nonce ++ hmac_sha256 mac_key (nonce ++ ciphertext) ++ ciphertext)

  -- `nonce` is what `secrets.token_bytes(16)` returned; `none` means that the fuel ran out.
  pub encrypt : List ℕ → List ℕ → Option (List ℕ)
  encrypt nonce plaintext = seal nonce plaintext (keystream nonce (length plaintext))

  abbrev unseal : List ℕ → Option (List ℕ) → Option (Result (List ℕ))
  unseal ciphertext none = none
  unseal ciphertext (some stream) = some (ok (xor_bytes ciphertext stream))

  unfoldable pub decrypt : List ℕ → Option (Result (List ℕ))
  decrypt blob =
      let nonce = take 16 blob in
      let mac = take 32 (drop 16 blob) in
      let ciphertext = drop 48 blob in
      let expected = hmac_sha256 mac_key (nonce ++ ciphertext) in
      if ltb (length blob) 48
      then some (err value_error)
      else if same_bytes mac expected
      then unseal ciphertext (keystream nonce (length ciphertext))
      else some (err value_error)
