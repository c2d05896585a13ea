-- ===== src/Security/Witnesses.antt =====
-- The theorems on signatures and sessions, at concrete hashes that compute.
use suno_studio.Prelude.{
  none, ◌==◌, String, false, ℕ, ◌+◌, ◌≤◌, ◌≡◌, ◌≢◌, refl, some, List, [], ◌∷◌, ◌++◌, arith, length,
  take, drop,
}
use suno_studio.Exec.{ok, ◌>>=◌}
use suno_studio.Models.Values.{pos}
use suno_studio.Security.Session.{
  Hashes, keystream, keystream_loop, xor_bytes, same_bytes, encrypt, decrypt,
}
use suno_studio.Security.Session.RoundTrip.{keystream_total, decrypt-encrypt, decrypt-authentic}
use suno_studio.Security.Session.Store.{Files, target, write, read, read-write}
use suno_studio.Security.Nonces.{NonceCache, add, add_at, prune}
use suno_studio.Security.Signer.{
  Crypto, sign, verify, verify_at, signed_payload, compare_digest, is_ascii,
}
use suno_studio.Security.Accepts.{verify-sign}
use suno_studio.Security.Replay.{Arrival, receive, receive_all, replay_refused}

sum : List ℕ → ℕ
sum [] = 0
sum (x ∷ xs) = x + sum xs

-- A block of 32 bytes that begins with a checksum.
block : ℕ → List ℕ
block b =
    b ∷ 1 ∷ 2 ∷ 3 ∷ 4 ∷ 5 ∷ 6 ∷ 7 ∷ 8 ∷ 9 ∷ 10 ∷ 11 ∷ 12 ∷ 13 ∷ 14 ∷ 15 ∷ 16 ∷ 17 ∷ 18 ∷ 19 ∷ 20
    ∷ 21 ∷ 22 ∷ 23 ∷ 24 ∷ 25 ∷ 26 ∷ 27 ∷ 28 ∷ 29 ∷ 30 ∷ 31 ∷ []

abbrev hashes : Hashes
unfolding block
hashes = record {
  sha256 = λ m. block (sum m);
  hmac_sha256 = λ k m. block (sum k + sum m);
  pbkdf2 = λ k label. k;
  length-sha256 = λ m. refl;
  length-hmac = λ k m. refl;
}

abbrev secret : List ℕ
secret = 1 ∷ 2 ∷ []

abbrev nonce : List ℕ
nonce = 0 ∷ 1 ∷ 2 ∷ 3 ∷ 4 ∷ 5 ∷ 6 ∷ 7 ∷ 8 ∷ 9 ∷ 10 ∷ 11 ∷ 12 ∷ 13 ∷ 14 ∷ 15 ∷ []

keystream_total_example :
    (out : List ℕ) × (keystream hashes secret nonce 40 ≡ some out) × (length out ≡ 40)
keystream_total_example = keystream_total hashes secret nonce 40

decrypt-encrypt_example :
    (blob : List ℕ) × (encrypt hashes secret nonce (104 ∷ 105 ∷ []) ≡ some blob)
    × (decrypt hashes secret blob ≡ some (ok (104 ∷ 105 ∷ [])))
decrypt-encrypt_example = decrypt-encrypt hashes secret nonce (104 ∷ 105 ∷ []) refl

read-write_example :
    (files' : Files) × (write hashes secret "root" nonce "s1" (104 ∷ 105 ∷ []) [] ≡ some files')
    × (read hashes secret "root" "s1" files' ≡ some (ok (104 ∷ 105 ∷ [])))
    × ((other : String)
        → (target hashes secret "root" "s1" == target hashes secret "root" other) ≡ false
        → read hashes secret "root" other files' ≡ read hashes secret "root" other [])
read-write_example = read-write hashes secret "root" nonce "s1" (104 ∷ 105 ∷ []) [] refl

-- The blob of an empty text.
abbrev empty_blob : List ℕ
empty_blob = nonce ++ block (sum secret + sum nonce)

decrypt-authentic_example :
    (48 ≤ length empty_blob)
    × (take 32 (drop 16 empty_blob)
        ≡ block (sum secret + sum (take 16 empty_blob ++ drop 48 empty_blob)))
unfolding block hashes
decrypt-authentic_example =
    decrypt-authentic hashes secret empty_blob {p = []}
      (unfold decrypt keystream keystream_loop xor_bytes same_bytes block sum in refl)

abbrev crypto : Crypto
crypto = record { sha256_hex = λ body. "ab"; hmac_hex = λ k text. text; decimal = λ z. "100" }

abbrev first : Arrival
first = record { headers = sign crypto secret [] (pos 100) "n1"; body = []; at = 101 }

abbrev other : Arrival
other = record { headers = sign crypto secret [] (pos 100) "n2"; body = []; at = 102 }

abbrev again : Arrival
again = record { headers = sign crypto secret [] (pos 100) "n1"; body = []; at = 103 }

abbrev cache : NonceCache
cache = record { ttl_seconds = 600; seen = [] }

replay_refused_example :
    (receive crypto secret 300 again
      (receive_all crypto secret 300 (other ∷ []) (receive crypto secret 300 first cache).1)).0
    ≢ ok tt
unfolding suno_studio.Security.Nonces.expiry_of suno_studio.Security.Nonces.without_expired
replay_refused_example =
    replay_refused crypto secret 300 first again (other ∷ []) cache (omega arith) (omega arith)
      (omega arith, tt) (omega arith) (unfold sign in refl) (unfold sign in refl)
      (unfold receive verify verify_at sign signed_payload compare_digest is_ascii add add_at prune
          ◌>>=◌ in
        refl)

verify-sign_example :
    (verify crypto secret 300 (sign crypto secret [] (pos 100) "n1") [] none 101 cache).0 ≡ ok tt
verify-sign_example =
    verify-sign crypto secret 300 [] (pos 100) "n1" none 101 cache (unfold is_ascii in refl)
      (unfold is_ascii signed_payload in refl) (omega arith)
      (unfold suno_studio.Security.Nonces.expiry_of in refl)
