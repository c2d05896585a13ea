-- ===== src/Security/Session/RoundTrip.antt =====
-- bridge_security.py: SessionCrypto, `_keystream`, `encrypt` and `decrypt` taken together.
use mathlib.Core.List.{append_assoc}
use suno_studio.Prelude.{
  ℕ, zero, suc, ◌+◌, ◌≤◌, ◌≡◌, refl, ap, true, false, Option, some, List, [], ◌∷◌, ◌++◌, length,
  take, drop, take-append, drop-append, length-take, length-append, ltb, arith, inl, inr,
  Bool-cases, min,
}
use suno_studio.Exec.{value_error, Result, ok, err}
use suno_studio.Security.Xor.{bit_xor_twice}
use suno_studio.Security.Session.{
  Hashes, to_bytes, xor_bytes, same_bytes, keystream_loop, keystream, encrypt, decrypt,
}

xor_bytes_twice : (xs ks : List ℕ) → length xs ≤ length ks → xor_bytes (xor_bytes xs ks) ks ≡ xs
unfolding xor_bytes
xor_bytes_twice [] [] h = refl
xor_bytes_twice [] (k ∷ ks) h = refl
xor_bytes_twice (x ∷ xs) [] h = absurd (omega arith)
xor_bytes_twice (x ∷ xs) (k ∷ ks) h = cc (bit_xor_twice x k, xor_bytes_twice xs ks (omega arith))

length-xor_bytes : (xs ks : List ℕ) → length (xor_bytes xs ks) ≡ min (length xs) (length ks)
unfolding xor_bytes
length-xor_bytes [] [] = refl
length-xor_bytes [] (k ∷ ks) = omega arith
length-xor_bytes (x ∷ xs) [] = omega arith
length-xor_bytes (x ∷ xs) (k ∷ ks) = omega (arith, length-xor_bytes xs ks)

same_bytes_refl : (xs : List ℕ) → same_bytes xs xs ≡ true
unfolding same_bytes
same_bytes_refl [] = refl
same_bytes_refl (x ∷ xs) = ground (arith, same_bytes_refl xs)

same_bytes_eq : (xs ys : List ℕ) → same_bytes xs ys ≡ true → xs ≡ ys
unfolding same_bytes
same_bytes_eq [] [] h = refl
same_bytes_eq [] (y ∷ ys) h = cc
same_bytes_eq (x ∷ xs) [] h = cc
same_bytes_eq (x ∷ xs) (y ∷ ys) h = ground (arith, same_bytes_eq xs ys)

-- The three parts of a blob.
module _ (n m c : List ℕ) (hn : length n ≡ 16) (hm : length m ≡ 32) where
  take_nonce : take 16 (n ++ m ++ c) ≡ n
  take_nonce = rw append_assoc (take-append 16 n (m ++ c) hn)

  take_mac : take 32 (drop 16 (n ++ m ++ c)) ≡ m
  take_mac = rw (append_assoc, drop-append 16 n (m ++ c) hn) (take-append 32 m c hm)

  drop_head : drop 48 (n ++ m ++ c) ≡ c
  drop_head = drop-append 48 (n ++ m) c (omega (arith, length-append {0} n m))

  long_enough : ltb (length (n ++ m ++ c)) 48 ≡ false
  long_enough = ground (arith, length-append (n ++ m) c, length-append n m)

module _ (hashes : Hashes) (shared_secret : List ℕ) where
  open hashes use {sha256, hmac_sha256, pbkdf2, length-sha256, length-hmac}

  keystream_loop_ends :
      (fuel : ℕ) (nonce : List ℕ) (len counter : ℕ) (blocks : List ℕ)
      → len ≤ fuel + length blocks
      → (out : List ℕ) × (keystream_loop hashes shared_secret fuel nonce len counter blocks
          ≡ some out)
        × (len ≤ length out)
  unfolding keystream_loop
  keystream_loop_ends zero nonce len counter blocks h =
      elim (Bool-cases (ltb (length blocks) len)) [
        | inl y ↦ absurd (ground arith)
        | inr n ↦ (blocks, rw n, ground arith)
      ]
  keystream_loop_ends (suc fuel) nonce len counter blocks h =
      elim (Bool-cases (ltb (length blocks) len)) [
        | inr n ↦ (blocks, rw n, ground arith)
        | inl y ↦
            let block : List ℕ =
              sha256 (pbkdf2 shared_secret "session-enc" ++ nonce ++ to_bytes 8 counter) in
            rw y (
              keystream_loop_ends fuel nonce len (counter + 1) (blocks ++ block)
                (omega (arith, length-append {0} blocks block, length-sha256 _)))
      ]

  -- The loop of the key stream ends, and the stream has exactly as many bytes as were asked for.
  pub keystream_total :
      (nonce : List ℕ) (len : ℕ)
      → (out : List ℕ) × (keystream hashes shared_secret nonce len ≡ some out) × (length out ≡ len)
  unfolding keystream
  keystream_total nonce len =
      let (out, e, h) = keystream_loop_ends len nonce len 0 [] (omega arith) in
      (take len out, rw e, omega (arith, length-take len out))

  -- For a 16-byte nonce and any plaintext: `encrypt` returns a blob, and `decrypt` returns the
  -- plaintext of it.
  pub decrypt-encrypt :
      (nonce plaintext : List ℕ)
      → length nonce ≡ 16
      → (blob : List ℕ) × (encrypt hashes shared_secret nonce plaintext ≡ some blob)
        × (decrypt hashes shared_secret blob ≡ some (ok plaintext))
  unfolding encrypt decrypt
  decrypt-encrypt nonce plaintext h =
      let (ks, e, l) = keystream_total nonce (length plaintext) in
      let ct : List ℕ = xor_bytes plaintext ks in
      let key : List ℕ = pbkdf2 shared_secret "session-mac" in
      let mac : List ℕ = hmac_sha256 key (nonce ++ ct) in
      let hm : length mac ≡ 32 = length-hmac key (nonce ++ ct) in
      let same_length : length ct ≡ length plaintext =
        omega (arith, l, length-xor_bytes plaintext ks) in
      (
        nonce ++ mac ++ ct,
        rw e,
        rw
            (
              long_enough nonce mac ct h hm,
              take_nonce nonce mac ct h hm,
              take_mac nonce mac ct h hm,
              drop_head nonce mac ct h hm,
              same_bytes_refl mac,
              same_length,
              e,
            )
            (ap (λ p. some (ok p)) (xor_bytes_twice plaintext ks (omega (arith, l)))),
      )

  module _ (blob : List ℕ) where
    -- The code that a blob would carry if it came from `encrypt`.
    abbrev code : List ℕ
    code = hmac_sha256 (pbkdf2 shared_secret "session-mac") (take 16 blob ++ drop 48 blob)

    -- A blob that `decrypt` accepts has 48 bytes at least, and carries the authentication code of
    -- its nonce and ciphertext.
    pub decrypt-authentic :
        {p : List ℕ}
        → decrypt hashes shared_secret blob ≡ some (ok p)
        → (48 ≤ length blob) × (take 32 (drop 16 blob) ≡ code)
    unfolding decrypt
    decrypt-authentic {p} h = elim (Bool-cases (ltb (length blob) 48)) [
      | inl y ↦
          let no_way : ◌≡◌ {A = Option (Result (List ℕ))} (some (err value_error)) (some (ok p)) =
            rw y at h in
          cc
      | inr n ↦ elim (Bool-cases (same_bytes (take 32 (drop 16 blob)) code)) [
        | inl z ↦ (ground arith, same_bytes_eq _ _ z)
        | inr z ↦
            let no_way : ◌≡◌ {A = Option (Result (List ℕ))} (some (err value_error)) (some (ok p)) =
              rw (n, z) at h in
            cc
      ]
    ]
