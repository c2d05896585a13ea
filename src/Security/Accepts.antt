-- ===== src/Security/Accepts.antt =====
-- bridge_security.py: RequestSigner, `verify` of what `sign` made.
use suno_studio.Prelude.{
  ℕ, ◌≤◌, String, ◌≡◌, refl, true, false, Option, none, some, List, [], ◌∷◌, arith, ltb, eq_refl,
}
use suno_studio.Exec.{ok, ◌>>=◌, require}
use suno_studio.Models.Values.{ℤ}
use suno_studio.Security.Nonces.{
  NonceCache, time_or, expiry_of, without_expired, add, add_at, prune,
}
use suno_studio.Security.Signer.{
  Crypto, distance, is_ascii, compare_digest, signed_payload, sign, verify, verify_at,
}

without_expired-unseen :
    (n : String) (now : ℕ) (m : List (String × ℕ))
    → expiry_of n m ≡ none
    → expiry_of n (without_expired now m) ≡ none
unfolding expiry_of without_expired
without_expired-unseen n now [] h = refl
without_expired-unseen n now ((k, e) ∷ m) h = ground (arith, without_expired-unseen n now m)

module _ (crypto : Crypto) (shared_secret : List ℕ) (skew : ℕ) where
  open crypto use {sha256_hex, hmac_hex}

  -- A request that was signed with the shared secret is accepted, if its timestamp is within the
  -- allowed skew of the time of its arrival, and its nonce is not in the cache. The hexadecimal
  -- digests are taken to be ASCII texts.
  pub verify-sign :
      (body : List ℕ) (timestamp : ℤ) (nonce : String) (now : Option ℕ) (clock : ℕ) (c : NonceCache)
      → is_ascii (sha256_hex body) ≡ true
      → is_ascii (
          hmac_hex shared_secret
            (signed_payload crypto shared_secret timestamp nonce (sha256_hex body)))
        ≡ true
      → distance (time_or now clock) timestamp ≤ skew
      → expiry_of nonce c.seen ≡ none
      → (verify crypto shared_secret skew
          (sign crypto shared_secret body timestamp nonce)
          body
          now
          clock
          c).0
        ≡ ok tt
  unfolding verify verify_at sign compare_digest add add_at prune require ◌>>=◌
  verify-sign body timestamp nonce now clock c a b near unseen =
      let soon : ltb skew (distance (time_or now clock) timestamp) ≡ false = ground arith in
      rw (
        soon,
        a,
        eq_refl,
        b,
        eq_refl,
        without_expired-unseen nonce (time_or (some (time_or now clock)) clock) c.seen unseen,
      )
