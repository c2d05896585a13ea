-- ===== src/Security/Replay.antt =====
-- bridge_security.py: a sequence of requests at one RequestSigner and its NonceCache.
use suno_studio.Prelude.{
  ℕ, ◌+◌, ◌*◌, ◌≤◌, ◌<◌, String, ◌≡◌, ◌≢◌, none, List, [], ◌∷◌, arith, ap, sym, ◌∙◌, ◌⊎◌, All, inl,
  inr,
}
use suno_studio.Exec.{replay_detected, Result, ok, err, ◌>>=◌}
use suno_studio.Models.Values.{ℤ, pos, negsuc}
use suno_studio.Security.Nonces.{
  NonceCache, add, add_at, IsSeen, add_at-IsSeen, add_at-replay, add_at-taken,
}
use suno_studio.Security.Signer.{Crypto, SignedHeaders, distance, compare_digest, verify_at, verify}

-- A request as the bridge gets it: its headers and body, and the time of its arrival.
pub record Arrival : Type 0 where
  pub headers : SignedHeaders
  pub body : List ℕ
  pub at : ℕ

module _ (crypto : Crypto) (shared_secret : List ℕ) (skew : ℕ) where
  -- The middleware calls `verify` with the clock alone.
  unfoldable pub receive : Arrival → NonceCache → Result (Unit {0}) × NonceCache
  receive a = verify crypto shared_secret skew a.headers a.body none a.at

  unfoldable pub receive_all : List Arrival → NonceCache → NonceCache
  receive_all [] c = c
  receive_all (a ∷ as_) c = receive_all as_ (receive a c).1

  -- What `verify` has done when it accepts.
  accepted :
      (a : Arrival) (c : NonceCache)
      → 0 < a.at
      → (receive a c).0 ≡ ok tt
      → (distance a.at a.headers.timestamp ≤ skew) × (receive a c ≡ add_at a.headers.nonce a.at c)
  unfolding receive verify verify_at compare_digest add ◌>>=◌
  accepted a c h e = ground arith

  -- Whether it accepts or not, `verify` changes the cache at most by an addition.
  receive-cases :
      (a : Arrival) (c : NonceCache)
      → ((receive a c).1 ≡ c) ⊎ ((receive a c).1 ≡ (add_at a.headers.nonce a.at c).1)
  unfolding receive verify verify_at compare_digest add ◌>>=◌
  receive-cases a c = ground arith

  receive-IsSeen :
      (n : String) (t : ℕ) (a : Arrival) (c : NonceCache)
      → a.at ≤ t
      → IsSeen n t c
      → IsSeen n t (receive a c).1
  receive-IsSeen n t a c h v = elim (receive-cases a c) [
    | inl e ↦ rw e v
    | inr e ↦ rw e (add_at-IsSeen n a.headers.nonce t a.at c h v)
  ]

  receive_all-IsSeen :
      (n : String) (t : ℕ) (as_ : List Arrival) (c : NonceCache)
      → All (λ a. a.at ≤ t) as_
      → IsSeen n t c
      → IsSeen n t (receive_all as_ c)
  unfolding receive_all
  receive_all-IsSeen n t [] c h v = v
  receive_all-IsSeen n t (a ∷ as_) c h v =
      receive_all-IsSeen n t as_ (receive a c).1 h.1 (receive-IsSeen n t a c h.0 v)

  -- Two times that are near the same timestamp are near one another.
  near : (s t : ℕ) (z : ℤ) → distance s z ≤ skew → distance t z ≤ skew → t ≤ s + 2 * skew
  near s t (pos n) h k = ground arith
  near s t (negsuc n) h k = ground arith

  module _ (a b : Arrival) (between : List Arrival) (c : NonceCache) (positive : 0 < a.at)
      (later : a.at ≤ b.at) (in_order : All (λ x. x.at ≤ b.at) between)
      (lifetime : 2 * skew ≤ c.ttl_seconds) (same_nonce : b.headers.nonce ≡ a.headers.nonce)
      (same_time : b.headers.timestamp ≡ a.headers.timestamp) where
    -- Suppose that nonces live twice as long as the allowed skew, at least, and that the clock is
    -- positive and does not run back. Once a request has been accepted, a request with its nonce
    -- and its timestamp, however its body and signature read, is never accepted again, whatever
    -- requests come in between.
    pub replay_refused :
        (receive a c).0 ≡ ok tt → (receive b (receive_all between (receive a c).1)).0 ≢ ok tt
    replay_refused first second =
        let c' : NonceCache = receive_all between (receive a c).1 in
        let (near_a, taken) = accepted a c positive first in
        let (near_b, again) = accepted b c' (omega arith) second in
        let soon : b.at ≤ a.at + 2 * skew =
          near a.at b.at a.headers.timestamp near_a (rw same_time at near_b) in
        let n : String = a.headers.nonce in
        let (e, p, q) =
          add_at-taken n a.at c
            (ap (λ (r : Result (Unit {0}) × NonceCache). r.0) (sym taken) ∙ first) in
        let start : IsSeen n b.at (receive a c).1 = (e, rw taken p, omega (arith, q, soon)) in
        let seen : IsSeen n b.at c' =
          receive_all-IsSeen n b.at between (receive a c).1 in_order start in
        let refused : (add_at b.headers.nonce b.at c').0 ≡ err replay_detected =
          rw same_nonce (add_at-replay n b.at b.at c' (omega arith) seen) in
        cc (ap (λ (r : Result (Unit {0}) × NonceCache). r.0) again, refused)
