-- ===== src/Security/Nonces.antt =====
-- bridge_security.py: NonceCache. The dict from nonces to the times at which they expire, in seconds.
use suno_studio.Prelude.{
  ℕ, ◌+◌, ◌≤◌, String, ◌≡◌, Option, none, some, List, [], ◌∷◌, arith, eq_iff, eq_refl, inl, inr,
  Bool-cases, Option-cases, ltb, eqb, ◌==◌, if◌then◌else◌,
}
use suno_studio.Exec.{replay_detected, Result, ok, err, Exec, ◌>>=◌, ◌>>◌, modify}

pub record NonceCache : Type 0 where
  pub ttl_seconds : ℕ
  pub seen : List (String × ℕ)

-- `now or time.time()`: an argument that is missing or 0 is replaced by the clock.
abbrev pub time_or : Option ℕ → ℕ → ℕ
time_or none clock = clock
time_or (some now) clock = if eqb now 0 then clock else now

unfoldable pub expiry_of : String → List (String × ℕ) → Option ℕ
expiry_of n [] = none
expiry_of n ((k, e) ∷ m) = if k == n then some e else expiry_of n m

-- The entries whose expiry is before `now` are deleted.
unfoldable pub without_expired : ℕ → List (String × ℕ) → List (String × ℕ)
without_expired now [] = []
without_expired now ((k, e) ∷ m) =
    let rest = without_expired now m in if ltb e now then rest else (k, e) ∷ rest

unfoldable pub prune : ℕ → Exec NonceCache (Unit {0})
unfolding modify
prune now = modify λ c. record c { seen = without_expired now c.seen }

-- self._seen[nonce] = expiry, for a nonce that is not there
abbrev keep : String → ℕ → NonceCache → Option ℕ → Result (Unit {0}) × NonceCache
keep nonce now c (some e) = (err replay_detected, c)
keep nonce now c none = (ok tt, record c { seen = (nonce, now + c.ttl_seconds) ∷ c.seen })

unfoldable pub add_at : String → ℕ → Exec NonceCache (Unit {0})
unfolding ◌>>=◌ prune
add_at nonce now = do prune now; λ c. keep nonce now c (expiry_of nonce c.seen)

unfoldable pub add : String → Option ℕ → ℕ → Exec NonceCache (Unit {0})
unfolding add_at
add nonce now clock = add_at nonce (time_or now clock)

-- The nonce is in the cache until the time `t`, at least.
abbrev pub IsSeen : String → ℕ → NonceCache → Type 0
IsSeen n t c = (e : ℕ) × (expiry_of n c.seen ≡ some e) × (t ≤ e)

expiry_of-without_expired :
    (n : String) (t now e : ℕ) (m : List (String × ℕ))
    → now ≤ t
    → expiry_of n m ≡ some e
    → t ≤ e
    → expiry_of n (without_expired now m) ≡ some e
unfolding expiry_of without_expired
expiry_of-without_expired n t now e [] h p q = cc
expiry_of-without_expired n t now e ((k, x) ∷ m) h p q =
    ground (arith, expiry_of-without_expired n t now e m)

-- As long as the time has not passed `t`, an entry that lives until `t` survives every addition.
pub add_at-IsSeen :
    (n k : String) (t now : ℕ) (c : NonceCache)
    → now ≤ t
    → IsSeen n t c
    → IsSeen n t (add_at k now c).1
unfolding add_at expiry_of
add_at-IsSeen n k t now c h (e, p, q) =
    let kept : expiry_of n (without_expired now c.seen) ≡ some e =
      expiry_of-without_expired n t now e c.seen h p q in
    elim (Option-cases (expiry_of k (without_expired now c.seen))) [
      | inr (x, old) ↦ rw old (e, kept, q)
      | inl new ↦ elim (Bool-cases (k == n)) [
        | inr other ↦ rw new (e, rw other kept, q)
        | inl same ↦
            let same_k : expiry_of k (without_expired now c.seen) ≡ some e =
              rw ((eq_iff k n).0 same) kept in
            absurd (cc (new, same_k))
      ]
    ]

-- A nonce that is in the cache is refused.
pub add_at-replay :
    (n : String) (t now : ℕ) (c : NonceCache)
    → now ≤ t
    → IsSeen n t c
    → (add_at n now c).0 ≡ err replay_detected
unfolding add_at
add_at-replay n t now c h (e, p, q) = rw (expiry_of-without_expired n t now e c.seen h p q)

-- A nonce that was taken is in the cache until its time to live is over.
pub add_at-taken :
    (n : String) (now : ℕ) (c : NonceCache)
    → (add_at n now c).0 ≡ ok tt
    → IsSeen n (now + c.ttl_seconds) (add_at n now c).1
unfolding add_at expiry_of
add_at-taken n now c h = elim (Option-cases (expiry_of n (without_expired now c.seen))) [
  | inl new ↦ rw new (now + c.ttl_seconds, rw eq_refl, omega arith)
  | inr (x, old) ↦
      let refused : ◌≡◌ {A = Result (Unit {0})} (err replay_detected) (ok tt) = rw old at h in cc
]
