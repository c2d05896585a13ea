-- ===== src/Http/Replay.antt =====
-- bridge/app.py: a sequence of requests at protocol_security_middleware.
use suno_studio.Prelude.{
  ℕ, ◌≤◌, ◌<◌, String, ◌≡◌, ◌≢◌, inl, inr, refl, sym, ap, ◌∙◌, Bool, true, false, not, ◌&&◌, Option,
  none, some, List, [], ◌∷◌, ◌++◌, All, All-append, All-map, some_inj, subst, arith, Bool-cases,
  ◌==◌,
}
use suno_studio.Exec.{
  key_error, value_error, type_error, attribute_error, integrity_error, file_not_found,
  struct_error, expired_request, replay_detected, signature_validation, runtime_error,
  timeout_error, bridge_error, Result, ok, err,
}
use suno_studio.Models.Values.{ℤ, Json}
use suno_studio.Text.{codes, parse_int}
use suno_studio.Protocol.{validate_protocol_headers, protocol_range}
use suno_studio.Security.Nonces.{NonceCache}
use suno_studio.Security.Signer.{Crypto}
use suno_studio.Security.Replay.{Arrival, receive, receive_all, replay_refused}
use suno_studio.Http.Gate.{
  HttpRequest, Admission, passed, default_skew_seconds, nonce_ttl_seconds, timestamp_text,
  signed_headers, protocol_headers, get_header, verify_parsed, check_signature, admit, settled,
  gate, middleware,
}

-- A request and the time at which it is checked.
abbrev Timed : Type 0
Timed = HttpRequest × ℕ

module _ (crypto : Crypto) (shared_secret : List ℕ) (int_error : String → String)
    (require_hmac : Bool) where
  abbrev pub check : Timed → NonceCache → Admission × NonceCache
  check (request, clock) = middleware crypto shared_secret int_error require_hmac request clock

  pub check_all : List Timed → NonceCache → NonceCache
  check_all [] c = c
  check_all (t ∷ ts) c = check_all ts (check t c).1

  abbrev arrive : List Arrival → NonceCache → NonceCache
  arrive = receive_all crypto shared_secret default_skew_seconds

  abbrev arrival : HttpRequest → ℕ → ℤ → Arrival
  arrival request clock timestamp = record {
    headers = signed_headers request timestamp;
    body = request.body;
    at = clock;
  }

  admit-passed :
      (request : HttpRequest) (r : Result (Unit {0}))
      → admit crypto shared_secret int_error request r ≡ passed
      → r ≡ ok tt
  admit-passed request (ok u) h = refl
  admit-passed request (err key_error) h = absurd (cc h)
  admit-passed request (err value_error) h = absurd (cc h)
  admit-passed request (err type_error) h = absurd (cc h)
  admit-passed request (err attribute_error) h = absurd (cc h)
  admit-passed request (err integrity_error) h = absurd (cc h)
  admit-passed request (err file_not_found) h = absurd (cc h)
  admit-passed request (err struct_error) h = absurd (cc h)
  admit-passed request (err expired_request) h = absurd (cc h)
  admit-passed request (err replay_detected) h = absurd (cc h)
  admit-passed request (err (signature_validation m)) h = absurd (cc h)
  admit-passed request (err (runtime_error m)) h = absurd (cc h)
  admit-passed request (err (timeout_error m)) h = absurd (cc h)
  admit-passed request (err (bridge_error e)) h = absurd (cc h)

  verify_parsed-arrivals :
      (request : HttpRequest) (clock : ℕ) (o : Option ℤ) (c : NonceCache)
      → (as_ : List Arrival) × All (λ a. a.at ≡ clock) as_
        × ((verify_parsed crypto shared_secret int_error request clock o c).1 ≡ arrive as_ c)
  unfolding receive_all receive
  verify_parsed-arrivals request clock none c = ([], tt, refl)
  verify_parsed-arrivals request clock (some timestamp) c =
      (arrival request clock timestamp ∷ [], (refl, tt), refl)

  gate-arrivals :
      (request : HttpRequest) (clock : ℕ) (v : Bool × Option Json) (c : NonceCache)
      → (as_ : List Arrival) × All (λ a. a.at ≡ clock) as_
        × ((gate crypto shared_secret int_error require_hmac request clock v c).1 ≡ arrive as_ c)
  unfolding receive_all check_signature
  gate-arrivals request clock (false, error) c = ([], tt, refl)
  gate-arrivals request clock (true, error) c =
      elim (Bool-cases (require_hmac && not (request.path == "/capabilities"))) [
        | inl y ↦
            rw y
              (verify_parsed-arrivals request clock (parse_int (codes (timestamp_text request))) c)
        | inr n ↦ rw n ([], tt, refl)
      ]

  receive_all-append :
      (as_ bs : List Arrival) (c : NonceCache) → arrive (as_ ++ bs) c ≡ arrive bs (arrive as_ c)
  unfolding receive_all
  receive_all-append [] bs c = refl
  receive_all-append (a ∷ as_) bs c =
      receive_all-append as_ bs (receive crypto shared_secret default_skew_seconds a c).1

  -- What the checks of requests do to the cache is what some arrivals do, at the same times.
  check_all-arrivals :
      (t : ℕ) (ts : List Timed) (c : NonceCache)
      → All (λ (x : Timed). x.1 ≤ t) ts
      → (as_ : List Arrival) × All (λ a. a.at ≤ t) as_ × (check_all ts c ≡ arrive as_ c)
  unfolding check_all receive_all middleware
  check_all-arrivals t [] c h = ([], tt, refl)
  check_all-arrivals t ((request, clock) ∷ ts) c h =
      let (as_, now, e) =
        gate-arrivals request clock
          (validate_protocol_headers (protocol_headers request) protocol_range) c in
      let (bs, soon, f) = check_all-arrivals t ts (check (request, clock) c).1 h.1 in
      (
        as_ ++ bs,
        All-append (λ a. a.at ≤ t) as_ bs
            (All-map (λ (a : Arrival). a.at ≡ clock) (λ a. a.at ≤ t)
              (λ a is. let first = h.0 in omega arith) as_ now)
            soon,
        f ∙ ap (arrive bs) e ∙ sym (receive_all-append as_ bs c),
      )

  -- A request that passes, where signatures are required, has been received and accepted.
  abbrev IsReceived : HttpRequest → ℕ → NonceCache → Admission × NonceCache → Type 0
  IsReceived request clock c (a, c') =
      (timestamp : ℤ) × (parse_int (codes (timestamp_text request)) ≡ some timestamp)
      × ((receive crypto shared_secret default_skew_seconds (arrival request clock timestamp) c).0
          ≡ ok tt)
      × (c'
          ≡ (receive crypto shared_secret default_skew_seconds (arrival request clock timestamp)
              c).1)

  verify_parsed-passed :
      (request : HttpRequest) (clock : ℕ) (c : NonceCache) (o : Option ℤ)
      → parse_int (codes (timestamp_text request)) ≡ o
      → (settled crypto shared_secret int_error request
          (verify_parsed crypto shared_secret int_error request clock o c)).0
        ≡ passed
      → IsReceived request clock c (
          settled crypto shared_secret int_error request
            (verify_parsed crypto shared_secret int_error request clock o c))
  unfolding receive
  verify_parsed-passed request clock c none e h = absurd (cc h)
  verify_parsed-passed request clock c (some timestamp) e h =
      (timestamp, e, admit-passed request _ h, refl)

  gate-passed :
      (request : HttpRequest) (clock : ℕ) (c : NonceCache) (v : Bool × Option Json)
      → (require_hmac && not (request.path == "/capabilities")) ≡ true
      → (gate crypto shared_secret int_error require_hmac request clock v c).0 ≡ passed
      → IsReceived request clock c
          (gate crypto shared_secret int_error require_hmac request clock v c)
  unfolding check_signature
  gate-passed request clock c (false, error) y h = absurd (cc h)
  gate-passed request clock c (true, error) y h = rw y (
      verify_parsed-passed request clock c (parse_int (codes (timestamp_text request))) refl
        (rw y at h))

  check-passed :
      (request : HttpRequest) (clock : ℕ) (c : NonceCache)
      → require_hmac ≡ true
      → (request.path == "/capabilities") ≡ false
      → (check (request, clock) c).0 ≡ passed
      → IsReceived request clock c (check (request, clock) c)
  unfolding middleware
  check-passed request clock c signed path h =
      gate-passed request clock c
        (validate_protocol_headers (protocol_headers request) protocol_range) (rw (signed, path)) h

  module _ (a b : HttpRequest) (first_time last_time : ℕ) (between : List Timed) (c : NonceCache)
      (signed : require_hmac ≡ true) (positive : 0 < first_time) (later : first_time ≤ last_time)
      (in_order : All (λ (x : Timed). x.1 ≤ last_time) between)
      (lifetime : c.ttl_seconds ≡ nonce_ttl_seconds) (path_a : (a.path == "/capabilities") ≡ false)
      (path_b : (b.path == "/capabilities") ≡ false)
      (same_nonce : get_header b "x-signature-nonce" "" ≡ get_header a "x-signature-nonce" "")
      (same_time : timestamp_text b ≡ timestamp_text a) where
    -- Suppose that signatures are required, that the clock is positive and does not run back, and that
    -- the cache has the lifetime of nonces that the bridge gives it. Once a request has passed the
    -- middleware, no request with its nonce and its timestamp passes again, but for those of
    -- /capabilities, whatever requests come in between.
    pub replay_stopped :
        (check (a, first_time) c).0 ≡ passed
        → (check (b, last_time) (check_all between (check (a, first_time) c).1)).0 ≢ passed
    replay_stopped first second =
        let (t, parsed, accepted, after) = check-passed a first_time c signed path_a first in
        let c' : NonceCache =
          (receive crypto shared_secret default_skew_seconds (arrival a first_time t) c).1 in
        let (as_, soon, e) =
          check_all-arrivals last_time between (check (a, first_time) c).1 in_order in
        let (u, parsed_b, accepted_b, after_b) =
          check-passed b last_time (check_all between (check (a, first_time) c).1) signed path_b
            second in
        let same : u ≡ t =
          some_inj (sym parsed_b ∙ ap (λ s. parse_int (codes s)) same_time ∙ parsed) in
        replay_refused crypto shared_secret default_skew_seconds (arrival a first_time t)
          (arrival b last_time u) as_ c positive later soon (omega (arith, lifetime)) same_nonce
          same accepted
          (subst
            (λ x.
              (receive crypto shared_secret default_skew_seconds (arrival b last_time u) x).0
              ≡ ok tt)
            (e ∙ ap (arrive as_) after) accepted_b)
