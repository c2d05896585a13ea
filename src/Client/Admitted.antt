-- ===== src/Client/Admitted.antt =====
-- bridge/client.py and bridge/app.py: a request of the client at protocol_security_middleware.
use suno_studio.Prelude.{
  ℕ, ◌≤◌, String, ◌≡◌, refl, sym, subst, inl, inr, Bool, true, false, not, Option, none, some, List,
  [], ◌∷◌, Bool-cases, ◌==◌, if◌then◌else◌, ap, ◌∙◌,
}
use suno_studio.Exec.{Result, ok, err, Exec, proceed, ◌>>=◌}
use suno_studio.Models.Values.{Json}
use suno_studio.Text.{codes, parse_int}
use suno_studio.Protocol.{validate_protocol_headers, protocol_range}
use suno_studio.Security.Nonces.{NonceCache, expiry_of}
use suno_studio.Security.Signer.{Crypto, distance, is_ascii, sign, verify}
use suno_studio.Security.Accepts.{verify-sign}
use suno_studio.Http.Gate.{
  HttpRequest, timestamp_text, signed_headers, passed, default_skew_seconds, verify_parsed,
  check_signature, admit, settled, gate, middleware,
}
use suno_studio.Client.{ClientConfig, ClientState, headers, ensure_handshake}
use suno_studio.Client.Multipart.{Platform}
use suno_studio.Client.Requests.{
  Fresh, ClientRequest, ClientCall, create_text_job, create_audio_job, import_asset, get_job,
  cancel_job, get_handoff, manual_complete, bytes_of, with_type, request_with, build, call,
}
use suno_studio.Client.Handshake.{sent_headers}

-- The value of the header in the list of the client's headers.
pub header_of : List (String × String) → String → Option String
header_of [] name = none
header_of ((k, v) ∷ hs) name = let rest = header_of hs name in if k == name then some v else rest

module _ (crypto : Crypto) (shared_secret : List ℕ) (int_error : String → String)
    (request : HttpRequest) (clock : ℕ) (c : NonceCache) where
  settled-ok :
      (r : Result (Unit {0}) × NonceCache)
      → r.0 ≡ ok tt
      → (settled crypto shared_secret int_error request r).0 ≡ passed
  settled-ok (r, c') h = ap (admit crypto shared_secret int_error request) h

  gate-valid :
      (require_hmac : Bool) (v : Bool × Option Json)
      → v.0 ≡ true
      → (require_hmac ≡ true
          → (check_signature crypto shared_secret int_error request clock c).0 ≡ ok tt)
      → (gate crypto shared_secret int_error require_hmac request clock v c).0 ≡ passed
  gate-valid require_hmac (false, e) h k = absurd (cc h)
  gate-valid false (true, e) h k = refl
  gate-valid true (true, e) h k = elim (Bool-cases (not (request.path == "/capabilities"))) [
    | inl y ↦
        rw y (settled-ok (check_signature crypto shared_secret int_error request clock c) (k refl))
    | inr n ↦ rw n
  ]

-- The request as the bridge gets it; `path` is the decoded path.
unfoldable pub received : String → ClientRequest → HttpRequest
received path r = record { path = path; header = header_of r.headers; body = bytes_of r.body }

-- `P` holds of what is returned and left.
Holds : {S A : Type 0} → (A → S → Type 0) → Result A × S → Type 0
Holds P (ok a, s) = P a s
Holds P (err x, s) = Unit

module _ {S A B : Type 0} (P : B → S → Type 0) where
  proceed-Holds :
      (f : A → Exec S B) (r : Result A × S)
      → ((a : A) (s : S) → Holds P (f a s))
      → Holds P (proceed r f)
  unfolding Holds
  proceed-Holds f (ok a, s) h = h a s
  proceed-Holds f (err x, s) h = tt

  >>=-Holds :
      (m : Exec S A) (f : A → Exec S B)
      → ((a : A) (s : S) → Holds P (f a s))
      → (s : S) → Holds P ((m >>= f) s)
  unfolding ◌>>=◌
  >>=-Holds m f h s = proceed-Holds f (m s) h

module _ (crypto : Crypto) (platform : Platform) (config : ClientConfig) (fresh : Fresh) where
  -- The headers of the request are those that the client makes for its body.
  IsSigned : ClientRequest → ClientState → Type 0
  IsSigned r s =
      (t : Option String) × (r.headers
        ≡ with_type t (
            headers crypto config s.hmac_required fresh.request_id (bytes_of r.body) fresh.timestamp
              fresh.nonce))

  request_with-IsSigned :
      (method path : String) (t : Option String) (body : Option (List ℕ)) (s : ClientState)
      → Holds IsSigned (request_with crypto platform config fresh method path t body s)
  unfolding Holds IsSigned request_with
  request_with-IsSigned method path t body s = (t, refl)

  build-IsSigned :
      (c : ClientCall) (s : ClientState) → Holds IsSigned (build crypto platform config fresh c s)
  unfolding build
  build-IsSigned (create_text_job i prompt metadata mode) = request_with-IsSigned _ _ _ _
  build-IsSigned (create_audio_job i prompt metadata asset_id file_path mode) =
      >>=-Holds IsSigned _ _ λ u. >>=-Holds IsSigned _ _ λ body. request_with-IsSigned _ _ _ _
  build-IsSigned (import_asset file_path normalize) =
      >>=-Holds IsSigned _ _ λ body. request_with-IsSigned _ _ _ _
  build-IsSigned (get_job i) = request_with-IsSigned _ _ _ _
  build-IsSigned (cancel_job i) = request_with-IsSigned _ _ _ _
  build-IsSigned (get_handoff i) = request_with-IsSigned _ _ _ _
  build-IsSigned (manual_complete i a b c d) =
      >>=-Holds IsSigned _ _ λ body. request_with-IsSigned _ _ _ _

  module _ (int_error : String → String) (capabilities : Json) (path : String) (c : ClientCall)
      (clock : ℕ) (cache : NonceCache)
      (valid : (validate_protocol_headers (sent_headers config fresh.request_id) protocol_range).0
        ≡ true)
      (printed : parse_int (codes (crypto.decimal fresh.timestamp)) ≡ some fresh.timestamp)
      (ascii_hash : (b : List ℕ) → is_ascii (crypto.sha256_hex b) ≡ true)
      (ascii_signature : (k : List ℕ) (t : String) → is_ascii (crypto.hmac_hex k t) ≡ true)
      (near : distance clock fresh.timestamp ≤ default_skew_seconds)
      (unseen : expiry_of fresh.nonce cache.seen ≡ none) where
    open config use {shared_secret}

    -- A request whose headers are known.
    abbrev with_headers : Bool → List ℕ → Option String → HttpRequest
    with_headers hmac body t = record {
      path = path;
      header = header_of (
          with_type t
            (headers crypto config hmac fresh.request_id body fresh.timestamp fresh.nonce));
      body = body;
    }

    check_parsed :
        (request : HttpRequest) (body : List ℕ)
        → timestamp_text request ≡ crypto.decimal fresh.timestamp
        → signed_headers request fresh.timestamp
          ≡ sign crypto shared_secret body fresh.timestamp fresh.nonce
        → request.body ≡ body
        → (check_signature crypto shared_secret int_error request clock cache).0 ≡ ok tt
    unfolding check_signature
    check_parsed request body e f g =
        ap (λ o. (verify_parsed crypto shared_secret int_error request clock o cache).0)
          (ap (λ t. parse_int (codes t)) e ∙ printed)
        ∙ ap
            (λ h.
              (verify crypto shared_secret default_skew_seconds h request.body none clock cache).0)
            f
        ∙ ap
            (λ b.
              (verify crypto shared_secret default_skew_seconds
                (sign crypto shared_secret body fresh.timestamp fresh.nonce) b none clock cache).0)
            g
        ∙ verify-sign crypto shared_secret default_skew_seconds body fresh.timestamp fresh.nonce
            none clock cache (ascii_hash body) (ascii_signature shared_secret _) near unseen

    verified :
        (body : List ℕ) (t : Option String)
        → (check_signature crypto shared_secret int_error (with_headers true body t) clock cache).0
          ≡ ok tt
    unfolding check_signature headers header_of sign
    verified body none = check_parsed (with_headers true body none) body refl refl refl
    verified body (some t) = check_parsed (with_headers true body (some t)) body refl refl refl

    accept :
        (hmac : Bool) (request : HttpRequest)
        → (hmac ≡ true
            → (check_signature crypto shared_secret int_error request clock cache).0 ≡ ok tt)
        → (gate crypto shared_secret int_error hmac request clock
            (validate_protocol_headers (sent_headers config fresh.request_id) protocol_range)
            cache).0
          ≡ passed
    accept hmac request =
        gate-valid crypto shared_secret int_error request clock cache hmac
          (validate_protocol_headers (sent_headers config fresh.request_id) protocol_range) valid

    with_headers-passed :
        (hmac : Bool) (body : List ℕ) (t : Option String)
        → (middleware crypto shared_secret int_error hmac (with_headers hmac body t) clock cache).0
          ≡ passed
    unfolding middleware headers header_of
    with_headers-passed false body none =
        accept false (with_headers false body none) (λ h. absurd (cc h))
    with_headers-passed false body (some t) =
        accept false (with_headers false body (some t)) (λ h. absurd (cc h))
    with_headers-passed true body none =
        accept true (with_headers true body none) (λ h. verified body none)
    with_headers-passed true body (some t) =
        accept true (with_headers true body (some t)) (λ h. verified body (some t))

    -- Suppose that the bridge accepts the protocol headers of the client, that `int` reads the decimal
    -- text of the timestamp, that digests are ASCII texts, that the timestamp is within 120 seconds of
    -- the bridge's time, and that the cache does not hold the nonce. Any request that a method of the
    -- client makes, and whose state has taken over whether the bridge requires signatures, passes the
    -- middleware.
    pub call-passed :
        (s s' : ClientState) (r : ClientRequest)
        → call crypto platform config fresh capabilities c s ≡ (ok r, s')
        → (middleware crypto shared_secret int_error s'.hmac_required
            (received path r)
            clock
            cache).0
          ≡ passed
    unfolding call received Holds IsSigned
    call-passed s s' r e =
        let made =
          >>=-Holds IsSigned (ensure_handshake config capabilities)
            (λ u. build crypto platform config fresh c) (λ u. build-IsSigned c) s in
        let (t, same) : IsSigned r s' = subst (Holds IsSigned) e made in
        subst
          (λ hs.
            (middleware crypto shared_secret int_error s'.hmac_required
              (record { path = path; header = header_of hs; body = bytes_of r.body }) clock cache).0
            ≡ passed)
          (sym same) (with_headers-passed s'.hmac_required (bytes_of r.body) t)
