-- ===== src/Client/Handshake.antt =====
-- bridge/client.py and bridge/app.py: the handshake against the bridge's own range.
use suno_studio.Prelude.{
  subst, some_inj, eq_iff, ℕ, String, ◌≡◌, ◌⊎◌, inl, inr, refl, sym, ap, ◌∙◌, Bool, true, false,
  Option, none, some, List, [], ◌∷◌, Bool-cases, Option-cases, ◌==◌,
}
use suno_studio.Exec.{Exn, value_error, Exec, Result, ok, err, require, ◌>>=◌}
use suno_studio.Models.Values.{ℤ, str, obj, present}
use suno_studio.Text.{codes, parse_int}
use suno_studio.Protocol.{
  Headers, split_dots, and_then, any_empty, is_empty, ints, version_lt, validate_protocol_headers,
  protocol_range,
}
use suno_studio.Protocol
use suno_studio.Protocol.Accepted.{
  IsSupported, low, high, supported, in_range, range_parses, validate_protocol_headers_iff,
}
use suno_studio.Http.Jobs.{get_capabilities}
use suno_studio.Http.Responses.{capabilities_payload}
use suno_studio.Client.{
  ClientConfig, ClientState, parse_version, version_of, compare_range, preflight_handshake,
}

and_then-none : (o : Option ℤ) → and_then o none ≡ none
and_then-none none = refl
and_then-none (some z) = refl

-- An empty part does not parse.
part-empty : (p : List ℕ) → is_empty p ≡ true → parse_int p ≡ none
unfolding parse_int
part-empty [] h = refl
part-empty (c ∷ cs) h = absurd (cc h)

ints-any_empty : (ps : List (List ℕ)) → any_empty ps ≡ true → ints ps ≡ none
unfolding ints any_empty
ints-any_empty [] h = absurd (cc h)
ints-any_empty (p ∷ ps) h = elim (Bool-cases (is_empty p)) [
  | inl y ↦ rw (part-empty p y)
  | inr n ↦ rw (ints-any_empty ps (rw n at h)) (and_then-none (parse_int p))
]

parse_version_empty : parse_version "" ≡ none
unfolding parse_version split_dots ints parse_int
parse_version_empty = refl

-- The client and the bridge read a version in the same way.
parse_version-Protocol : (s : String) → parse_version s ≡ Protocol.parse_version s
unfolding parse_version Protocol.parse_version
parse_version-Protocol s = elim (Bool-cases (s == "")) [
  | inl y ↦ let e : s ≡ "" = (eq_iff s "").0 y in rw (y, e, parse_version_empty)
  | inr n ↦ elim (Bool-cases (any_empty (split_dots (codes s)))) [
    | inl y ↦ rw (n, y, ints-any_empty (split_dots (codes s)) y)
    | inr m ↦ rw (n, m)
  ]
]

version_of-none : (t : String) → parse_version t ≡ none → version_of (str t) ≡ err value_error
version_of-none t e = ap (λ o. elim o [ none ↦ err value_error | some v ↦ ok v ]) e

version_of-some : (t : String) {v : List ℤ} → parse_version t ≡ some v → version_of (str t) ≡ ok v
version_of-some t e = ap (λ o. elim o [ none ↦ err value_error | some w ↦ ok w ]) e

-- What the client finds in the range that the bridge announces.
bounds_parse : (version_of (str "1.2") ≡ ok low) × (version_of (str "1.3") ≡ ok high)
bounds_parse = (
  version_of-some "1.2" (parse_version-Protocol "1.2" ∙ range_parses.0),
  version_of-some "1.3" (parse_version-Protocol "1.3" ∙ range_parses.1),
)

abbrev after : Bool → ClientState
after require_hmac = record { handshake_done = true; hmac_required = require_hmac }

-- The headers of the client, as the bridge reads them.
abbrev pub sent_headers : ClientConfig → String → Headers
sent_headers config request_id = record {
  request_id = some request_id;
  plugin_version = some config.plugin_version;
  protocol_version = some config.protocol_version;
}

abbrev IsSupportedText : String → Type 0
IsSupportedText t = (v : List ℤ) × (Protocol.parse_version t ≡ some v) × IsSupported v

module _ (config : ClientConfig) (require_hmac : Bool) (request_id : String) (s : ClientState) where
  abbrev finish_handshake : Exec ClientState (Unit {0})
  finish_handshake = λ c. (ok tt, after require_hmac)

  -- The handshake of a client with the bridge's own answer to GET /capabilities.
  abbrev pub handshake : Result (Unit {0}) × ClientState
  handshake = preflight_handshake config (obj (get_capabilities require_hmac request_id)) s

  preflight_handshake-runs :
      handshake ≡ (compare_range config (str "1.2") (str "1.3") >>= λ u. finish_handshake) s
  unfolding preflight_handshake get_capabilities capabilities_payload ◌>>=◌
  preflight_handshake-runs = refl

  handshake-none : parse_version config.protocol_version ≡ none → handshake ≡ (err value_error, s)
  unfolding ◌>>=◌
  handshake-none e = rw (preflight_handshake-runs, version_of-none config.protocol_version e)

  handshake-some :
      (v : List ℤ)
      → parse_version config.protocol_version ≡ some v
      → (IsSupported v × (handshake ≡ (ok tt, after require_hmac)))
        ⊎ (¬ IsSupported v) × ((e : Exn) × (handshake ≡ (err e, s)))
  unfolding ◌>>=◌ require
  handshake-some v e =
      rw
        (
          preflight_handshake-runs,
          version_of-some config.protocol_version e,
          bounds_parse.0,
          bounds_parse.1,
        )
        (elim (Bool-cases (version_lt v low)) [
          | inl y ↦ rw y (inr (λ i. let (l, r) = in_range v i in cc (l, y), (_, refl)))
          | inr n ↦ elim (Bool-cases (version_lt high v)) [
            | inl y ↦ rw (n, y) (inr (λ i. let (l, r) = in_range v i in cc (r, y), (_, refl)))
            | inr m ↦ rw (n, m) (inl (supported v n m, refl))
          ]
        ])

  refused :
      ¬ IsSupportedText config.protocol_version
      → (validate_protocol_headers (sent_headers config request_id) protocol_range).0 ≡ false
  refused n =
      elim (Bool-cases
        (validate_protocol_headers (sent_headers config request_id) protocol_range).0) [
          | inl y ↦
              let (_, _, v, e, i) =
                (validate_protocol_headers_iff (sent_headers config request_id)).0 y in
              absurd (n (v, e, i))
          | inr r ↦ r
        ]

  module _ (identified : present (some request_id) ≡ true)
      (versioned : present (some config.plugin_version) ≡ true) where
    accepted :
        (v : List ℤ)
        → Protocol.parse_version config.protocol_version ≡ some v
        → IsSupported v
        → (validate_protocol_headers (sent_headers config request_id) protocol_range).0 ≡ true
    accepted v e i =
        (validate_protocol_headers_iff (sent_headers config request_id)).1
          (identified, versioned, v, e, i)

    -- Suppose that the request id and the plug-in's version are not empty. The client's handshake with
    -- the bridge's own answer to /capabilities ends well exactly if the bridge accepts the protocol
    -- headers of the client: then the client has its handshake and has taken over whether signatures
    -- are required, and otherwise it raises and its state is as before.
    pub handshake_agrees :
        (((validate_protocol_headers (sent_headers config request_id) protocol_range).0 ≡ true)
          × (handshake ≡ (ok tt, record { handshake_done = true; hmac_required = require_hmac })))
        ⊎ ((validate_protocol_headers (sent_headers config request_id) protocol_range).0 ≡ false)
          × ((e : Exn) × (handshake ≡ (err e, s)))
    handshake_agrees = elim (Option-cases (Protocol.parse_version config.protocol_version)) [
      | inl e ↦ inr (
        refused (λ i. let (_, f, _) = i in cc (f, e)),
        (value_error, handshake-none (parse_version-Protocol config.protocol_version ∙ e)),
      )
      | inr (v, e) ↦ elim (handshake-some v (parse_version-Protocol config.protocol_version ∙ e)) [
        | inl (i, r) ↦ inl (accepted v e i, r)
        | inr (n, r) ↦
            inr (
              refused (λ i. let (w, f, g) = i in n (subst IsSupported (some_inj (sym f ∙ e)) g)),
              r,
            )
      ]
    ]
