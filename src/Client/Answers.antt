-- ===== src/Client/Answers.antt =====
-- bridge/client.py: _urlopen_json.
use Prim.Native.String.{◌++◌}
use suno_studio.Prelude.{
  ℕ, String, ◌≡◌, ◌⊎◌, inl, inr, refl, ap, Bool-cases, Bool, true, false, Option, none, some, List,
  [], ◌∷◌, ◌==◌, if◌then◌else◌, leb,
}
use suno_studio.Exec.{
  Exn, value_error, type_error, attribute_error, runtime_error, bridge_error, err,
}
use suno_studio.Errors.{BridgeError, to_payload, or_null}
use suno_studio.Models.Values.{Json, null, str, arr, obj, Items, nil, cons, end, get}
use suno_studio.Text.{codes}
use suno_studio.Http.Responses.{Reply, ends_with, refused, reply, status_code}

-- What `urlopen` gives: the body of a response, or an HTTPError with its code and body.
pub data HttpAnswer : Type 0 where
  response : String → HttpAnswer
  http_error : ℕ → String → HttpAnswer

-- What the client raises: a BridgeError with what was in the answer, of whatever types, or another
-- exception.
pub data ClientError : Type 0 where
  from_bridge : Json → Json → Json → Json → ClientError
  other : Exn → ClientError

unfoldable is_prefix : List ℕ → List ℕ → Bool
is_prefix [] cs = true
is_prefix (p ∷ ps) [] = false
is_prefix (p ∷ ps) (c ∷ cs) =
    let rest = is_prefix ps cs in if leb p c then (if leb c p then rest else false) else false

-- p in cs
unfoldable is_within : List ℕ → List ℕ → Bool
is_within p [] = is_prefix p []
is_within p (c ∷ cs) = let rest = is_within p cs in if is_prefix p (c ∷ cs) then true else rest

abbrev is_error : Json → Bool
is_error (str s) = s == "error"
is_error _ = false

unfoldable has_error : Items → Bool
has_error nil = false
has_error (cons v vs) = let rest = has_error vs in if is_error v then true else rest

abbrev pub or_else : Option Json → Json → Json
or_else none d = d
or_else (some v) d = v

refused_status : (e : BridgeError) → (status_code e ≡ 404) ⊎ (status_code e ≡ 400)
refused_status e = elim (Bool-cases (ends_with "NOT_FOUND" e.code)) [
  | inl y ↦ rw y (inl refl)
  | inr n ↦ rw n (inr refl)
]

module _ (loads : String → Option Json) (decimal : ℕ → String) where
  -- f"Bridge HTTP {exc.code}: {detail}"
  abbrev bridge_http : ℕ → String → ClientError
  bridge_http code detail = other (runtime_error ("Bridge HTTP " ++ decimal code ++ ": " ++ detail))

  -- The exception for `error`, which only a dict gives.
  abbrev pub raised : Json → ClientError
  raised (obj e) =
      from_bridge (or_else (get e "code") (str "HTTP_ERROR"))
        (or_else (get e "message") (str "HTTP request failed"))
        (or_else (get e "details") (obj end)) (or_else (get e "request_id") null)
  raised _ = other attribute_error

  -- `"error" in payload`, and what follows; `none` is that `detail` is no JSON.
  abbrev error_of : ClientError → Option Json → ClientError
  error_of plain (some (obj d)) = elim (get d "error") [ none ↦ plain | some e ↦ raised e ]
  error_of plain (some (arr vs)) = if has_error vs then other type_error else plain
  error_of plain (some (str s)) =
      if is_within (codes "error") (codes s) then other type_error else plain
  error_of plain none = plain
  error_of plain (some _) = other type_error

  abbrev parsed : Option Json → Json ⊎ ClientError
  parsed none = inr (other value_error)
  parsed (some v) = inl v

  pub urlopen_json : HttpAnswer → Json ⊎ ClientError
  urlopen_json (response text) = parsed (loads text)
  urlopen_json (http_error code detail) = inr (error_of (bridge_http code detail) (loads detail))

  module _ (dumps : Json → String) where
    -- A refusal of the bridge on its way to the client.
    abbrev pub transmit : {A : Type 0} → Reply A → Option HttpAnswer
    transmit (refused code content) = some (http_error code (dumps content))
    transmit _ = none

    -- Suppose that `loads` reads back what `dumps` prints for the payload of a BridgeError. If a handler
    -- raises this BridgeError, the bridge answers with it, under status 404 or 400, and the client
    -- raises a BridgeError with the same code, message, details and request id.
    pub urlopen_json-reply :
        (A : Type 0) (e : BridgeError)
        → loads (dumps (to_payload e)) ≡ some (to_payload e)
        → (code : ℕ) × ((code ≡ 404) ⊎ (code ≡ 400))
          × (transmit (reply {A = A} (err (bridge_error e)))
              ≡ some (http_error code (dumps (to_payload e))))
          × (urlopen_json (http_error code (dumps (to_payload e)))
              ≡ inr
                  (from_bridge (str e.code) (str e.message) (obj e.details) (or_null e.request_id)))
    unfolding reply urlopen_json
    urlopen_json-reply A e round_trip = (
      status_code e,
      refused_status e,
      refl,
      ap (λ o. inr (error_of (bridge_http (status_code e) (dumps (to_payload e))) o)) round_trip,
    )
