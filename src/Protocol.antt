-- ===== src/Protocol.antt =====
-- bridge/middleware.py: protocol versions, and the headers that carry them.
pub mod Accepted
pub mod Witnesses
use Prim.Native.String
use suno_studio.Prelude.{
  ℕ, String, Bool, true, false, not, ◌&&◌, ◌||◌, Option, none, some, List, [], ◌∷◌, ltb, eqb, ◌==◌,
  if◌then◌else◌,
}
use suno_studio.Models.Values.{ℤ, pos, negsuc, Json, str, Fields, end, field, present}
use suno_studio.Text.{codes, parse_int}
use suno_studio.Errors.{make_error}

pub record ProtocolRange : Type 0 where
  pub min_supported : String
  pub max_supported : String

-- `part` is the part that the character before the text belongs to, backwards.
abbrev push : ℕ → List (List ℕ) → List (List ℕ)
push c [] = (c ∷ []) ∷ []
push c (p ∷ ps) = (c ∷ p) ∷ ps

-- value.split("."), which has a part even for the empty text
unfoldable pub split_dots : List ℕ → List (List ℕ)
split_dots [] = [] ∷ []
split_dots (c ∷ cs) = let rest = split_dots cs in if eqb c b'.' then [] ∷ rest else push c rest

abbrev pub is_empty : List ℕ → Bool
is_empty [] = true
is_empty (c ∷ cs) = false

unfoldable pub any_empty : List (List ℕ) → Bool
any_empty [] = false
any_empty (p ∷ ps) = is_empty p || any_empty ps

abbrev pub and_then : Option ℤ → Option (List ℤ) → Option (List ℤ)
and_then none r = none
and_then (some z) none = none
and_then (some z) (some zs) = some (z ∷ zs)

-- tuple(int(part) for part in parts)
unfoldable pub ints : List (List ℕ) → Option (List ℤ)
ints [] = some []
ints (p ∷ ps) = and_then (parse_int p) (ints ps)

-- `none` is a ValueError.
unfoldable pub parse_version : String → Option (List ℤ)
unfolding ints any_empty
parse_version value =
    let parts = split_dots (codes value) in
    if value == "" || any_empty parts then none else ints parts

-- a < b on integers
int_lt : ℤ → ℤ → Bool
int_lt (pos a) (pos b) = ltb a b
int_lt (negsuc a) (pos b) = true
int_lt (pos a) (negsuc b) = false
int_lt (negsuc a) (negsuc b) = ltb b a

int_eq : ℤ → ℤ → Bool
int_eq (pos a) (pos b) = eqb a b
int_eq (negsuc a) (negsuc b) = eqb a b
int_eq _ _ = false

-- a < b on tuples: the first difference decides, and a proper prefix is less.
pub version_lt : List ℤ → List ℤ → Bool
version_lt _ [] = false
version_lt [] (b ∷ bs) = true
version_lt (a ∷ as_) (b ∷ bs) =
    let rest = version_lt as_ bs in if int_eq a b then rest else int_lt a b

-- The three headers that are read; a header that is missing is `none`.
pub record Headers : Type 0 where
  pub request_id : Option String
  pub plugin_version : Option String
  pub protocol_version : Option String

abbrev text_of : Option String → String
text_of none = ""
text_of (some s) = s

infixr 66 ◌⧺◌
abbrev ◌⧺◌ : String → String → String
a ⧺ b = String.◌++◌ a b

module _ (range : ProtocolRange) (requested : String) where
  abbrev supported_range : String
  supported_range = "Supported range is " ⧺ range.min_supported ⧺ "-" ⧺ range.max_supported ⧺ "."

  abbrev details : String → Fields
  details action = field "requested" (str requested) (
      field "min_supported" (str range.min_supported)
        (field "max_supported" (str range.max_supported) (field "action" (str action) end)))

  abbrev unsupported : Option String → String → String → Json
  unsupported request_id what action =
      make_error "PROTOCOL_VERSION_UNSUPPORTED" ("Protocol " ⧺ requested ⧺ what ⧺ supported_range)
        (details action) request_id

  -- The tests on the parsed versions; `none` stands for a version that does not parse.
  compare_versions :
      Option String → Option (List ℤ) → Option (List ℤ) → Option (List ℤ) → Bool × Option Json
  compare_versions request_id (some req_v) (some min_v) (some max_v) =
      if version_lt req_v min_v
      then (
        false,
        some (
            unsupported request_id " is too old. "
              ("Upgrade plugin protocol to >=" ⧺ range.min_supported)),
      )
      else if version_lt max_v req_v
      then (
        false,
        some (
            unsupported request_id " is newer than provider support. "
              ("Downgrade plugin protocol to <=" ⧺ range.max_supported ⧺ " or upgrade provider")),
      )
      else (true, none)
  compare_versions request_id _ _ _ = (
    false,
    some (
        make_error "PROTOCOL_VERSION_INVALID"
          ("Invalid protocol version '" ⧺ requested ⧺ "'. Use semantic version format.")
          (field "requested" (str requested) end) request_id),
  )

pub validate_protocol_headers : Headers → ProtocolRange → Bool × Option Json
validate_protocol_headers headers range =
    if not (present headers.request_id)
    then (
      false,
      some (make_error "REQUEST_ID_MISSING" "Missing required header X-Request-ID." end none),
    )
    else if not (present headers.plugin_version)
    then (
      false,
      some (
          make_error "PLUGIN_VERSION_MISSING" "Missing required header X-Plugin-Version." end
            headers.request_id),
    )
    else if not (present headers.protocol_version)
    then (
      false,
      some (
          make_error "PROTOCOL_VERSION_MISSING" "Missing required header X-Protocol-Version." end
            headers.request_id),
    )
    else compare_versions range (text_of headers.protocol_version) headers.request_id
        (parse_version (text_of headers.protocol_version)) (parse_version range.min_supported)
        (parse_version range.max_supported)

-- PROTOCOL_RANGE of bridge/app.py
abbrev pub protocol_range : ProtocolRange
protocol_range = record { min_supported = "1.2"; max_supported = "1.3" }
