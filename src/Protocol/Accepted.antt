-- ===== src/Protocol/Accepted.antt =====
-- bridge/middleware.py: `validate_protocol_headers` with the range of the bridge, 1.2 to 1.3.
use suno_studio.Prelude.{
  String, ◌≡◌, ◌⊎◌, ◌↔◌, refl, inl, inr, true, false, Option, none, some, List, [], ◌∷◌, arith, sym,
  ◌∙◌, Bool-cases, Option-cases, ◌==◌,
}
use suno_studio.Models.Values.{ℤ, pos, present}
use suno_studio.Text.{parse_int}
use suno_studio.Protocol.{
  Headers, split_dots, parse_version, int_lt, int_eq, version_lt, compare_versions, text_of,
  validate_protocol_headers, protocol_range,
}

-- 1.3 itself, and 1.2 with anything behind it.
abbrev pub IsSupported : List ℤ → Type 0
IsSupported v = ((r : List ℤ) × (v ≡ pos 1 ∷ pos 2 ∷ r)) ⊎ (v ≡ pos 1 ∷ pos 3 ∷ [])

abbrev pub low : List ℤ
low = pos 1 ∷ pos 2 ∷ []

abbrev pub high : List ℤ
high = pos 1 ∷ pos 3 ∷ []

second_part :
    (a b : ℤ) (r : List ℤ)
    → version_lt (a ∷ b ∷ r) low ≡ false
    → version_lt high (a ∷ b ∷ r) ≡ false
    → (a ≡ pos 1) × ((b ≡ pos 2) ⊎ ((b ≡ pos 3) × (r ≡ [])))
unfolding version_lt int_lt int_eq
second_part a b [] h k = ground arith
second_part a b (c ∷ r) h k = ground arith

one_part : (a : ℤ) → version_lt (a ∷ []) low ≡ false → version_lt high (a ∷ []) ≡ false → ⊥
unfolding version_lt int_lt int_eq
one_part a h k = ground arith

pub supported : (v : List ℤ) → version_lt v low ≡ false → version_lt high v ≡ false → IsSupported v
supported [] h k = absurd (unfold version_lt in cc h)
supported (a ∷ []) h k = absurd (one_part a h k)
supported (a ∷ b ∷ r) h k =
    let (first, cases) = second_part a b r h k in
    elim cases [
      | inl two ↦ inl (r, cc (first, two))
      | inr three ↦ inr (cc (first, three.0, three.1))
    ]

version_lt-nil : (v : List ℤ) → version_lt v [] ≡ false
unfolding version_lt
version_lt-nil [] = refl
version_lt-nil (a ∷ v) = refl

pub in_range :
    (v : List ℤ) → IsSupported v → (version_lt v low ≡ false) × (version_lt high v ≡ false)
unfolding version_lt int_lt int_eq
in_range v (inl (r, e)) = rw e (version_lt-nil r, refl)
in_range v (inr e) = rw e (refl, refl)

-- The bridge's own range parses.
pub range_parses : (parse_version "1.2" ≡ some low) × (parse_version "1.3" ≡ some high)
unfolding parse_version split_dots parse_int
range_parses = (refl, refl)

-- A header that parses is there.
parsed-present :
    (o : Option String) {v : List ℤ} → parse_version (text_of o) ≡ some v → present o ≡ true
unfolding parse_version
parsed-present none h = absurd (cc h)
parsed-present (some s) {v} h = elim (Bool-cases (s == "")) [
  | inl y ↦ let no_way : none ≡ some v = rw y at h in cc
  | inr n ↦ rw n
]

module _ (requested : String) (request_id : Option String) (v : List ℤ) where
  compared :
      ((compare_versions protocol_range requested request_id (some v) (some low) (some high)).0
        ≡ true)
      ↔ ((version_lt v low ≡ false) × (version_lt high v ≡ false))
  unfolding compare_versions
  compared = (λ h. ground arith, λ h. ground arith)

abbrev pub Passes : Headers → Type 0
Passes headers =
    (present headers.request_id ≡ true)
    × (present headers.plugin_version ≡ true)
    × (v : List ℤ) × (parse_version (text_of headers.protocol_version) ≡ some v)
    × IsSupported v

refused-present :
    (headers : Headers)
    → (validate_protocol_headers headers protocol_range).0 ≡ true
    → (present headers.request_id ≡ true)
      × (present headers.plugin_version ≡ true)
      × (present headers.protocol_version ≡ true)
unfolding validate_protocol_headers
refused-present headers h = ground arith

-- With the three headers there, the versions decide.
compared_last :
    (headers : Headers)
    → present headers.request_id ≡ true
    → present headers.plugin_version ≡ true
    → present headers.protocol_version ≡ true
    → validate_protocol_headers headers protocol_range
      ≡ compare_versions protocol_range
          (text_of headers.protocol_version)
          headers.request_id
          (parse_version (text_of headers.protocol_version))
          (some low)
          (some high)
unfolding validate_protocol_headers
compared_last headers a b c = rw (a, b, c, range_parses.0, range_parses.1)

unparsed :
    (requested : String) (request_id : Option String)
    → (compare_versions protocol_range requested request_id none (some low) (some high)).0 ≡ false
unfolding compare_versions
unparsed requested request_id = refl

Passes-if :
    (headers : Headers)
    → Passes headers
    → (validate_protocol_headers headers protocol_range).0 ≡ true
Passes-if headers (a, b, v, e, s) =
    rw (compared_last headers a b (parsed-present headers.protocol_version e), e)
      ((compared (text_of headers.protocol_version) headers.request_id v).1 (in_range v s))

Passes-only_if :
    (headers : Headers)
    → (validate_protocol_headers headers protocol_range).0 ≡ true
    → Passes headers
Passes-only_if headers h =
    let (a, b, c) = refused-present headers h in
    elim (Option-cases (parse_version (text_of headers.protocol_version))) [
      | inl e ↦
          let no_way : true ≡ false =
            sym (rw (compared_last headers a b c, e) at h)
            ∙ unparsed (text_of headers.protocol_version) headers.request_id in
          cc
      | inr (v, e) ↦
          let (l, r) =
            (compared (text_of headers.protocol_version) headers.request_id v).0
              (rw (compared_last headers a b c, e) at h) in
          (a, b, v, e, supported v l r)
    ]

-- A request passes exactly if it has a request id and a plugin version, and its protocol version
-- parses to 1.3, or to 1.2 with any parts behind it.
pub validate_protocol_headers_iff :
    (headers : Headers)
    → ((validate_protocol_headers headers protocol_range).0 ≡ true) ↔ Passes headers
validate_protocol_headers_iff headers = (Passes-only_if headers, Passes-if headers)
