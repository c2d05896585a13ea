-- ===== src/Security/Redaction.antt =====
-- bridge_security.py: RedactingFormatter. A text is the list of its code points.
pub mod Replaced
pub mod Removes
pub mod Witnesses
use suno_studio.Prelude.{
  ℕ, zero, suc, ◌-◌, Bool, true, false, not, ◌&&◌, ◌||◌, List, [], ◌∷◌, ◌++◌, any, eqb, length,
  if◌then◌else◌,
}
use suno_studio.Text.{codes}

-- REDACT_KEYS
abbrev redact_keys : List (List ℕ)
redact_keys =
    codes "authorization"
    ∷ codes "cookie"
    ∷ codes "set-cookie"
    ∷ codes "token"
    ∷ codes "access_token"
    ∷ codes "refresh_token"
    ∷ codes "prompt"
    ∷ codes "session"
    ∷ []

-- text.startswith(key)
pub starts_with : List ℕ → List ℕ → Bool
starts_with [] text = true
starts_with (a ∷ key) [] = false
starts_with (a ∷ key) (c ∷ text) = eqb a c && starts_with key text

-- key in text
pub within : List ℕ → List ℕ → Bool
unfolding starts_with
within key [] = starts_with key []
within key (c ∷ text) = starts_with key (c ∷ text) || within key text

abbrev first_two : List ℕ → List ℕ
first_two (a ∷ b ∷ key) = a ∷ b ∷ []
first_two key = key

-- f"{key[:2]}***"
abbrev masked : List ℕ → List ℕ
masked key = first_two key ++ b'*' ∷ b'*' ∷ b'*' ∷ []

-- `text.replace(key, masked key)`, after `skip` more characters of an occurrence that was replaced
pub replace_after : ℕ → List ℕ → List ℕ → List ℕ
unfolding starts_with
replace_after skip key [] = []
replace_after (suc skip) key (c ∷ text) = replace_after skip key text
replace_after zero key (c ∷ text) =
    let found = starts_with key (c ∷ text) in
    (if found then masked key else c ∷ [])
    ++ replace_after (if found then length key - 1 else 0) key text

replace_each : List (List ℕ) → List ℕ → List ℕ
unfolding replace_after
replace_each [] text = text
replace_each (key ∷ keys) text = replace_each keys (replace_after 0 key text)

record LogRecord : Type 0 where
  pub levelname : List ℕ
  pub message : List ℕ

-- `lower` is `str.lower`, and `keys` is REDACT_KEYS in the order in which the set is gone through.
module _ (lower : List ℕ → List ℕ) (keys : List (List ℕ)) where
  pub redact_text : List ℕ → List ℕ
  unfolding replace_each within
  redact_text text =
      let lowered = lower text in
      if not (any (λ k. within k lowered) keys) then text else replace_each keys text

  -- RedactingFormatter.format, where `default_format` is that of the class above.
  format : (LogRecord → List ℕ) → Bool → LogRecord → List ℕ
  format default_format secure_debug entry =
      if secure_debug
      then default_format entry
      else entry.levelname ++ b' ' ∷ redact_text entry.message
