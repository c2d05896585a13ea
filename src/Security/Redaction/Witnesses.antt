-- ===== src/Security/Redaction/Witnesses.antt =====
-- The theorem on redaction, at a concrete text.
use mathlib.Core.List.{mem-cons_self}
use mathlib.Core.List.Perm
use suno_studio.Prelude.{ℕ, List}
use suno_studio.Text.{codes}
use suno_studio.Security.Redaction.{redact_keys, redact_text}
use suno_studio.Security.Redaction.Removes.{IsAbsent, redact_text-removes_keys}

abbrev line : List ℕ
line = codes "authorization: Bearer token, prompt"

redact_text-removes_keys_example :
    IsAbsent (redact_text (λ s. s) redact_keys line) (codes "authorization")
redact_text-removes_keys_example =
    redact_text-removes_keys (λ s. s) redact_keys line Perm.rfl (λ k m gone. gone)
      (codes "authorization") mem-cons_self
