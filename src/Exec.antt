-- ===== src/Exec.antt =====
-- Methods that change an object and may raise. What was written before a raise stays written, so
-- the state comes back beside the error too. `Exn` has a constructor for each class of Python
-- exception that the program raises or catches.
use suno_studio.Prelude.{Bool, Option, none, some, String}
use suno_studio.Errors.{BridgeError}

pub data Exn : Type 0 where
  key_error value_error type_error attribute_error integrity_error file_not_found struct_error : Exn
  expired_request replay_detected : Exn
  -- with the text of the exception
  signature_validation runtime_error timeout_error : String → Exn
  bridge_error : BridgeError → Exn

pub data Result {ℓ} (A : Type ℓ) : Type ℓ where
  ok : A → Result A
  err : Exn → Result A

abbrev pub Exec {ℓ} : Type ℓ → Type ℓ → Type ℓ
Exec S A = S → Result A × S

module _ {ℓ} {S A : Type ℓ} where
  unfoldable pub pure : A → Exec S A
  pure a s = (ok a, s)

  unfoldable pub raise : Exn → Exec S A
  raise e s = (err e, s)

  unfoldable pub gets : (S → A) → Exec S A
  gets f s = (ok (f s), s)

  -- `None` where a value is needed raises `e`.
  unfoldable pub or_raise : Exn → Option A → Exec S A
  unfolding pure raise
  or_raise e none = raise e
  or_raise e (some a) = pure a

  -- The handler of `with self._conn()`: what the body wrote is committed if it returns, and rolled
  -- back if it raises.
  abbrev settle : S → Result A × S → Result A × S
  settle s (ok a, s') = (ok a, s')
  settle s (err e, s') = (err e, s)

  abbrev pub transaction : Exec S A → Exec S A
  transaction m s = settle s (m s)

unfoldable pub modify : {S : Type 0} → (S → S) → Exec S (Unit {0})
modify f s = (ok tt, f s)

unfoldable pub require : {S : Type 0} → Bool → Exn → Exec S (Unit {0})
require Bool.true e s = (ok tt, s)
require Bool.false e s = (err e, s)

module _ {ℓ} {S A B : Type ℓ} where
  abbrev pub proceed : Result A × S → (A → Exec S B) → Result B × S
  proceed (ok a, s) f = f a s
  proceed (err e, s) f = (err e, s)

  infixl 5 ◌>>=◌ ◌>>◌
  -- Opening this opens the actions above too.
  unfoldable pub ◌>>=◌ : Exec S A → (A → Exec S B) → Exec S B
  unfolding pure raise gets or_raise modify require
  ◌>>=◌ m f s = proceed (m s) f

  abbrev pub ◌>>◌ : Exec S A → Exec S B → Exec S B
  m >> n = m >>= λ _. n
