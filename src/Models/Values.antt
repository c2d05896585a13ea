-- ===== src/Models/Values.antt =====
-- The JSON values of payloads, metadata and manifests: Python's `dict[str, Any]` is `Fields`.
-- Numbers are integers; a fraction in a client's metadata is not modelled.
use suno_studio.Prelude.{
  ℕ, String, Bool, true, false, not, Option, none, some, ◌==◌, eqb, if◌then◌else◌,
}

pub data ℤ : Type 0 where
  pos : ℕ → ℤ
  negsuc : ℕ → ℤ

mutual
  pub data Json : Type 0 where
    null : Json
    bool : Bool → Json
    int : ℤ → Json
    str : String → Json
    arr : Items → Json
    obj : Fields → Json

  pub data Items : Type 0 where
    nil : Items
    cons : Json → Items → Items

  pub data Fields : Type 0 where
    end : Fields
    field : String → Json → Fields → Fields

-- d.get(key)
abbrev pub get : Fields → String → Option Json
get end k = none
get (field j v d) k = if j == k then some v else get d k

-- d[key] = v, which keeps the place of a key that is there
abbrev pub put : Fields → String → Json → Fields
put end k v = field k v end
put (field j w d) k v = if j == k then field j v d else field j w (put d k v)

-- bool(v)
abbrev pub truthy : Json → Bool
truthy null = false
truthy (bool b) = b
truthy (int (pos n)) = not (eqb n 0)
truthy (int (negsuc n)) = true
truthy (str s) = not (s == "")
truthy (arr nil) = false
truthy (arr (cons v vs)) = true
truthy (obj end) = false
truthy (obj (field k v d)) = true

-- `if s` where s is `str | None`
abbrev pub present : Option String → Bool
present none = false
present (some s) = not (s == "")
