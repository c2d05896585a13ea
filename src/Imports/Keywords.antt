-- ===== src/Imports/Keywords.antt =====
-- What JSON Schema says of the keywords that MANIFEST_SCHEMA of bridge/schemas/manifest_schema.py uses.
use suno_studio.Prelude.{
  String, Bool, true, false, ◌&&◌, ◌||◌, Option, none, some, ◌==◌, leb, length, if◌then◌else◌,
}
use suno_studio.Models.Values.{
  pos, Json, null, bool, int, str, arr, obj, Items, nil, cons, Fields, end, field, get,
}
use suno_studio.Text.{codes}

-- The types of JSON Schema. Every number of the model is an integer.
abbrev pub has_type : String → Json → Bool
has_type t null = t == "null"
has_type t (bool b) = t == "boolean"
has_type t (int n) = t == "integer" || t == "number"
has_type t (str s) = t == "string"
has_type t (arr vs) = t == "array"
has_type t (obj d) = t == "object"

abbrev pub some_type : Items → Json → Bool
some_type nil v = false
some_type (cons (str t) ts) v = has_type t v || some_type ts v
some_type (cons _ ts) v = some_type ts v

-- "type"
abbrev of_type : Json → Json → Bool
of_type (str t) v = has_type t v
of_type (arr ts) v = some_type ts v
of_type _ v = false

abbrev has_all : Items → Fields → Bool
has_all nil d = true
has_all (cons (str k) ks) d = elim (get d k) [ none ↦ false | some v ↦ has_all ks d ]
has_all (cons _ ks) d = has_all ks d

-- "required"
abbrev has_required : Json → Json → Bool
has_required (arr ks) (obj d) = has_all ks d
has_required _ v = true

-- "const", where it is a text
abbrev is_const : Json → Json → Bool
is_const (str s) (str t) = s == t
is_const _ v = false

-- "minLength" and "maxLength"
abbrev is_long : Json → Json → Bool
is_long (int (pos n)) (str s) = leb n (length (codes s))
is_long _ v = true

abbrev is_short : Json → Json → Bool
is_short (int (pos n)) (str s) = leb (length (codes s)) n
is_short _ v = true

abbrev all_named : Fields → Fields → Bool
all_named props end = true
all_named props (field k v d) = elim (get props k) [ none ↦ false | some s ↦ all_named props d ]

abbrev properties_of : Option Json → Fields
properties_of (some (obj props)) = props
properties_of _ = end

-- "additionalProperties", beside the properties of the same schema
abbrev nothing_else : Fields → Json → Json → Bool
nothing_else schema (bool false) (obj d) = all_named (properties_of (get schema "properties")) d
nothing_else schema _ v = true

abbrev all_items : (Json → Bool) → Items → Bool
all_items p nil = true
all_items p (cons v vs) = p v && all_items p vs

abbrev each_item : (Json → Bool) → Json → Bool
each_item p (arr vs) = all_items p vs
each_item p v = true

-- The dict of a value, and what is asked of a property that may be missing.
abbrev optional : (Json → Bool) → Option Json → Bool
optional p none = true
optional p (some v) = p v

abbrev property : Json → String → Option Json
property (obj d) k = get d k
property _ k = none

-- `refers` says what a "$ref" stands for.
module _ (refers : Json → Json → Bool) where
  -- The keywords without schemas inside; others say nothing.
  abbrev holds : Fields → String → Json → Json → Bool
  holds schema k arg v =
      if k == "type"
      then of_type arg v
      else if k == "required"
      then has_required arg v
      else if k == "additionalProperties"
      then nothing_else schema arg v
      else if k == "const"
      then is_const arg v
      else if k == "minLength"
      then is_long arg v
      else if k == "maxLength"
      then is_short arg v
      else if k == "$ref"
      then refers arg v
      else true

  unfoldable mutual
    pub conforms : Json → Json → Bool
    conforms (bool b) v = b
    conforms (obj schema) v = all_hold schema schema v
    conforms _ v = false

    all_hold : Fields → Fields → Json → Bool
    all_hold schema end v = true
    all_hold schema (field k arg more) v =
        (if k == "properties"
          then each_property arg v
          else if k == "items"
          then each_item (conforms arg) v
          else holds schema k arg v)
        && all_hold schema more v

    each_property : Json → Json → Bool
    each_property (obj props) v = all_properties props v
    each_property _ v = true

    all_properties : Fields → Json → Bool
    all_properties end v = true
    all_properties (field k s more) v =
        optional (conforms s) (property v k) && all_properties more v
