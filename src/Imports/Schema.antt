-- ===== src/Imports/Schema.antt =====
-- bridge/schemas/manifest_schema.py: MANIFEST_SCHEMA, and which manifests conform to it.
use suno_studio.Prelude.{String, Bool, true, false, List, [], ◌∷◌, ◌==◌, if◌then◌else◌}
use suno_studio.Models.Values.{
  pos, Json, bool, int, str, arr, obj, Items, nil, cons, Fields, end, field,
}
use suno_studio.Imports.Keywords.{conforms}

-- A dict and a list of texts, as they are written out.
abbrev fields : List (String × Json) → Fields
fields [] = end
fields ((k, v) ∷ more) = field k v (fields more)

abbrev dict : List (String × Json) → Json
dict entries = obj (fields entries)

abbrev pub items : List String → Items
items [] = nil
items (t ∷ more) = cons (str t) (items more)

abbrev pub texts : List String → Json
texts ts = arr (items ts)

abbrev pub source_format_schema : Json
source_format_schema = dict (
    ("type", str "object")
    ∷ (
      "properties",
      dict (
          ("container", dict (("type", str "string") ∷ []))
          ∷ ("sampleRateHz", dict (("type", str "integer") ∷ []))
          ∷ ("channels", dict (("type", str "integer") ∷ []))
          ∷ ("sampleWidthBytes", dict (("type", str "integer") ∷ []))
          ∷ ("interleaved", dict (("type", str "boolean") ∷ []))
          ∷ []),
    )
    ∷ ("required", texts ("container" ∷ []))
    ∷ ("additionalProperties", bool true)
    ∷ [])

abbrev pub analysis_schema : Json
analysis_schema = dict (
    ("type", str "object")
    ∷ (
      "properties",
      dict (
          ("integratedLUFS", dict (("type", texts ("number" ∷ "null" ∷ [])) ∷ []))
          ∷ ("truePeakDbfs", dict (("type", texts ("number" ∷ "null" ∷ [])) ∷ []))
          ∷ ("peakDbfs", dict (("type", texts ("number" ∷ "null" ∷ [])) ∷ []))
          ∷ []),
    )
    ∷ ("required", texts ("integratedLUFS" ∷ "truePeakDbfs" ∷ "peakDbfs" ∷ []))
    ∷ ("additionalProperties", bool false)
    ∷ [])

abbrev pub checksum_schema : Json
checksum_schema = dict (
    ("type", str "object")
    ∷ (
      "properties",
      dict (
          ("algorithm", dict (("const", str "sha256") ∷ []))
          ∷ (
            "value",
            dict (
                ("type", str "string")
                ∷ ("minLength", int (pos 64))
                ∷ ("maxLength", int (pos 64))
                ∷ []),
          )
          ∷ []),
    )
    ∷ ("required", texts ("algorithm" ∷ "value" ∷ []))
    ∷ ("additionalProperties", bool false)
    ∷ [])

abbrev original_schema : Json
original_schema = dict (
    ("type", str "object")
    ∷ (
      "properties",
      dict (
          ("path", dict (("type", str "string") ∷ []))
          ∷ ("lineage", dict (("type", str "object") ∷ []))
          ∷ []),
    )
    ∷ ("required", texts ("path" ∷ "lineage" ∷ []))
    ∷ ("additionalProperties", bool true)
    ∷ [])

abbrev lineage_schema : Json
lineage_schema = dict (
    ("type", str "object")
    ∷ (
      "properties",
      dict (
          ("type", dict (("type", str "string") ∷ []))
          ∷ ("source", dict (("type", str "string") ∷ []))
          ∷ ("method", dict (("type", str "string") ∷ []))
          ∷ (
            "normalization",
            dict (
                ("type", str "object")
                ∷ (
                  "properties",
                  dict (
                      ("enabled", dict (("type", str "boolean") ∷ []))
                      ∷ ("targetIntegratedLUFS", dict (("type", str "number") ∷ []))
                      ∷ ("truePeakCeilingDbfs", dict (("type", str "number") ∷ []))
                      ∷ []),
                )
                ∷ ("additionalProperties", bool false)
                ∷ []),
          )
          ∷ []),
    )
    ∷ ("required", texts ("type" ∷ []))
    ∷ ("additionalProperties", bool true)
    ∷ [])

abbrev pub derived_format_schema : Json
derived_format_schema = dict (
    ("type", str "object")
    ∷ ("required", texts ("path" ∷ "format" ∷ "lineage" ∷ "checksum" ∷ []))
    ∷ (
      "properties",
      dict (
          ("path", dict (("type", str "string") ∷ []))
          ∷ ("format", dict (("type", str "object") ∷ []))
          ∷ ("analysis", dict (("$ref", str "#/$defs/analysis") ∷ []))
          ∷ ("checksum", dict (("$ref", str "#/$defs/checksum") ∷ []))
          ∷ ("lineage", lineage_schema)
          ∷ []),
    )
    ∷ ("additionalProperties", bool true)
    ∷ [])

-- $defs
abbrev shared_analysis_schema : Json
shared_analysis_schema = dict (
    ("type", str "object")
    ∷ (
      "properties",
      dict (
          ("integratedLUFS", dict (("type", texts ("number" ∷ "null" ∷ [])) ∷ []))
          ∷ ("truePeakDbfs", dict (("type", texts ("number" ∷ "null" ∷ [])) ∷ []))
          ∷ ("peakDbfs", dict (("type", texts ("number" ∷ "null" ∷ [])) ∷ []))
          ∷ []),
    )
    ∷ ("required", texts ("integratedLUFS" ∷ "truePeakDbfs" ∷ "peakDbfs" ∷ []))
    ∷ [])

abbrev shared_checksum_schema : Json
shared_checksum_schema = dict (
    ("type", str "object")
    ∷ (
      "properties",
      dict (
          ("algorithm", dict (("const", str "sha256") ∷ []))
          ∷ (
            "value",
            dict (
                ("type", str "string")
                ∷ ("minLength", int (pos 64))
                ∷ ("maxLength", int (pos 64))
                ∷ []),
          )
          ∷ []),
    )
    ∷ ("required", texts ("algorithm" ∷ "value" ∷ []))
    ∷ [])

-- MANIFEST_SCHEMA
abbrev manifest_schema : Json
manifest_schema = dict (
    ("$schema", str "https://json-schema.org/draft/2020-12/schema")
    ∷ ("title", str "Bridge Audio Import Manifest")
    ∷ ("type", str "object")
    ∷ (
      "required",
      texts (
          "id" ∷ "sourcePath" ∷ "sourceFormat" ∷ "analysis" ∷ "checksum" ∷ "original"
          ∷ "derivedFormats" ∷ []),
    )
    ∷ (
      "properties",
      dict (
          ("id", dict (("type", str "string") ∷ []))
          ∷ ("sourcePath", dict (("type", str "string") ∷ []))
          ∷ ("sourceFormat", source_format_schema)
          ∷ ("analysis", analysis_schema)
          ∷ ("checksum", checksum_schema)
          ∷ ("original", original_schema)
          ∷ ("derivedFormats", dict (("type", str "array") ∷ ("items", derived_format_schema) ∷ []))
          ∷ []),
    )
    ∷ (
      "$defs",
      dict (("analysis", shared_analysis_schema) ∷ ("checksum", shared_checksum_schema) ∷ []),
    )
    ∷ ("additionalProperties", bool false)
    ∷ [])

-- What a reference of MANIFEST_SCHEMA stands for; the schemas of `$defs` have none themselves.
unfoldable pub refers : Json → Json → Bool
refers (str r) v =
    if r == "#/$defs/analysis"
    then conforms (λ r v. false) shared_analysis_schema v
    else if r == "#/$defs/checksum"
    then conforms (λ r v. false) shared_checksum_schema v
    else false
refers _ v = false

-- A manifest conforms to MANIFEST_SCHEMA.
unfoldable pub conforms_to_schema : Fields → Bool
conforms_to_schema manifest = conforms refers manifest_schema (obj manifest)
