-- ===== src/Json/Canonical.antt =====
-- `canonicalJson` (src/workflow-operations/workflow-operation.service.ts): the entries of an object
-- are sorted by key. `localeCompare`, `JSON.stringify` of a scalar and SHA-256 belong to the runtime.
use Prim.Native.String.{◌++◌}
use jagalchi_api.Base.{String, Bool, List, [], ◌∷◌, if◌then◌else◌}
use jagalchi_api.Json.{Json, Items, Fields, null, bool, num, text, arr, obj, nil, cons, end, field}

pub record Runtime : Type 0 where
  -- `left.localeCompare(right) < 0`
  pub locale_lt : String → String → Bool
  -- `JSON.stringify(value)` of a value that is neither an array nor an object.
  pub stringify : Json → String
  pub sha256 : String → String

module _ (rt : Runtime) where
  open rt use {locale_lt, stringify, sha256}

  -- `[].join(',')`
  unfoldable pub join : List String → String
  join [] = ""
  join (s ∷ []) = s
  join (s ∷ t ∷ ts) = s ++ ("," ++ join (t ∷ ts))

  -- An entry is put in front of the first one that comes after it (`sort` is stable).
  unfoldable pub insert_entry : String → String → List (String × String) → List (String × String)
  insert_entry k v [] = (k, v) ∷ []
  insert_entry k v ((j, w) ∷ es) =
      let rest = insert_entry k v es in
      if locale_lt j k then (j, w) ∷ rest else (k, v) ∷ (j, w) ∷ es

  unfoldable pub entries_text : List (String × String) → List String
  entries_text [] = []
  entries_text ((k, v) ∷ es) = (stringify (text k) ++ (":" ++ v)) ∷ entries_text es

  unfoldable mutual
    pub canonical_json : Json → String
    canonical_json null = stringify null
    canonical_json (bool b) = stringify (bool b)
    canonical_json (num n) = stringify (num n)
    canonical_json (text s) = stringify (text s)
    canonical_json (arr xs) = "[" ++ (join (canonical_items xs) ++ "]")
    canonical_json (obj fs) = "{" ++ (join (entries_text (canonical_fields fs)) ++ "}")

    pub canonical_items : Items → List String
    canonical_items nil = []
    canonical_items (cons x xs) = canonical_json x ∷ canonical_items xs

    pub canonical_fields : Fields → List (String × String)
    canonical_fields end = []
    canonical_fields (field k v fs) = insert_entry k (canonical_json v) (canonical_fields fs)

  -- `createHash('sha256').update(canonicalJson(input)).digest('hex')`
  unfoldable pub input_hash : Json → String
  input_hash v = sha256 (canonical_json v)
