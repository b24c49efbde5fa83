-- ===== src/Evaluator/Digest.antt =====
-- `stable` and `verificationFactsDigest` (src/verification-providers/verification-evaluator.ts).
-- `JSON.stringify` of an array or an object is written out over that of the scalars.
use Prim.Native.String.{◌++◌}
use jagalchi_api.Base.{String, List, [], ◌∷◌, if◌then◌else◌}
use jagalchi_api.Json.{Json, Items, Fields, null, bool, num, text, arr, obj, nil, cons, end, field}
use jagalchi_api.Json.Canonical.{Runtime, join}

module _ (rt : Runtime) where
  unfoldable pub insert_field : String → Json → Fields → Fields
  insert_field k v end = field k v end
  insert_field k v (field j w fs) =
      let rest = insert_field k v fs in
      if rt.locale_lt j k then field j w rest else field k v (field j w fs)

  unfoldable mutual
    pub stable : Json → Json
    stable null = null
    stable (bool b) = bool b
    stable (num n) = num n
    stable (text s) = text s
    stable (arr xs) = arr (stable_items xs)
    stable (obj fs) = obj (stable_fields fs)

    pub stable_items : Items → Items
    stable_items nil = nil
    stable_items (cons x xs) = cons (stable x) (stable_items xs)

    pub stable_fields : Fields → Fields
    stable_fields end = end
    stable_fields (field k v fs) = insert_field k (stable v) (stable_fields fs)

  unfoldable mutual
    pub json_text : Json → String
    json_text null = rt.stringify null
    json_text (bool b) = rt.stringify (bool b)
    json_text (num n) = rt.stringify (num n)
    json_text (text s) = rt.stringify (text s)
    json_text (arr xs) = "[" ++ (join rt (item_texts xs) ++ "]")
    json_text (obj fs) = "{" ++ (join rt (field_texts fs) ++ "}")

    pub item_texts : Items → List String
    item_texts nil = []
    item_texts (cons x xs) = json_text x ∷ item_texts xs

    pub field_texts : Fields → List String
    field_texts end = []
    field_texts (field k v fs) = (rt.stringify (text k) ++ (":" ++ json_text v)) ∷ field_texts fs

  unfoldable pub verification_facts_digest : Json → String
  unfolding stable json_text
  verification_facts_digest v = rt.sha256 (json_text (stable v))
