-- ===== src/Json.antt =====
-- JSON values and `canonicalJson` (src/workflow-operations/workflow-operation.service.ts), by which
-- requests are compared. Numbers are integers: what the service hashes are versions and texts.
pub mod Canonical
use jagalchi_api.Base.{String, Bool, Option, none, some, str_eq, if◌then◌else◌}
use jagalchi_api.Base.Int.{ℤ}

mutual
  pub data Json : Type 0 where
    null : Json
    bool : Bool → Json
    num : ℤ → Json
    text : String → Json
    arr : Items → Json
    obj : Fields → Json

  pub data Items : Type 0 where
    nil : Items
    cons : Json → Items → Items

  pub data Fields : Type 0 where
    end : Fields
    field : String → Json → Fields → Fields

-- `value[key]`, the first entry of that key.
unfoldable pub get_field : String → Fields → Option Json
get_field k end = none
get_field k (field j v fs) = let rest = get_field k fs in if str_eq j k then some v else rest

-- `value.key` of a value that is an object.
abbrev pub member : String → Json → Option Json
member k (obj fs) = get_field k fs
member k _ = none
