-- ===== src/Capability/Definition.antt =====
-- services/capability_registry/src/forgeai_capability_registry/definition.py and loader.py. A JSON
-- object is its keys with the texts of their values. `parse_version` is the one of
-- Engine/Version.antt, to which the source's is identical.
use forge_ai_autonomous_soft.Common.{
  is_empty, not, Bool, false, ◌&&◌, Option, none, some, List, [], ◌∷◌, Text, text_eq, codes, Dict,
  lookup, ◌==◌, if◌then◌else◌,
}
use forge_ai_autonomous_soft.Common.Outcome.{Outcome, returned, raised, ensure, ◌>>◌}
use forge_ai_autonomous_soft.Core.{Float, RetryPolicy, TimeoutPolicy}
use forge_ai_autonomous_soft.Engine.Version.{Unicode, parse_version}
use forge_ai_autonomous_soft.Capability.Errors.{
  CapabilityError, capability_validation, invalid_schema, message, version_checked,
}
use forge_ai_autonomous_soft.Capability.Permissions.{Permission}

abbrev pub JsonObject : Type 0
JsonObject = Dict Text Text

pub record CapabilityDefinition : Type 0 where
  pub id : Text
  pub name : Text
  pub description : Text
  pub version : Text
  pub owner : Text
  pub input_schema : JsonObject
  pub output_schema : JsonObject
  pub required_context : List Text
  pub supported_models : List Text
  pub estimated_cost_usd : Option Float
  pub timeout : TimeoutPolicy
  pub retry_policy : RetryPolicy
  pub permissions : List Permission
  pub artifacts_produced : List Text

-- `schema.get("type") != "object"`
abbrev declares_object : JsonObject → Bool
declares_object schema = elim (lookup (codes "type") schema) [
  | none ↦ false
  | some t ↦ t == codes "\"object\""
]

abbrev shape_of : Text → JsonObject → Outcome CapabilityError JsonObject
shape_of field [] = raised (invalid_schema field (codes "schema is empty."))
shape_of field (entry ∷ entries) =
    if declares_object (entry ∷ entries)
    then returned (entry ∷ entries)
    else raised (invalid_schema field (codes "root schema must declare \"type\": \"object\"."))

unfoldable pub validate_json_schema_shape : Text → JsonObject → Outcome CapabilityError JsonObject
validate_json_schema_shape field schema = shape_of field schema

-- `values_ok` is what pydantic says of the numbers: the cost and the policies are in their ranges.
-- Of several failures pydantic reports all; here the first stands for them.
module _ (unicode : Unicode) (values_ok : CapabilityDefinition → Bool) (reason : Text) where
  unfoldable pub model_validate_capability :
      CapabilityDefinition → Outcome CapabilityError CapabilityDefinition
  unfolding parse_version validate_json_schema_shape
  model_validate_capability d = do
    ensure (not (is_empty d.id) && not (is_empty d.name) && not (is_empty d.owner) && values_ok d)
        (capability_validation reason)
    version_checked (parse_version unicode d.version)
    validate_json_schema_shape (codes "input_schema") d.input_schema
    validate_json_schema_shape (codes "output_schema") d.output_schema
    returned d

  abbrev as_validation :
      Outcome CapabilityError CapabilityDefinition → Outcome CapabilityError CapabilityDefinition
  as_validation (returned d) = returned d
  as_validation (raised e) = raised (capability_validation (message e))

  -- `CapabilityLoader.load_from_dict`
  unfoldable pub load_capability_from_dict :
      CapabilityDefinition → Outcome CapabilityError CapabilityDefinition
  unfolding model_validate_capability
  load_capability_from_dict d = as_validation (model_validate_capability d)

  -- `json_loads` gives the data, or the text of its error.
  abbrev decoded : Text → Option CapabilityDefinition → Outcome CapabilityError CapabilityDefinition
  decoded detail none = raised (capability_validation detail)
  decoded detail (some d) = load_capability_from_dict d

  -- `CapabilityLoader.load_from_json`
  unfoldable pub load_capability_from_json :
      (Text → Option CapabilityDefinition)
      → Text
      → Text
      → Outcome CapabilityError CapabilityDefinition
  unfolding load_capability_from_dict
  load_capability_from_json json_loads detail raw = decoded detail (json_loads raw)
