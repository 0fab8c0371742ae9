-- ===== src/Capability/Executor.antt =====
-- services/capability_registry/src/forgeai_capability_registry/executor.py and sdk.py. The log of
-- the implementations' calls is the state.
pub mod Privilege
use forge_ai_autonomous_soft.Common.{ℕ, suc, Option, none, some, List, [], ◌∷◌, ◌++◌, Text, codes}
use forge_ai_autonomous_soft.Common.Outcome.{Outcome, returned, raised, ◌>>=◌, ◌>>◌}
use forge_ai_autonomous_soft.Capability.Errors.{CapabilityError, io_validation, other_exception}
use forge_ai_autonomous_soft.Capability.Permissions.{Permission, check_permissions}
use forge_ai_autonomous_soft.Capability.Definition.{CapabilityDefinition, JsonObject}
use forge_ai_autonomous_soft.Capability.Registry.{
  CapabilityRegistry, get_definition, get_implementation,
}

-- The model router and the prompt registry that a context carries are numbers; `extra` is JSON.
pub record CapabilityContext : Type 0 where
  pub project_id : Option ℕ
  pub organization_id : Option ℕ
  pub workflow_execution_id : Option ℕ
  pub invoked_by_user_id : Option ℕ
  pub model_router : Option ℕ
  pub prompt_registry : Option ℕ
  pub capability_definition : Option CapabilityDefinition
  pub extra : Text

pub record CapabilityResult : Type 0 where
  pub output : Text
  pub reasoning_summary : Option Text

-- What `jsonschema.validate` does: pass, raise its ValidationError, or raise another exception, as
-- for a schema that is no schema.
pub data Validation : Type 0 where
  valid : Validation
  invalid : (reason : Text) → Validation
  broken : (type_name text : Text) → Validation

-- The third-party validator, and what an implementation does at its n-th call.
pub record Outside : Type 0 where
  pub validate_json : JsonObject → Text → Validation
  pub execute : ℕ → ℕ → CapabilityContext → Text → Outcome CapabilityError CapabilityResult

-- An implementation and its input.
abbrev pub Call : Type 0
Call = ℕ × Text

abbrev pub of_validation : Text → Text → Validation → Outcome CapabilityError (Unit {0})
of_validation capability_id kind valid = returned tt
of_validation capability_id kind (invalid reason) = raised (io_validation capability_id kind reason)
of_validation capability_id kind (broken type_name text) = raised (other_exception type_name text)

abbrev pub calls_made : List Call → ℕ
calls_made [] = 0
calls_made (c ∷ cs) = suc (calls_made cs)

module _ (outside : Outside) where
  -- `_validate`
  unfoldable pub validate_data :
      Text → Text → JsonObject → Text → Outcome CapabilityError (Unit {0})
  validate_data capability_id kind schema value =
      of_validation capability_id kind (outside.validate_json schema value)

  -- What comes before the call: the definition and the implementation.
  unfoldable pub admit :
      Text
      → Text
      → Text
      → List Permission
      → CapabilityRegistry
      → Outcome CapabilityError (CapabilityDefinition × ℕ)
  unfolding get_definition get_implementation check_permissions validate_data
  admit capability_id version input_data granted registry = do
    definition ← get_definition capability_id version registry
    check_permissions capability_id definition.permissions granted
    validate_data capability_id (codes "input") definition.input_schema input_data
    implementation ← get_implementation capability_id version registry
    returned (definition, implementation)

  -- What comes after the call.
  unfoldable pub released :
      Text
      → CapabilityDefinition
      → Outcome CapabilityError CapabilityResult
      → Outcome CapabilityError CapabilityResult
  unfolding validate_data
  released capability_id definition answer = do
    result ← answer
    validate_data capability_id (codes "output") definition.output_schema result.output
    returned result

  abbrev pub called :
      Text
      → CapabilityContext
      → Text
      → Outcome CapabilityError (CapabilityDefinition × ℕ)
      → List Call
      → Outcome CapabilityError CapabilityResult × List Call
  called capability_id context input_data (raised e) calls = (raised e, calls)
  called capability_id context input_data (returned (definition, implementation)) calls =
      let execution_context = record context { capability_definition = some definition } in
      (
        released capability_id definition
            (outside.execute (calls_made calls) implementation execution_context input_data),
        calls ++ (implementation, input_data) ∷ [],
      )

  -- `CapabilityExecutor.execute`
  unfoldable pub execute_capability :
      Text
      → Text
      → CapabilityContext
      → Text
      → List Permission
      → CapabilityRegistry
      → List Call
      → Outcome CapabilityError CapabilityResult × List Call
  unfolding admit released
  execute_capability capability_id version context input_data granted registry calls =
      called capability_id context input_data
        (admit capability_id version input_data granted registry) calls
