-- ===== src/Capability/StageRunner.antt =====
-- services/capability_registry/src/forgeai_capability_registry/stage_runner.py: the stage runner that
-- runs capabilities.
pub mod Reference
pub mod Success
use forge_ai_autonomous_soft.Common.{
  ℕ, Bool, true, false, Option, none, some, List, [], ◌∷◌, ◌++◌, Text, codes, if◌then◌else◌,
}
use forge_ai_autonomous_soft.Common.Outcome.{Outcome, returned, raised}
use forge_ai_autonomous_soft.Engine.Definition.{StageDefinition}
use forge_ai_autonomous_soft.Engine.Session.Actions.{StageRunContext, StageRunResult}
use forge_ai_autonomous_soft.Capability.Errors.{CapabilityError, other_exception, message}
use forge_ai_autonomous_soft.Capability.Permissions.{Permission}
use forge_ai_autonomous_soft.Capability.Registry.{CapabilityRegistry}
use forge_ai_autonomous_soft.Capability.Executor.{
  CapabilityContext, CapabilityResult, Outside, Call, execute_capability,
}
use forge_ai_autonomous_soft.Capability.StageRunner.Reference.{
  InvalidCapabilityReference, invalid_capability_reference, parse_capability_reference,
}

-- What a `CapabilityStageRunner` holds besides its executor.
pub record RunnerConfig : Type 0 where
  pub model_router : Option ℕ
  pub prompt_registry : Option ℕ
  pub granted_permissions : List Permission

abbrev pub failed_with : Text → StageRunResult
failed_with text = record { success = false; output = []; error = some text }

-- `f"{type(exc).__name__}: {exc}"`, and `str(exc)` for the registry's errors.
abbrev pub failure_text : CapabilityError → Text
failure_text (other_exception type_name text) = type_name ++ codes ": " ++ text
failure_text e = message e

abbrev pub stage_result : Outcome CapabilityError CapabilityResult → StageRunResult
stage_result (returned result) = record { success = true; output = result.output; error = none }
stage_result (raised e) = failed_with (failure_text e)

module _ (outside : Outside) (repr : Option Text → Text) (config : RunnerConfig)
    (registry : CapabilityRegistry) where
  abbrev reference_message : Option Text → Text
  reference_message capability_ref =
      codes "Stage capability reference "
      ++ repr capability_ref
      ++ codes " is not in the required 'capability_id@version' shape."

  abbrev pub capability_context : StageRunContext → CapabilityContext
  capability_context context = record {
    project_id = some context.project_id;
    organization_id = none;
    workflow_execution_id = some context.workflow_execution_id;
    invoked_by_user_id = none;
    model_router = config.model_router;
    prompt_registry = config.prompt_registry;
    capability_definition = none;
    extra = codes "{}";
  }

  abbrev pub run_reference :
      Outcome InvalidCapabilityReference (Text × Text)
      → StageRunContext
      → List Call
      → StageRunResult × List Call
  run_reference (raised (invalid_capability_reference capability_ref)) context calls =
      (failed_with (reference_message capability_ref), calls)
  run_reference (returned (capability_id, version)) context calls =
      let answer =
        execute_capability outside capability_id version (capability_context context)
          context.stage_input config.granted_permissions registry calls in
      (stage_result answer.0, answer.1)

  -- `CapabilityStageRunner.run`
  unfoldable pub run_stage :
      StageDefinition → StageRunContext → List Call → StageRunResult × List Call
  unfolding parse_capability_reference execute_capability
  run_stage stage context calls =
      run_reference (parse_capability_reference stage.capability) context calls
