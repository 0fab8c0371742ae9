-- ===== src/Tests/Capabilities.antt =====
-- A capability, its runner and a call of it.
use forge_ai_autonomous_soft.Common.{◌↔◌, true, none, some, [], ◌∷◌, Text, codes, ◌≡◌, refl, Option}
use forge_ai_autonomous_soft.Common.Outcome.{returned}
use forge_ai_autonomous_soft.Engine.Definition.{StageDefinition}
use forge_ai_autonomous_soft.Engine.Session.Actions.{StageRunContext}
use forge_ai_autonomous_soft.Capability.Permissions.{Permission}
use forge_ai_autonomous_soft.Capability.Definition.{CapabilityDefinition}
use forge_ai_autonomous_soft.Capability.Registry.{CapabilityRegistry}
use forge_ai_autonomous_soft.Capability.StageRunner.Reference.{
  IsReference, parse_capability_reference, parse_capability_reference_iff,
}
use forge_ai_autonomous_soft.Capability.Executor.{
  CapabilityContext, Outside, valid, execute_capability,
}
use forge_ai_autonomous_soft.Capability.Executor.Privilege.{Executed, execute_capability-Executed}
use forge_ai_autonomous_soft.Capability.StageRunner.{RunnerConfig, run_stage, capability_context}
use forge_ai_autonomous_soft.Capability.StageRunner.Success.{HasRun, run_stage-HasRun}
use forge_ai_autonomous_soft.Tests.Samples.{sample_policy, sample_timeout, sample_stage, plan_key}

abbrev summarize : CapabilityDefinition
summarize = record {
  id = codes "summarize";
  name = codes "Summarize";
  description = [];
  version = codes "1.0.0";
  owner = codes "team";
  input_schema = (codes "type", codes "\"object\"") ∷ [];
  output_schema = (codes "type", codes "\"object\"") ∷ [];
  required_context = [];
  supported_models = [];
  estimated_cost_usd = none;
  timeout = sample_timeout;
  retry_policy = sample_policy;
  permissions = Permission.read_context ∷ [];
  artifacts_produced = [];
}

abbrev sample_capabilities : CapabilityRegistry
sample_capabilities = ((codes "summarize", codes "1.0.0"), (summarize, 3)) ∷ []

abbrev sample_outside : Outside
sample_outside = record {
  validate_json = λ schema value. valid;
  execute = λ n implementation context value.
      returned record { output = codes "{}"; reasoning_summary = none };
}

abbrev sample_config : RunnerConfig
sample_config = record {
  model_router = none;
  prompt_registry = none;
  granted_permissions = Permission.read_context ∷ Permission.execute_code ∷ [];
}

abbrev no_repr : Option Text → Text
no_repr capability_ref = []

abbrev run_context : StageRunContext
run_context = record { workflow_execution_id = 7; project_id = 4; stage_input = codes "{}" }

abbrev summarize_stage : StageDefinition
summarize_stage = record (sample_stage plan_key []) { capability = some (codes "summarize@1.0.0") }

sample_run :
    (run_stage sample_outside no_repr sample_config sample_capabilities summarize_stage run_context
      []).0.success
    ≡ true
unfolding run_stage
sample_run = refl

run_stage-HasRun_example :
    HasRun sample_outside no_repr sample_config sample_capabilities summarize_stage run_context []
      (run_stage sample_outside no_repr sample_config sample_capabilities summarize_stage
        run_context []).0
run_stage-HasRun_example =
    run_stage-HasRun sample_outside no_repr sample_config sample_capabilities summarize_stage
      run_context [] sample_run

abbrev sample_capability_context : CapabilityContext
sample_capability_context =
    capability_context sample_outside no_repr sample_config sample_capabilities run_context

execute_capability-Executed_example :
    Executed sample_outside
      (codes "summarize")
      (codes "1.0.0")
      sample_capability_context
      (codes "{}")
      (Permission.execute_code ∷ [])
      sample_capabilities
      []
      (execute_capability sample_outside
        (codes "summarize")
        (codes "1.0.0")
        sample_capability_context
        (codes "{}")
        (Permission.execute_code ∷ [])
        sample_capabilities
        [])
execute_capability-Executed_example =
    execute_capability-Executed sample_outside (codes "summarize") (codes "1.0.0")
      sample_capability_context (codes "{}") (Permission.execute_code ∷ []) sample_capabilities []

-- The first mark counts.
parse_capability_reference_iff_example :
    (parse_capability_reference (some (codes "a@1@2")) ≡ returned (codes "a", codes "1@2"))
    ↔ IsReference (some (codes "a@1@2")) (codes "a") (codes "1@2")
parse_capability_reference_iff_example =
    parse_capability_reference_iff (some (codes "a@1@2")) (codes "a") (codes "1@2")
