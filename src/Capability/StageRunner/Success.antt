-- ===== src/Capability/StageRunner/Success.antt =====
-- What a successful stage has run.
use forge_ai_autonomous_soft.Common.{ℕ, true, Option, List, Text, ◌≡◌, refl}
use forge_ai_autonomous_soft.Common.Outcome.{Outcome, returned, raised}
use forge_ai_autonomous_soft.Engine.Definition.{StageDefinition}
use forge_ai_autonomous_soft.Engine.Session.Actions.{StageRunContext, StageRunResult}
use forge_ai_autonomous_soft.Capability.Errors.{CapabilityError}
use forge_ai_autonomous_soft.Capability.Definition.{CapabilityDefinition}
use forge_ai_autonomous_soft.Capability.Registry.{CapabilityRegistry}
use forge_ai_autonomous_soft.Capability.Executor.{
  CapabilityResult, Outside, valid, Call, execute_capability,
}
use forge_ai_autonomous_soft.Capability.Executor.Privilege.{
  MayRun, answer_of, execute_capability-returned,
}
use forge_ai_autonomous_soft.Capability.StageRunner.{
  RunnerConfig, capability_context, stage_result, run_reference, run_stage,
}
use forge_ai_autonomous_soft.Capability.StageRunner.Reference.{
  InvalidCapabilityReference, invalid_capability_reference, parse_capability_reference, IsReference,
  parse_capability_reference_iff,
}

module _ (outside : Outside) (repr : Option Text → Text) (config : RunnerConfig)
    (registry : CapabilityRegistry) where
  -- A stage whose capability ran, and whose output is the capability's.
  pub record HasRun (stage : StageDefinition) (context : StageRunContext) (calls : List Call)
      (result : StageRunResult) : Type 0 where
    pub capability_id : Text
    pub version : Text
    pub definition : CapabilityDefinition
    pub implementation : ℕ
    pub answer : CapabilityResult
    pub is_reference : IsReference stage.capability capability_id version
    pub may_run :
        MayRun outside capability_id version context.stage_input config.granted_permissions registry
          definition implementation
    pub answered :
        answer_of outside
          (capability_context outside repr config registry context)
          context.stage_input
          definition
          implementation
          calls
        ≡ returned answer
    pub output_valid : outside.validate_json definition.output_schema answer.output ≡ valid
    pub same_output : result.output ≡ answer.output

  -- A stage that the runner reports as successful names, as `id@version`, a registered capability
  -- that may run on the stage's input with the runner's permissions; its implementation was called
  -- and returned, with an output that its schema admits, and the stage's output is this output.
  pub run_stage-HasRun :
      (stage : StageDefinition) (context : StageRunContext) (calls : List Call)
      → (run_stage outside repr config registry stage context calls).0.success ≡ true
      → HasRun stage context calls (run_stage outside repr config registry stage context calls).0
  unfolding run_stage
  run_stage-HasRun stage context calls = go (parse_capability_reference stage.capability) refl
    where
      run : Text → Text → Outcome CapabilityError CapabilityResult × List Call
      run capability_id version =
          execute_capability outside capability_id version
            (capability_context outside repr config registry context) context.stage_input
            config.granted_permissions registry calls

      ran :
          (capability_id version : Text)
          → parse_capability_reference stage.capability ≡ returned (capability_id, version)
          → (o : Outcome CapabilityError CapabilityResult) → (run capability_id version).0 ≡ o
          → (stage_result o).success ≡ true
          → HasRun stage context calls (stage_result o)
      ran i v e (raised x) k h = absurd (cc)
      ran i v e (returned answer) k h =
          let facts =
            execute_capability-returned outside i v
              (capability_context outside repr config registry context) context.stage_input
              config.granted_permissions registry calls answer k in
          record {
            capability_id = i;
            version = v;
            definition = facts.0;
            implementation = facts.1;
            answer = answer;
            is_reference = (parse_capability_reference_iff stage.capability i v).0 e;
            may_run = facts.2;
            answered = facts.3;
            output_valid = facts.4;
            same_output = refl;
          }

      go :
          (p : Outcome InvalidCapabilityReference (Text × Text))
          → parse_capability_reference stage.capability ≡ p
          → (run_reference outside repr config registry p context calls).0.success ≡ true
          → HasRun stage context calls
              (run_reference outside repr config registry p context calls).0
      go (raised (invalid_capability_reference r)) e h = absurd (cc)
      go (returned (i, v)) e h = ran i v e (run i v).0 refl h
