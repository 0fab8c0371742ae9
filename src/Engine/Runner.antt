-- ===== src/Engine/Runner.antt =====
-- services/workflow_engine/src/forgeai_workflow_engine/runner.py: the two reference runners, and the
-- rollback that does nothing.
use forge_ai_autonomous_soft.Common.{
  true, false, elem, none, some, List, [], ◌∷◌, ◌++◌, Text, text_eq, codes, if◌then◌else◌,
}
use forge_ai_autonomous_soft.Engine.Definition.{StageDefinition}
use forge_ai_autonomous_soft.Engine.Session.Rows.{Json}
use forge_ai_autonomous_soft.Engine.Session.Actions.{StageRunContext, StageRunResult}

-- `UnconfiguredStageRunner.run`
unfoldable pub unconfigured_run : StageDefinition → StageRunContext → StageRunResult
unconfigured_run stage context = record {
  success = false;
  output = [];
  error = some (
      codes "No capability execution is configured for stage '"
      ++ stage.id
      ++ codes "' yet — the Capability Executor / AI Execution Pipeline hasn't been built.");
}

pub record FakeStageRunner : Type 0 where
  pub fail_stage_keys : List Text
  pub run_calls : List Text
  pub rollback_calls : List Text

-- `{"stage_id": stage.id}`; the JSON text of a string is a parameter.
abbrev stage_output : (Text → Json) → Text → Json
stage_output json_text stage_id = codes "{\"stage_id\": " ++ json_text stage_id ++ codes "}"

-- `FakeStageRunner.run`
unfoldable pub fake_run :
    (Text → Json)
    → StageDefinition
    → StageRunContext
    → FakeStageRunner
    → StageRunResult × FakeStageRunner
fake_run json_text stage context runner =
    let after = record runner { run_calls = runner.run_calls ++ stage.id ∷ [] } in
    if elem stage.id runner.fail_stage_keys
    then (
      record {
        success = false;
        output = [];
        error = some (codes "stage '" ++ stage.id ++ codes "' was scripted to fail");
      },
      after,
    )
    else (record { success = true; output = stage_output json_text stage.id; error = none }, after)

-- `FakeStageRunner.rollback`
unfoldable pub fake_rollback : StageDefinition → StageRunContext → FakeStageRunner → FakeStageRunner
fake_rollback stage context runner = record runner {
  rollback_calls = runner.rollback_calls ++ stage.id ∷ [];
}
