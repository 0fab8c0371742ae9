-- ===== src/Tests/Samples.antt =====
-- A workflow of two stages, a runner whose second run fails, and the tables of one execution of it.
use forge_ai_autonomous_soft.Common.{
  ℕ, ◌+◌, ◌*◌, pos, true, false, none, some, List, [], ◌∷◌, Text, codes, ltb, eqb,
}
use forge_ai_autonomous_soft.Core.{
  WorkflowStatus, StageStatus, RetryPolicy, TimeoutPolicy, TimeoutAction,
}
use forge_ai_autonomous_soft.Engine.Version.{Unicode}
use forge_ai_autonomous_soft.Engine.Decisions.{Floats}
use forge_ai_autonomous_soft.Engine.Definition.{StageDefinition, WorkflowDefinition}
use forge_ai_autonomous_soft.Engine.Session.Rows.{
  WorkflowStageExecution, WorkflowStage, WorkflowQueueEntry, WorkflowEvent, QueueEntryStatus,
  workflow_change,
}
use forge_ai_autonomous_soft.Engine.Session.Actions.{World, Store}

-- Floats that are whole numbers.
abbrev pub sample_floats : Floats
sample_floats = record {
  pow = λ x n. some x;
  mul = λ x y. x * y;
  lt = λ x y. ltb x y;
  later = λ now x. some (now + x);
}

-- Digits are those of ASCII.
abbrev pub sample_unicode : Unicode
sample_unicode = record { other_digit = λ c. false; other_decimal = λ c. none }

abbrev pub sample_policy : RetryPolicy
sample_policy = record {
  max_attempts = 1;
  backoff_seconds = 2;
  backoff_multiplier = 2;
  max_backoff_seconds = 3;
}

abbrev pub sample_timeout : TimeoutPolicy
sample_timeout = record { seconds = some 30; on_timeout = TimeoutAction.retry }

abbrev pub sample_stage : Text → List Text → StageDefinition
sample_stage key depends_on = record {
  id = key;
  name = key;
  description = [];
  inputs = [];
  outputs = [];
  depends_on = depends_on;
  estimated_seconds = none;
  capability = none;
  retry_policy = sample_policy;
  timeout = sample_timeout;
  requires_approval = false;
  allow_skip = true;
  failure_handler = none;
}

abbrev pub plan_key : Text
plan_key = codes "plan"

abbrev pub code_key : Text
code_key = codes "code"

abbrev pub sample_definition : WorkflowDefinition
sample_definition = record {
  key = codes "feature";
  name = codes "Feature";
  description = [];
  version = codes "1.0.2";
  stages = sample_stage plan_key [] ∷ sample_stage code_key (plan_key ∷ []) ∷ [];
  entry_conditions = [];
  exit_conditions = [];
  rollback_rules = [];
  timeout = sample_timeout;
  retry_policy = sample_policy;
  required_capabilities = [];
  outputs = [];
  artifacts = [];
}

abbrev pub newer_definition : WorkflowDefinition
newer_definition = record sample_definition { version = codes "1.0.10" }

abbrev pub sample_world : World
sample_world = record {
  time = λ n. 1000 * n;
  run = λ n stage_def context. some (record { success = eqb n 0; output = []; error = none });
  rollback = λ n stage_def context. true;
  raises = λ handler event. eqb handler 1;
  floats = sample_floats;
  float_ok = λ policy. true;
  unicode = sample_unicode;
}

abbrev pub sample_entry : WorkflowQueueEntry
sample_entry = record {
  id = 9;
  workflow_execution_id = 7;
  priority = pos 5;
  status = QueueEntryStatus.queued;
  scheduled_for = none;
  claimed_at = none;
  claimed_by = none;
  created_at = 0;
}

abbrev pub second_entry : WorkflowQueueEntry
second_entry = record sample_entry { id = 10; priority = pos 1 }

abbrev sample_stage_row : ℕ → Text → WorkflowStage
sample_stage_row i key = record {
  id = i;
  workflow_version_id = 2;
  stage_key = key;
  name = key;
  sequence_index = i;
  depends_on = [];
  capability_key = none;
  retry_policy = sample_policy;
  timeout_policy = sample_timeout;
  requires_approval = false;
  allow_skip = true;
}

abbrev stage_execution_row : ℕ → ℕ → WorkflowStageExecution
stage_execution_row i stage_id = record {
  id = i;
  workflow_execution_id = 7;
  workflow_stage_id = stage_id;
  status = StageStatus.pending;
  input = [];
  output = none;
  attempt_number = 1;
  started_at = none;
  completed_at = none;
  error = none;
  retry_after = none;
}

abbrev pub sample_store : Store
sample_store = record {
  workflows = [];
  executions =
      record {
        id = 7;
        workflow_id = 1;
        workflow_version_id = 2;
        project_id = 4;
        status = WorkflowStatus.pending;
        input = [];
        started_by = none;
        started_at = none;
        completed_at = none;
        error = none;
      }
      ∷ [];
  stage_executions = stage_execution_row 20 30 ∷ stage_execution_row 21 31 ∷ [];
  stages = sample_stage_row 30 plan_key ∷ sample_stage_row 31 code_key ∷ [];
  versions =
      record { id = 2; workflow_id = 1; version = codes "1.0.2"; graph_spec = sample_definition }
      ∷ [];
  approvals = [];
  queue = second_entry ∷ sample_entry ∷ [];
  events = [];
  metrics = [];
  bus = record {
    subscribers = (codes "stage.*", 1) ∷ (codes "*", 2) ∷ [];
    handler_errors = [];
    delivered = [];
  };
  runner_calls = [];
  next_id = 100;
  clock_reads = 0;
}

abbrev pub sample_event : WorkflowEvent
sample_event = record {
  workflow_execution_id = 7;
  event_type = codes "stage.running";
  payload = workflow_change [] [];
}
