-- ===== src/Tests/Connections.antt =====
-- A GitHub that forbids, a provider that answers, and the tables of two projects.
use forge_ai_autonomous_soft.Common.{
  Dict, pos, ℕ, ◌+◌, ◌*◌, true, false, none, some, List, [], ◌∷◌, Text, codes, ◌≡◌, ◌↔◌, refl,
}
use forge_ai_autonomous_soft.Common.Outcome.{returned, raised}
use forge_ai_autonomous_soft.Core.{Float, WorkflowStatus}
use forge_ai_autonomous_soft.Engine.Session.Rows.{WorkflowExecution, WorkflowMetric}
use forge_ai_autonomous_soft.Models.Persistence.{ModelProfileRecord}
use forge_ai_autonomous_soft.Analytics.Registry.{ModelUsage, by_model, calls_counted}
use forge_ai_autonomous_soft.Analytics.Calculators.{cost_by_model, total_ai_cost, calls_in}
use forge_ai_autonomous_soft.Analytics.Calculators.Totals.{cost_by_model-total_ai_cost}
use forge_ai_autonomous_soft.Integrations.Errors.{RepositoryMetadata, insufficient_permissions}
use forge_ai_autonomous_soft.Integrations.Connection.{Answers, connect_repository}
use forge_ai_autonomous_soft.Integrations.Connection.Status.{
  says_connected, MayRead, connect_repository_iff,
}
use forge_ai_autonomous_soft.Integrations.Github.{Http, Response, github_answers, provider_label}
use forge_ai_autonomous_soft.Integrations.Github.Forbidden.{connect_repository-forbidden}
use forge_ai_autonomous_soft.Analytics.Registry.{Tables, Query, Numbers, StampedUsage}
use forge_ai_autonomous_soft.Analytics.Calculators.{Calculator, calculate}
use forge_ai_autonomous_soft.Analytics.Calculators.Tenants.{
  about, with_foreign, calculate-with_foreign,
}

abbrev no_format : Float → Text
no_format seconds = []

abbrev private_repository : RepositoryMetadata
private_repository = record {
  owner = codes "o";
  name = codes "n";
  full_name = codes "o/n";
  default_branch = codes "main";
  visibility = codes "private";
  html_url = [];
}

abbrev sample_answers : Answers
sample_answers = record {
  authorized_scopes = returned (codes "repo" ∷ []);
  repository = returned private_repository;
}

connect_repository_iff_example :
    (says_connected (connect_repository no_format (codes "github") sample_answers) ≡ true) ↔ (
      (granted : List Text) × (repository : RepositoryMetadata) × (sample_answers.authorized_scopes
        ≡ returned granted)
      × (sample_answers.repository ≡ returned repository)
      × MayRead granted repository)
connect_repository_iff_example = connect_repository_iff no_format (codes "github") sample_answers

abbrev forbidden_answer : Response
forbidden_answer = record { status_code = 403; headers = []; body = none }

abbrev forbidding : Http
forbidding = record {
  get = λ path. returned forbidden_answer;
  status_error = λ response. none;
  seconds_until = λ reset_at. none;
  is_space = λ c. false;
}

connect_repository-forbidden_example :
    connect_repository no_format
      (codes "github")
      (github_answers forbidding (codes "o") (codes "n"))
    ≡ raised (insufficient_permissions provider_label [])
connect_repository-forbidden_example =
    connect_repository-forbidden forbidding no_format (codes "github") (codes "o") (codes "n")
      forbidden_answer refl refl refl

abbrev done_execution : ℕ → ℕ → WorkflowExecution
done_execution id project_id = record {
  id = id;
  workflow_id = 1;
  workflow_version_id = 2;
  project_id = project_id;
  status = WorkflowStatus.completed;
  input = [];
  started_by = none;
  started_at = some 5;
  completed_at = some 10;
  error = none;
}

abbrev stamped : ℕ → StampedUsage
stamped project_id = record {
  created_at = 10;
  entry = record {
    model_profile_id = 1;
    organization_id = none;
    project_id = some project_id;
    workflow_execution_id = none;
    input_tokens = 3;
    output_tokens = 4;
    cost_usd = 6;
  };
}

abbrev measured_run : ℕ → WorkflowMetric
measured_run id = record {
  workflow_execution_id = id;
  total_duration = some (pos id);
  queue_wait = none;
  stages_completed = 1;
  stages_failed = 0;
  retries_total = id;
}

abbrev sample_tables : Tables
sample_tables = record {
  executions = done_execution 7 4 ∷ [];
  metrics = measured_run 7 ∷ [];
  usage = stamped 4 ∷ [];
  profiles = [];
}

abbrev sample_numbers : Numbers
sample_numbers = record {
  duration_seconds = λ d. 1;
  sum_floats = λ ds. 1;
  divide = λ x n. x;
  divide_ints = λ m n. m;
  times = λ x n. x * n;
  round = λ x n. x;
  decimal_add = λ x y. x + y;
  decimal_zero = 0;
}

abbrev sample_query : Query
sample_query = record {
  organization_id = none;
  project_id = none;
  window_start = 0;
  window_end = 20;
}

calculate-with_foreign_example :
    calculate sample_numbers Calculator.workflow_average_duration
      (about 4 sample_query)
      (with_foreign (done_execution 8 6) (measured_run 8) (stamped 6) sample_tables)
    ≡ calculate sample_numbers Calculator.workflow_average_duration
        (about 4 sample_query)
        sample_tables
calculate-with_foreign_example =
    calculate-with_foreign sample_numbers Calculator.workflow_average_duration 4 sample_query
      sample_tables (done_execution 8 6) (measured_run 8) (stamped 6) refl refl refl refl

abbrev sample_profile : ModelProfileRecord
sample_profile = record {
  id = 1;
  key = codes "fast";
  provider = codes "mock";
  model_id = codes "m1";
  tier = codes "fast_cheap";
  context_window = 1000;
  supports_tools = false;
  supports_structured_output = false;
  cost_per_1m_input = 1;
  cost_per_1m_output = 2;
  is_active = true;
}

abbrev charged_tables : Tables
charged_tables = record sample_tables { profiles = sample_profile ∷ [] }

cost_by_model-total_ai_cost_example :
    (groups : Dict Text ModelUsage) × ((cost_by_model sample_numbers
        (about 4 sample_query)
        charged_tables).evidence
      ≡ by_model groups)
    × ((total_ai_cost sample_numbers (about 4 sample_query) charged_tables).evidence
        ≡ calls_counted (calls_in sample_numbers groups))
cost_by_model-total_ai_cost_example =
    cost_by_model-total_ai_cost sample_numbers (about 4 sample_query) charged_tables refl
