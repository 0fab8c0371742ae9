-- ===== src/Analytics/Calculators.antt =====
-- services/analytics/src/forgeai_analytics: the calculators of workflow_metrics.py, cost_metrics.py
-- and dora_metrics.py. A SQL GROUP BY yields its groups in the order of their first rows, and a SQL
-- sum adds in the order of the rows.
pub mod Definitions
pub mod Tenants
pub mod Totals
use forge_ai_autonomous_soft.Common.{
  ℕ, ℤ, zero, suc, ◌+◌, Bool, true, false, ◌&&◌, eqb, leb, ◌==◌, elem, Option, none, some, List, [],
  ◌∷◌, ◌++◌, map, select, length, Text, text_eq, codes, Dict, lookup, insert, has_key,
  if◌then◌else◌,
}
use forge_ai_autonomous_soft.Common.Outcome.{Outcome, returned, raised, ensure, ◌>>=◌, ◌>>◌}
use forge_ai_autonomous_soft.Common.Catalog.{add_new, or_missing}
use forge_ai_autonomous_soft.Core.{Float, WorkflowStatus, workflow_status_eq}
use forge_ai_autonomous_soft.Models.Profile.{Decimal}
use forge_ai_autonomous_soft.Models.Persistence.{UsageLedgerEntry, ModelProfileRecord, column_is}
use forge_ai_autonomous_soft.Engine.Session.Rows.{WorkflowExecution, WorkflowMetric}
use forge_ai_autonomous_soft.Engine.StateManager.{ends_workflow}
use forge_ai_autonomous_soft.Engine.Session.Actions.{by_id}
use forge_ai_autonomous_soft.Analytics.Registry.{
  MetricDefinition, MetricResult, MetricAvailability, MetricValue, float_value, decimal_value,
  ModelUsage, Evidence, no_evidence, executions_counted, samples, retries, calls_counted, by_model,
  AnalyticsError, metric_not_found, metric_already_registered, missing_scope, StampedUsage, Tables,
  Query, Numbers, confidence_for_sample_size, default_threshold,
}
use forge_ai_autonomous_soft.Analytics.Calculators.Definitions.{
  workflow_success_rate_definition, workflow_average_duration_seconds_definition,
  workflow_average_retries_definition, ai_total_cost_usd_definition, ai_cost_by_model_definition,
  deployment_frequency_definition, deployment_frequency_reason, lead_time_for_changes_definition,
  lead_time_for_changes_reason, change_failure_rate_definition, change_failure_rate_reason,
  mean_time_to_recovery_definition, mean_time_to_recovery_reason,
}

-- The calculator classes; the last one with its arguments.
pub data Calculator : Type 0 where
  workflow_success_rate workflow_average_duration workflow_retry_rate ai_total_cost
        ai_cost_by_model :
      Calculator
  always_unavailable : (definition : MetricDefinition) (reason : Text) → Calculator

abbrev pub definition_of : Calculator → MetricDefinition
definition_of workflow_success_rate = workflow_success_rate_definition
definition_of workflow_average_duration = workflow_average_duration_seconds_definition
definition_of workflow_retry_rate = workflow_average_retries_definition
definition_of ai_total_cost = ai_total_cost_usd_definition
definition_of ai_cost_by_model = ai_cost_by_model_definition
definition_of (always_unavailable definition reason) = definition

-- `_unavailable`, and the result of a calculator that is always so.
unfoldable pub unavailable : Text → Query → Text → MetricResult
unavailable metric_id query reason = record {
  metric_id = metric_id;
  availability = MetricAvailability.not_available;
  value = none;
  unit = none;
  window_start = some query.window_start;
  window_end = some query.window_end;
  evidence = no_evidence;
  confidence = none;
  reason_unavailable = some reason;
}

abbrev pub measured : Text → Query → MetricValue → Text → Evidence → ℕ → MetricResult
measured metric_id query value unit evidence sample_size = record {
  metric_id = metric_id;
  availability = MetricAvailability.available;
  value = some value;
  unit = some unit;
  window_start = some query.window_start;
  window_end = some query.window_end;
  evidence = evidence;
  confidence = some (confidence_for_sample_size sample_size default_threshold);
  reason_unavailable = none;
}

-- `column >= window_start` and `column <= window_end`: NULL is in no window.
abbrev pub in_window : Query → Option ℕ → Bool
in_window query none = false
in_window query (some at) = leb query.window_start at && leb at query.window_end

-- The executions of the project whose end is in the window.
abbrev pub ended_in : ℕ → Query → List WorkflowExecution → List WorkflowExecution
ended_in project_id query rows =
    select
      (λ (r : WorkflowExecution). eqb r.project_id project_id && in_window query r.completed_at)
      rows

abbrev pub terminal_statuses : List WorkflowExecution → List WorkflowStatus
terminal_statuses rows = select ends_workflow (map (λ (r : WorkflowExecution). r.status) rows)

abbrev pub completed_among : List WorkflowStatus → ℕ
completed_among statuses = length (select (λ status. status == WorkflowStatus.completed) statuses)

-- The inner join with the executions.
abbrev pub copies : WorkflowMetric → List WorkflowExecution → List WorkflowMetric
copies m [] = []
copies m (r ∷ rows) =
    let rest = copies m rows in if eqb r.id m.workflow_execution_id then m ∷ rest else rest

abbrev pub joined_metrics : List WorkflowMetric → List WorkflowExecution → List WorkflowMetric
joined_metrics [] rows = []
joined_metrics (m ∷ metrics) rows = copies m rows ++ joined_metrics metrics rows

abbrev pub durations : List WorkflowMetric → List ℤ
durations [] = []
durations (m ∷ metrics) =
    let rest = durations metrics in elim m.total_duration [ none ↦ rest | some d ↦ d ∷ rest ]

abbrev pub sum : List ℕ → ℕ
sum [] = 0
sum (n ∷ ns) = n + sum ns

-- `_scope_filters` and the window.
abbrev scope_test : Option ℕ → Option ℕ → Bool
scope_test none column = true
scope_test (some i) column = column_is i column

abbrev pub usage_in : Query → List StampedUsage → List UsageLedgerEntry
usage_in query rows =
    map (λ (u : StampedUsage). u.entry)
      (select
        (λ (u : StampedUsage).
          (leb query.window_start u.created_at && leb u.created_at query.window_end)
          && (scope_test query.project_id u.entry.project_id
              && scope_test query.organization_id u.entry.organization_id))
        rows)

abbrev pub no_usage : Decimal → ModelUsage
no_usage decimal_zero = record {
  cost_usd = decimal_zero;
  input_tokens = 0;
  output_tokens = 0;
  completion_calls = 0;
}

abbrev pub usage_or_none : Decimal → Option ModelUsage → ModelUsage
usage_or_none decimal_zero none = no_usage decimal_zero
usage_or_none decimal_zero (some u) = u

-- `project_id is None and organization_id is None`
abbrev pub has_scope : Option ℕ → Option ℕ → Bool
has_scope none none = false
has_scope project_id organization_id = true

module _ (numbers : Numbers) where
  abbrev pub sum_decimals : Decimal → List Decimal → Decimal
  sum_decimals total [] = total
  sum_decimals total (d ∷ ds) = sum_decimals (numbers.decimal_add total d) ds

  abbrev pub rate_of : Query → List WorkflowStatus → MetricResult
  rate_of query [] =
      unavailable workflow_success_rate_definition.id query
        (codes "No workflow executions reached a terminal state in this window.")
  rate_of query (st ∷ statuses) =
      let total = length (st ∷ statuses) in
      let successful = completed_among (st ∷ statuses) in
      measured workflow_success_rate_definition.id query
        (float_value (numbers.round (numbers.times (numbers.divide_ints successful total) 100) 2))
        (codes "percent") (executions_counted total successful) total

  -- `WorkflowSuccessRateMetric.calculate`, of a project.
  unfoldable pub success_rate : ℕ → Query → Tables → MetricResult
  unfolding unavailable confidence_for_sample_size ends_workflow
  success_rate project_id query t =
      rate_of query (terminal_statuses (ended_in project_id query t.executions))

  abbrev pub average_of : Query → List ℤ → MetricResult
  average_of query [] =
      unavailable workflow_average_duration_seconds_definition.id query
        (codes "No completed workflow executions with a recorded duration in this window.")
  average_of query (d ∷ ds) =
      let n = length (d ∷ ds) in
      measured workflow_average_duration_seconds_definition.id query
        (float_value (
          numbers.round
            (numbers.divide (numbers.sum_floats (map numbers.duration_seconds (d ∷ ds))) n) 3))
        (codes "seconds") (samples n) n

  -- `WorkflowAverageDurationMetric.calculate`
  unfoldable pub average_duration : ℕ → Query → Tables → MetricResult
  unfolding unavailable confidence_for_sample_size
  average_duration project_id query t =
      average_of query
        (durations (joined_metrics t.metrics (ended_in project_id query t.executions)))

  abbrev pub retries_of : Query → List WorkflowMetric → MetricResult
  retries_of query [] =
      unavailable workflow_average_retries_definition.id query
        (codes "No workflow executions reached a terminal state in this window.")
  retries_of query (m ∷ ms) =
      let n = length (m ∷ ms) in
      let total = sum (map (λ (x : WorkflowMetric). x.retries_total) (m ∷ ms)) in
      measured workflow_average_retries_definition.id query
        (float_value (numbers.round (numbers.divide_ints total n) 3)) (codes "retries")
        (retries n total) n

  -- `WorkflowRetryRateMetric.calculate`
  unfoldable pub retry_rate : ℕ → Query → Tables → MetricResult
  unfolding unavailable confidence_for_sample_size
  retry_rate project_id query t =
      retries_of query (joined_metrics t.metrics (ended_in project_id query t.executions))

  -- `AITotalCostMetric.calculate`, with a scope.
  unfoldable pub total_ai_cost : Query → Tables → MetricResult
  unfolding confidence_for_sample_size
  total_ai_cost query t =
      let rows = usage_in query t.usage in
      measured ai_total_cost_usd_definition.id query
        (decimal_value
          (sum_decimals numbers.decimal_zero (map (λ (e : UsageLedgerEntry). e.cost_usd) rows)))
        (codes "usd") (calls_counted (length rows)) (length rows)

  abbrev pub with_entry : UsageLedgerEntry → ModelUsage → ModelUsage
  with_entry e u = record {
    cost_usd = numbers.decimal_add u.cost_usd e.cost_usd;
    input_tokens = u.input_tokens + e.input_tokens;
    output_tokens = u.output_tokens + e.output_tokens;
    completion_calls = suc u.completion_calls;
  }

  abbrev pub add_to_group :
      UsageLedgerEntry → Option ModelProfileRecord → Dict Text ModelUsage → Dict Text ModelUsage
  add_to_group e none groups = groups
  add_to_group e (some profile) groups =
      insert profile.key
        (with_entry e (usage_or_none numbers.decimal_zero (lookup profile.key groups))) groups

  -- The join with the profiles, the GROUP BY of their keys and the sums.
  abbrev pub grouped :
      List ModelProfileRecord → List UsageLedgerEntry → Dict Text ModelUsage → Dict Text ModelUsage
  grouped profiles [] groups = groups
  grouped profiles (e ∷ rows) groups =
      grouped profiles rows (
        add_to_group e (by_id (λ (r : ModelProfileRecord). r.id) e.model_profile_id profiles)
          groups)

  abbrev pub calls_in : Dict Text ModelUsage → ℕ
  calls_in groups = sum (map (λ (g : Text × ModelUsage). g.1.completion_calls) groups)

  -- `AICostByModelMetric.calculate`, with a scope.
  unfoldable pub cost_by_model : Query → Tables → MetricResult
  unfolding confidence_for_sample_size
  cost_by_model query t =
      let groups = grouped t.profiles (usage_in query t.usage) [] in
      measured ai_cost_by_model_definition.id query
        (decimal_value (
          sum_decimals numbers.decimal_zero (map (λ (g : Text × ModelUsage). g.1.cost_usd) groups)))
        (codes "usd") (by_model groups) (calls_in groups)

  abbrev pub of_project : Text → (ℕ → MetricResult) → Option ℕ → Outcome AnalyticsError MetricResult
  of_project metric_id result none = raised (missing_scope metric_id)
  of_project metric_id result (some project_id) = returned (result project_id)

  abbrev pub of_scope : Text → MetricResult → Query → Outcome AnalyticsError MetricResult
  of_scope metric_id result query = do
    ensure (has_scope query.project_id query.organization_id) (missing_scope metric_id)
    returned result

  -- `calculator.calculate`
  unfoldable pub calculate : Calculator → Query → Tables → Outcome AnalyticsError MetricResult
  unfolding success_rate average_duration retry_rate total_ai_cost cost_by_model unavailable
  calculate workflow_success_rate query t =
      of_project workflow_success_rate_definition.id (λ p. success_rate p query t) query.project_id
  calculate workflow_average_duration query t =
      of_project workflow_average_duration_seconds_definition.id (λ p. average_duration p query t)
        query.project_id
  calculate workflow_retry_rate query t =
      of_project workflow_average_retries_definition.id (λ p. retry_rate p query t) query.project_id
  calculate ai_total_cost query t =
      of_scope ai_total_cost_usd_definition.id (total_ai_cost query t) query
  calculate ai_cost_by_model query t =
      of_scope ai_cost_by_model_definition.id (cost_by_model query t) query
  calculate (always_unavailable definition reason) query t =
      returned (unavailable definition.id query reason)
