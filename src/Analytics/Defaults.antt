-- ===== src/Analytics/Defaults.antt =====
-- services/analytics/src/forgeai_analytics: the registry of registry.py, and bootstrap.py.
use forge_ai_autonomous_soft.Common.{Bool, List, [], map, Text, text_eq, Dict, lookup, has_key}
use forge_ai_autonomous_soft.Common.Outcome.{Outcome, ◌>>=◌}
use forge_ai_autonomous_soft.Common.Catalog.{add_new, or_missing}
use forge_ai_autonomous_soft.Analytics.Registry.{
  MetricDefinition, MetricResult, AnalyticsError, metric_not_found, metric_already_registered,
  Tables, Query, Numbers,
}
use forge_ai_autonomous_soft.Analytics.Calculators.{
  Calculator, workflow_success_rate, workflow_average_duration, workflow_retry_rate, ai_total_cost,
  ai_cost_by_model, always_unavailable, definition_of, calculate,
}
use forge_ai_autonomous_soft.Analytics.Calculators.Definitions.{
  deployment_frequency_definition, deployment_frequency_reason, lead_time_for_changes_definition,
  lead_time_for_changes_reason, change_failure_rate_definition, change_failure_rate_reason,
  mean_time_to_recovery_definition, mean_time_to_recovery_reason,
}

abbrev pub MetricsRegistry : Type 0
MetricsRegistry = Dict Text Calculator

unfoldable pub register_metric :
    Calculator → MetricsRegistry → Outcome AnalyticsError MetricsRegistry
register_metric calculator calculators =
    let metric_id = (definition_of calculator).id in
    add_new (metric_already_registered metric_id) metric_id calculator calculators

unfoldable pub get_metric : Text → MetricsRegistry → Outcome AnalyticsError Calculator
get_metric metric_id calculators =
    or_missing (metric_not_found metric_id) (lookup metric_id calculators)

unfoldable pub is_registered_metric : Text → MetricsRegistry → Bool
is_registered_metric metric_id calculators = has_key metric_id calculators

unfoldable pub list_definitions : MetricsRegistry → List MetricDefinition
list_definitions calculators = map (λ (e : Text × Calculator). definition_of e.1) calculators

-- `MetricsRegistry.calculate`
unfoldable pub calculate_metric :
    Numbers → Text → Query → Tables → MetricsRegistry → Outcome AnalyticsError MetricResult
unfolding get_metric calculate
calculate_metric numbers metric_id query t calculators = do
  calculator ← get_metric metric_id calculators
  calculate numbers calculator query t

unfoldable pub build_default_registry : Outcome AnalyticsError MetricsRegistry
unfolding register_metric
build_default_registry = do
  r1 ← register_metric workflow_success_rate []
  r2 ← register_metric workflow_average_duration r1
  r3 ← register_metric workflow_retry_rate r2
  r4 ← register_metric ai_total_cost r3
  r5 ← register_metric ai_cost_by_model r4
  r6 ←
      register_metric
        (always_unavailable deployment_frequency_definition deployment_frequency_reason) r5
  r7 ←
      register_metric
        (always_unavailable lead_time_for_changes_definition lead_time_for_changes_reason) r6
  r8 ←
      register_metric (always_unavailable change_failure_rate_definition change_failure_rate_reason)
        r7
  register_metric (always_unavailable mean_time_to_recovery_definition mean_time_to_recovery_reason)
      r8
