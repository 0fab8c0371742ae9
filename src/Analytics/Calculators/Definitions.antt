-- ===== src/Analytics/Calculators/Definitions.antt =====
-- The definitions of the metrics in workflow_metrics.py, cost_metrics.py and dora_metrics.py.
use forge_ai_autonomous_soft.Common.{[], ◌∷◌, Text, codes}
use forge_ai_autonomous_soft.Analytics.Registry.{MetricDefinition, MetricCategory}

abbrev pub workflow_success_rate_definition : MetricDefinition
workflow_success_rate_definition = record {
  id = codes "workflow_success_rate";
  name = codes "Workflow Success Rate";
  description =
      codes
        "Share of workflow executions that reached COMPLETED, out of all executions that reached a terminal state in the window.";
  category = MetricCategory.reliability;
  formula = codes "COMPLETED executions / (COMPLETED + FAILED + CANCELLED executions)";
  data_sources = codes "workflow_executions" ∷ [];
  window = codes "custom";
  aggregation = codes "rate";
  owner = codes "platform-team";
}

abbrev pub workflow_average_duration_seconds_definition : MetricDefinition
workflow_average_duration_seconds_definition = record {
  id = codes "workflow_average_duration_seconds";
  name = codes "Average Workflow Duration";
  description =
      codes
        "Average wall-clock duration (start to terminal) of workflow executions that reached a terminal state in the window.";
  category = MetricCategory.delivery;
  formula = codes "AVG(workflow_metrics.total_duration_seconds) over terminal executions";
  data_sources = codes "workflow_executions" ∷ codes "workflow_metrics" ∷ [];
  window = codes "custom";
  aggregation = codes "average";
  owner = codes "platform-team";
}

abbrev pub workflow_average_retries_definition : MetricDefinition
workflow_average_retries_definition = record {
  id = codes "workflow_average_retries";
  name = codes "Average Retries per Workflow Execution";
  description =
      codes
        "Average number of stage-level retries across workflow executions that reached a terminal state in the window — a proxy for how often stages fail transiently.";
  category = MetricCategory.reliability;
  formula = codes "AVG(workflow_metrics.retries_total) over terminal executions";
  data_sources = codes "workflow_executions" ∷ codes "workflow_metrics" ∷ [];
  window = codes "custom";
  aggregation = codes "average";
  owner = codes "platform-team";
}

abbrev pub ai_total_cost_usd_definition : MetricDefinition
ai_total_cost_usd_definition = record {
  id = codes "ai_total_cost_usd";
  name = codes "Total AI Cost";
  description =
      codes
        "Sum of actual model-completion cost recorded in the usage ledger for the given scope and window.";
  category = MetricCategory.cost;
  formula = codes "SUM(usage_ledger.cost_usd)";
  data_sources = codes "usage_ledger" ∷ [];
  window = codes "custom";
  aggregation = codes "sum";
  owner = codes "platform-team";
}

abbrev pub ai_cost_by_model_definition : MetricDefinition
ai_cost_by_model_definition = record {
  id = codes "ai_cost_by_model";
  name = codes "AI Cost by Model";
  description =
      codes
        "Total cost, token usage, and call count broken down by model, for the given scope and window.";
  category = MetricCategory.cost;
  formula =
      codes
        "SUM(cost_usd), SUM(input_tokens), SUM(output_tokens), COUNT(*) grouped by model_profiles.key";
  data_sources = codes "usage_ledger" ∷ codes "model_profiles" ∷ [];
  window = codes "custom";
  aggregation = codes "sum_by_group";
  owner = codes "platform-team";
}

abbrev pub deployment_frequency_definition : MetricDefinition
deployment_frequency_definition = record {
  id = codes "deployment_frequency";
  name = codes "Deployment Frequency";
  description = codes "Successful production deployments per time period.";
  category = MetricCategory.delivery;
  formula = codes "COUNT(successful production deployments) / period";
  data_sources = codes "deployments" ∷ [];
  window = codes "custom";
  aggregation = codes "rate";
  owner = codes "platform-team";
}

abbrev pub deployment_frequency_reason : Text
deployment_frequency_reason =
    codes
      "No deployment records exist in ForgeAI yet — this metric needs a persisted Deployment/Release model that the DevOps & Deployment integration doesn't produce yet."

abbrev pub lead_time_for_changes_definition : MetricDefinition
lead_time_for_changes_definition = record {
  id = codes "lead_time_for_changes";
  name = codes "Lead Time for Changes";
  description = codes "Time from first commit to production deployment.";
  category = MetricCategory.delivery;
  formula = codes "AVG(deployment.deployed_at - commit.first_commit_at)";
  data_sources = codes "deployments" ∷ codes "commits" ∷ [];
  window = codes "custom";
  aggregation = codes "average";
  owner = codes "platform-team";
}

abbrev pub lead_time_for_changes_reason : Text
lead_time_for_changes_reason =
    codes
      "No deployment records exist in ForgeAI yet — this metric needs a persisted Deployment/Release model that the DevOps & Deployment integration doesn't produce yet."

abbrev pub change_failure_rate_definition : MetricDefinition
change_failure_rate_definition = record {
  id = codes "change_failure_rate";
  name = codes "Change Failure Rate";
  description = codes "Share of production deployments that resulted in a failure.";
  category = MetricCategory.reliability;
  formula = codes "COUNT(failed deployments) / COUNT(total deployments)";
  data_sources = codes "deployments" ∷ [];
  window = codes "custom";
  aggregation = codes "rate";
  owner = codes "platform-team";
}

abbrev pub change_failure_rate_reason : Text
change_failure_rate_reason =
    codes
      "No deployment records exist in ForgeAI yet — this metric needs a persisted Deployment/Release model that the DevOps & Deployment integration doesn't produce yet."

abbrev pub mean_time_to_recovery_definition : MetricDefinition
mean_time_to_recovery_definition = record {
  id = codes "mean_time_to_recovery";
  name = codes "Mean Time to Recovery";
  description = codes "Average time from incident detection to service recovery.";
  category = MetricCategory.reliability;
  formula = codes "AVG(incident.recovered_at - incident.detected_at)";
  data_sources = codes "incidents" ∷ [];
  window = codes "custom";
  aggregation = codes "average";
  owner = codes "platform-team";
}

abbrev pub mean_time_to_recovery_reason : Text
mean_time_to_recovery_reason =
    codes
      "No incident records exist in ForgeAI yet — this metric needs a persisted Incident model that doesn't exist yet."
