-- ===== src/Analytics/Registry.antt =====
-- services/analytics/src/forgeai_analytics: registry.py without the registry's own methods,
-- exceptions.py, and the tables that the calculators read.
use forge_ai_autonomous_soft.Common.{ℕ, ℤ, leb, Option, List, Text, Dict, if◌then◌else◌}
use forge_ai_autonomous_soft.Core.{Float}
use forge_ai_autonomous_soft.Models.Profile.{Decimal}
use forge_ai_autonomous_soft.Models.Persistence.{UsageLedgerEntry, ModelProfileRecord}
use forge_ai_autonomous_soft.Engine.Session.Rows.{WorkflowExecution, WorkflowMetric}

pub data MetricCategory : Type 0 where
  delivery quality ai_usage cost reliability architecture technical_debt security : MetricCategory

pub data MetricAvailability : Type 0 where
  available not_available : MetricAvailability

pub data MetricConfidence : Type 0 where
  high low : MetricConfidence

unfoldable pub confidence_for_sample_size : ℕ → (high_threshold : ℕ) → MetricConfidence
confidence_for_sample_size sample_size high_threshold =
    if leb high_threshold sample_size then high else low

-- The keyword's default.
abbrev pub default_threshold : ℕ
default_threshold = 5

pub record MetricDefinition : Type 0 where
  pub id : Text
  pub name : Text
  pub description : Text
  pub category : MetricCategory
  pub formula : Text
  pub data_sources : List Text
  pub window : Text
  pub aggregation : Text
  pub owner : Text

pub data MetricValue : Type 0 where
  float_value : Float → MetricValue
  decimal_value : Decimal → MetricValue

-- The usage of one model: an entry of `by_model`, whose cost is a text in the source.
pub record ModelUsage : Type 0 where
  pub cost_usd : Decimal
  pub input_tokens : ℕ
  pub output_tokens : ℕ
  pub completion_calls : ℕ

pub data Evidence : Type 0 where
  no_evidence : Evidence
  executions_counted : (total_executions successful_executions : ℕ) → Evidence
  samples : (sample_size : ℕ) → Evidence
  retries : (sample_size total_retries : ℕ) → Evidence
  calls_counted : (completion_calls : ℕ) → Evidence
  by_model : Dict Text ModelUsage → Evidence

-- Without the time of the calculation.
pub record MetricResult : Type 0 where
  pub metric_id : Text
  pub availability : MetricAvailability
  pub value : Option MetricValue
  pub unit : Option Text
  pub window_start : Option ℕ
  pub window_end : Option ℕ
  pub evidence : Evidence
  pub confidence : Option MetricConfidence
  pub reason_unavailable : Option Text

pub data AnalyticsError : Type 0 where
  metric_not_found metric_already_registered missing_scope : (metric_id : Text) → AnalyticsError

-- A usage entry with its `created_at`.
pub record StampedUsage : Type 0 where
  pub created_at : ℕ
  pub entry : UsageLedgerEntry

pub record Tables : Type 0 where
  pub executions : List WorkflowExecution
  pub metrics : List WorkflowMetric
  pub usage : List StampedUsage
  pub profiles : List ModelProfileRecord

-- The scope and the window of a request.
pub record Query : Type 0 where
  pub organization_id : Option ℕ
  pub project_id : Option ℕ
  pub window_start : ℕ
  pub window_end : ℕ

-- Python's arithmetic on floats and Decimals. A duration is in microseconds in the table's model, and
-- in seconds as the float that the column has.
pub record Numbers : Type 0 where
  pub duration_seconds : ℤ → Float
  pub sum_floats : List Float → Float
  pub divide : Float → ℕ → Float
  pub divide_ints : ℕ → ℕ → Float
  pub times : Float → ℕ → Float
  pub round : Float → ℕ → Float
  pub decimal_add : Decimal → Decimal → Decimal
  pub decimal_zero : Decimal
