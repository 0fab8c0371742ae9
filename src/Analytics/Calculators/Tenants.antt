-- ===== src/Analytics/Calculators/Tenants.antt =====
-- What a metric of a project may depend on.
use forge_ai_autonomous_soft.Common.{
  ℕ, false, eqb, eqb_iff, elem, nat_eq, map, some, List, [], ◌∷◌, ◌++◌, ◌≡◌, refl, ap, ◌∙◌, arith,
}
use forge_ai_autonomous_soft.Models.Persistence.{column_is}
use forge_ai_autonomous_soft.Engine.Session.Rows.{WorkflowExecution, WorkflowMetric}
use forge_ai_autonomous_soft.Analytics.Registry.{StampedUsage, Tables, Query, Numbers}
use forge_ai_autonomous_soft.Analytics.Calculators.{
  Calculator, ended_in, copies, joined_metrics, usage_in, success_rate, average_duration,
  retry_rate, total_ai_cost, cost_by_model, calculate,
}

-- A query about one project.
abbrev pub about : ℕ → Query → Query
about project_id query = record query { project_id = some project_id }

ended_in-append :
    (project_id : ℕ) (query : Query) (rows : List WorkflowExecution) (row : WorkflowExecution)
    → eqb row.project_id project_id ≡ false
    → ended_in project_id query (rows ++ row ∷ []) ≡ ended_in project_id query rows
ended_in-append project_id query [] row h = ground (arith, h)
ended_in-append project_id query (r ∷ rows) row h =
    ground (arith, ended_in-append project_id query rows row h)

usage_in-append :
    (project_id : ℕ) (query : Query) (rows : List StampedUsage) (u : StampedUsage)
    → column_is project_id u.entry.project_id ≡ false
    → usage_in (about project_id query) (rows ++ u ∷ []) ≡ usage_in (about project_id query) rows
usage_in-append project_id query [] u h = ground (arith, h)
usage_in-append project_id query (r ∷ rows) u h =
    ground (arith, usage_in-append project_id query rows u h)

no_copies :
    (m : WorkflowMetric) (project_id : ℕ) (query : Query) (rows : List WorkflowExecution)
    → elem m.workflow_execution_id (map (λ (r : WorkflowExecution). r.id) rows) ≡ false
    → copies m (ended_in project_id query rows) ≡ []
no_copies m project_id query [] h = refl
no_copies m project_id query (r ∷ rows) h = ground (
  arith,
  h,
  eqb_iff r.id m.workflow_execution_id,
  eqb_iff m.workflow_execution_id r.id,
  no_copies m project_id query rows,
)

joined_metrics-append :
    (metrics : List WorkflowMetric) (m : WorkflowMetric) (rows : List WorkflowExecution)
    → copies m rows ≡ []
    → joined_metrics (metrics ++ m ∷ []) rows ≡ joined_metrics metrics rows
joined_metrics-append [] m rows h = rw h refl
joined_metrics-append (n ∷ metrics) m rows h =
    ap (λ more. copies n rows ++ more) (joined_metrics-append metrics m rows h)

-- The tables after an execution, its metrics and a usage entry are added.
abbrev pub with_foreign : WorkflowExecution → WorkflowMetric → StampedUsage → Tables → Tables
with_foreign row m u t = record t {
  executions = t.executions ++ row ∷ [];
  metrics = t.metrics ++ m ∷ [];
  usage = t.usage ++ u ∷ [];
}

-- The metrics that the query of a project joins.
joined-with_foreign :
    (project_id : ℕ) (query : Query) (t : Tables) (row : WorkflowExecution) (m : WorkflowMetric)
    → eqb row.project_id project_id ≡ false
    → m.workflow_execution_id ≡ row.id
    → elem row.id (map (λ (r : WorkflowExecution). r.id) t.executions) ≡ false
    → joined_metrics (t.metrics ++ m ∷ []) (ended_in project_id query (t.executions ++ row ∷ []))
      ≡ joined_metrics t.metrics (ended_in project_id query t.executions)
joined-with_foreign project_id query t row m h same fresh =
    ap (joined_metrics (t.metrics ++ m ∷ [])) (ended_in-append project_id query t.executions row h)
    ∙ joined_metrics-append t.metrics m (ended_in project_id query t.executions) (
        no_copies m project_id query t.executions
          (ap (λ i. elem i (map (λ (r : WorkflowExecution). r.id) t.executions)) same ∙ fresh))

module _ (numbers : Numbers) where
  -- No metric of a project changes when an execution of another project under a new id, the metrics
  -- row of that execution and a usage entry of another project are added.
  pub calculate-with_foreign :
      (calculator : Calculator) (project_id : ℕ) (query : Query) (t : Tables)
      (row : WorkflowExecution) (m : WorkflowMetric) (u : StampedUsage)
      → eqb row.project_id project_id ≡ false
      → m.workflow_execution_id ≡ row.id
      → elem row.id (map (λ (r : WorkflowExecution). r.id) t.executions) ≡ false
      → column_is project_id u.entry.project_id ≡ false
      → calculate numbers calculator (about project_id query) (with_foreign row m u t)
        ≡ calculate numbers calculator (about project_id query) t
  unfolding calculate success_rate average_duration retry_rate total_ai_cost cost_by_model
  calculate-with_foreign Calculator.workflow_success_rate p query t row m u h same fresh k =
      rw (ended_in-append p (about p query) t.executions row h) refl
  calculate-with_foreign Calculator.workflow_average_duration p query t row m u h same fresh k =
      rw (joined-with_foreign p (about p query) t row m h same fresh) refl
  calculate-with_foreign Calculator.workflow_retry_rate p query t row m u h same fresh k =
      rw (joined-with_foreign p (about p query) t row m h same fresh) refl
  calculate-with_foreign Calculator.ai_total_cost p query t row m u h same fresh k =
      rw (usage_in-append p query t.usage u k) refl
  calculate-with_foreign Calculator.ai_cost_by_model p query t row m u h same fresh k =
      rw (usage_in-append p query t.usage u k) refl
  calculate-with_foreign (Calculator.always_unavailable definition reason) p query t row m u h same
        fresh k =
      refl
