-- ===== src/Analytics/Calculators/Totals.antt =====
-- What the numbers of the metrics add up to.
use forge_ai_autonomous_soft.Common.{
  ℕ, suc, ◌+◌, ◌≤◌, ◌<◌, Bool, true, false, ◌==◌, Option, none, some, List, [], ◌∷◌, length, all,
  Text, text_eq, Dict, lookup, insert, ◌≡◌, refl, ap, arith, length-select-le,
}
use forge_ai_autonomous_soft.Core.{WorkflowStatus, workflow_status_eq}
use forge_ai_autonomous_soft.Models.Persistence.{UsageLedgerEntry, ModelProfileRecord}
use forge_ai_autonomous_soft.Engine.Session.Actions.{by_id}
use forge_ai_autonomous_soft.Analytics.Registry.{
  MetricResult, MetricAvailability, ModelUsage, executions_counted, no_evidence, calls_counted,
  by_model, Tables, Query, Numbers,
}
use forge_ai_autonomous_soft.Analytics.Calculators.{
  usage_in, usage_or_none, with_entry, add_to_group, grouped, calls_in, total_ai_cost,
  cost_by_model, success_rate, rate_of, completed_among, terminal_statuses, ended_in,
}

abbrev pub profile_of : List ModelProfileRecord → UsageLedgerEntry → Option ModelProfileRecord
profile_of profiles e = by_id (λ (r : ModelProfileRecord). r.id) e.model_profile_id profiles

abbrev is_there : Option ModelProfileRecord → Bool
is_there none = false
is_there (some r) = true

-- The foreign key: every entry's model has a row.
abbrev pub has_profiles : List ModelProfileRecord → List UsageLedgerEntry → Bool
has_profiles profiles rows = all (λ (e : UsageLedgerEntry). is_there (profile_of profiles e)) rows

module _ (numbers : Numbers) where
  calls_in-insert :
      (key : Text) (e : UsageLedgerEntry) (groups : Dict Text ModelUsage)
      → calls_in numbers (
          insert key
            (with_entry numbers e (usage_or_none numbers.decimal_zero (lookup key groups)))
            groups)
        ≡ suc (calls_in numbers groups)
  calls_in-insert key e [] = omega arith
  calls_in-insert key e ((j, u) ∷ groups) = ground (arith, calls_in-insert key e groups)

  calls_in-add_to_group :
      (e : UsageLedgerEntry) (o : Option ModelProfileRecord) (groups : Dict Text ModelUsage)
      → is_there o ≡ true
      → calls_in numbers (add_to_group numbers e o groups) ≡ suc (calls_in numbers groups)
  calls_in-add_to_group e none groups h = absurd (cc)
  calls_in-add_to_group e (some r) groups h = calls_in-insert r.key e groups

  calls_in-grouped :
      (profiles : List ModelProfileRecord) (rows : List UsageLedgerEntry)
      (groups : Dict Text ModelUsage)
      → has_profiles profiles rows ≡ true
      → calls_in numbers (grouped numbers profiles rows groups)
        ≡ calls_in numbers groups + length rows
  calls_in-grouped profiles [] groups h = omega arith
  calls_in-grouped profiles (e ∷ rows) groups h = ground (
    arith,
    calls_in-grouped profiles rows (add_to_group numbers e (profile_of profiles e) groups),
    calls_in-add_to_group e (profile_of profiles e) groups,
    h,
  )

  calls_in-all :
      (profiles : List ModelProfileRecord) (rows : List UsageLedgerEntry)
      → has_profiles profiles rows ≡ true
      → length rows ≡ calls_in numbers (grouped numbers profiles rows [])
  calls_in-all profiles rows h = omega (arith, calls_in-grouped profiles rows [] h)

  -- The calls that the cost by model reports for its models add up to the calls that the total cost
  -- reports for the same query, if every usage entry's model has a row.
  pub cost_by_model-total_ai_cost :
      (query : Query) (t : Tables)
      → has_profiles t.profiles (usage_in query t.usage) ≡ true
      → (groups : Dict Text ModelUsage) × ((cost_by_model numbers query t).evidence
          ≡ by_model groups)
        × ((total_ai_cost numbers query t).evidence ≡ calls_counted (calls_in numbers groups))
  unfolding cost_by_model total_ai_cost
  cost_by_model-total_ai_cost query t h = (
    grouped numbers t.profiles (usage_in query t.usage) [],
    refl,
    ap calls_counted (calls_in-all t.profiles (usage_in query t.usage) h),
  )

  -- A success rate that is available counts at least one execution, and no more successful ones than
  -- executions; one that is not available has no execution of the project that ended in the window.
  pub data IsHonest (ended : List WorkflowStatus) (result : MetricResult) : Type 0 where
    nothing_ended :
        ended ≡ []
        → result.availability ≡ MetricAvailability.not_available
        → result.evidence ≡ no_evidence
        → IsHonest ended result
    counted :
        (total successful : ℕ)
        → total ≡ length ended
        → 0 < total
        → successful ≤ total
        → result.availability ≡ MetricAvailability.available
        → result.evidence ≡ executions_counted total successful
        → IsHonest ended result

  -- The success rate of a project is not available, without evidence, exactly if none of its
  -- executions ended in the window; otherwise it is available and reports how many ended, which is
  -- not zero, and how many of these succeeded, which is not more.
  pub success_rate-IsHonest :
      (project_id : ℕ) (query : Query) (t : Tables)
      → IsHonest
          (terminal_statuses (ended_in project_id query t.executions))
          (success_rate numbers project_id query t)
  unfolding success_rate
  success_rate-IsHonest project_id query t =
      go (terminal_statuses (ended_in project_id query t.executions))
    where
      go : (ended : List WorkflowStatus) → IsHonest ended (rate_of numbers query ended)
      go [] = nothing_ended refl refl refl
      go (st ∷ ended) =
          counted (length (st ∷ ended)) (completed_among (st ∷ ended)) refl (omega arith)
            (length-select-le (λ status. status == WorkflowStatus.completed) (st ∷ ended)) refl refl
