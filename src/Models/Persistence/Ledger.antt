-- ===== src/Models/Persistence/Ledger.antt =====
-- Whom a recorded usage is charged to.
use forge_ai_autonomous_soft.Common.Catalog.{scalar_one_or_none}
use forge_ai_autonomous_soft.Common.{
  ℕ, ◌&&◌, ltb, Option, none, some, List, [], ◌∷◌, ◌++◌, Text, if◌then◌else◌, ◌≡◌, ◌≢◌, subst,
  arith,
}
use forge_ai_autonomous_soft.Common.Outcome.{returned, ensure, ◌>>=◌, returned-bind}
use forge_ai_autonomous_soft.Models.Profile.{Decimal, TokenUsage}
use forge_ai_autonomous_soft.Models.Router.{Attribution}
use forge_ai_autonomous_soft.Models.Persistence.Upsert.{cost_column_lem}
use forge_ai_autonomous_soft.Models.Persistence.{
  multiple_results, data_error, cost_column, flushed_usage, ModelProfileRecord, UsageLedgerEntry,
  with_key, ledger_entry, ledger_with, record_usage, column_is, narrowed, sum_costs, total_cost,
}

-- The cost that a flush keeps.
flushed_usage_lem :
    (numeric : Decimal → Option Decimal) (usage kept : TokenUsage)
    → flushed_usage numeric usage ≡ returned kept
    → (cost : Decimal) × (numeric usage.cost_usd ≡ some cost)
      × (record usage { cost_usd = cost } ≡ kept)
unfolding flushed_usage
flushed_usage_lem numeric usage kept h =
    let (_, fits, h1) =
      returned-bind
        (ensure (ltb usage.input_tokens 2147483648 && ltb usage.output_tokens 2147483648)
          data_error)
        _ _ h in
    let (cost, c, h2) = returned-bind (cost_column numeric usage.cost_usd) _ _ h1 in
    (cost, cost_column_lem numeric usage.cost_usd cost c, cc)

module _ (decimal_add : Decimal → Decimal → Decimal) (decimal_zero : Decimal) where
  abbrev sum_from : Decimal → List UsageLedgerEntry → Decimal
  sum_from = sum_costs decimal_add decimal_zero

  -- What an entry adds to a total: its cost, where it is charged to the project.
  abbrev pub charged_to : ℕ → UsageLedgerEntry → Decimal → Decimal
  charged_to project_id e total =
      if column_is project_id e.project_id then decimal_add total e.cost_usd else total

  sum-narrowed :
      (project_id : ℕ) (entries : List UsageLedgerEntry) (e : UsageLedgerEntry) (total : Decimal)
      → sum_from total (narrowed (λ x. x.project_id) (some project_id) (entries ++ e ∷ []))
        ≡ charged_to project_id e
            (sum_from total (narrowed (λ x. x.project_id) (some project_id) entries))
  sum-narrowed project_id [] e total = ground (arith)
  sum-narrowed project_id (x ∷ entries) e total = ground (
    arith,
    sum-narrowed project_id entries e total,
    sum-narrowed project_id entries e (decimal_add total x.cost_usd),
  )

  -- A usage that the ledger records adds its cost, as the NUMERIC column keeps it, to the total cost
  -- of the project that it is attributed to, and leaves the total cost of any other project as it is;
  -- it is recorded for a model only that has a row.
  pub total_cost-record_usage :
      (numeric : Decimal → Option Decimal) (model_key : Text) (usage : TokenUsage)
      (attribution : Attribution) (rows : List ModelProfileRecord)
      (entries entries' : List UsageLedgerEntry) (project_id : ℕ)
      → record_usage numeric model_key usage attribution rows entries ≡ returned entries'
      → (cost : Decimal) × (numeric usage.cost_usd ≡ some cost)
        × (total_cost decimal_add decimal_zero (some project_id) none entries' ≡ (
            if column_is project_id attribution.project_id
            then decimal_add
                (total_cost decimal_add decimal_zero (some project_id) none entries)
                cost
            else total_cost decimal_add decimal_zero (some project_id) none entries))
        × (with_key model_key rows ≢ [])
  unfolding record_usage total_cost
  total_cost-record_usage numeric model_key usage attribution rows entries entries' project_id h =
      go (with_key model_key rows) h
    where
      go :
          (found : List ModelProfileRecord)
          → (scalar_one_or_none multiple_results found
              >>= ledger_with numeric model_key attribution usage entries)
            ≡ returned entries'
          → (cost : Decimal) × (numeric usage.cost_usd ≡ some cost)
            × (sum_from decimal_zero (narrowed (λ x. x.project_id) (some project_id) entries') ≡ (
                if column_is project_id attribution.project_id
                then decimal_add
                    (sum_from decimal_zero (narrowed (λ x. x.project_id) (some project_id) entries))
                    cost
                else sum_from decimal_zero
                    (narrowed (λ x. x.project_id) (some project_id) entries)))
            × (found ≢ [])
      go [] k = absurd (cc)
      go (r ∷ []) k =
          let (kept, flushes, k1) = returned-bind (flushed_usage numeric usage) _ _ k in
          let (cost, kept_cost, whole) = flushed_usage_lem numeric usage kept flushes in
          let e = ledger_entry attribution (record usage { cost_usd = cost }) r.id in
          let same : entries ++ e ∷ [] ≡ entries' = cc in
          (
            cost,
            kept_cost,
            subst
                (λ after.
                  sum_from decimal_zero (narrowed (λ x. x.project_id) (some project_id) after)
                  ≡ charged_to project_id e (
                      sum_from decimal_zero
                        (narrowed (λ x. x.project_id) (some project_id) entries)))
                same (sum-narrowed project_id entries e decimal_zero),
            λ e. absurd (cc),
          )
      go (r ∷ s ∷ more) k = absurd (cc)
