-- ===== src/Models/Persistence.antt =====
-- services/model_router/src/forgeai_model_router/persistence.py, with the tables of
-- services/core/src/forgeai_core/models/model_profile.py and usage_ledger_entry.py. A row's id is
-- given by the caller, as the database does. What a NUMERIC(12, 6) column keeps of a Decimal, rounded
-- to six places, is a parameter, `none` where it overflows; the rows are read by a later session.
pub mod Upsert
pub mod Ledger
use forge_ai_autonomous_soft.Common.Catalog.{scalar_one_or_none}
use forge_ai_autonomous_soft.Common.{
  is_empty, ℕ, leb, ltb, length, Bool, true, false, ◌&&◌, ◌||◌, not, ◌==◌, eqb, Option, none, some,
  List, [], ◌∷◌, ◌++◌, map, select, Text, text_eq, codes, if◌then◌else◌, Eq, nat_eq,
}
use forge_ai_autonomous_soft.Common.Outcome.{Outcome, returned, raised, ensure, ◌>>=◌, ◌>>◌}
use forge_ai_autonomous_soft.Models.Profile.{
  Decimal, ModelProfile, ModelTier, fast_cheap, balanced, high_capability, TokenUsage,
}
use forge_ai_autonomous_soft.Models.Router.{Attribution}

pub record ModelProfileRecord : Type 0 where
  pub id : ℕ
  pub key : Text
  pub provider : Text
  pub model_id : Text
  pub tier : Text
  pub context_window : ℕ
  pub supports_tools : Bool
  pub supports_structured_output : Bool
  pub cost_per_1m_input : Decimal
  pub cost_per_1m_output : Decimal
  pub is_active : Bool

pub record UsageLedgerEntry : Type 0 where
  pub model_profile_id : ℕ
  pub organization_id : Option ℕ
  pub project_id : Option ℕ
  pub workflow_execution_id : Option ℕ
  pub input_tokens : ℕ
  pub output_tokens : ℕ
  pub cost_usd : Decimal

-- SQLAlchemy's `MultipleResultsFound`, the errors of `ModelTier` and pydantic, and `ModelNotFoundError`.
pub data PersistenceError : Type 0 where
  multiple_results : PersistenceError
  invalid_row : PersistenceError
  unknown_model : (model_key : Text) → PersistenceError
  -- `DataError` of the flush: a value that its column does not take.
  data_error : PersistenceError

abbrev pub tier_value : ModelTier → Text
tier_value fast_cheap = codes "fast_cheap"
tier_value balanced = codes "balanced"
tier_value high_capability = codes "high_capability"

-- `ModelTier(text)`
abbrev pub tier_of : Text → Option ModelTier
tier_of text =
    if text == codes "fast_cheap"
    then some fast_cheap
    else if text == codes "balanced"
    then some balanced
    else if text == codes "high_capability"
    then some high_capability
    else none

-- `select(ModelProfileRecord).where(ModelProfileRecord.key == key)`
abbrev pub with_key : Text → List ModelProfileRecord → List ModelProfileRecord
with_key key rows = select (λ (r : ModelProfileRecord). r.key == key) rows

-- The assignments of `save`.
abbrev pub written : ModelProfile → ModelProfileRecord → ModelProfileRecord
written profile r = record {
  id = r.id;
  key = r.key;
  provider = profile.provider;
  model_id = profile.model_id;
  tier = tier_value profile.tier;
  context_window = profile.context_window;
  supports_tools = profile.supports_tools;
  supports_structured_output = profile.supports_structured_output;
  cost_per_1m_input = profile.cost_per_1m_input;
  cost_per_1m_output = profile.cost_per_1m_output;
  is_active = profile.is_active;
}

-- `ModelProfileRecord(key=profile.key)` with the assignments.
abbrev pub new_record : ℕ → ModelProfile → ModelProfileRecord
new_record id profile = record {
  id = id;
  key = profile.key;
  provider = profile.provider;
  model_id = profile.model_id;
  tier = tier_value profile.tier;
  context_window = profile.context_window;
  supports_tools = profile.supports_tools;
  supports_structured_output = profile.supports_structured_output;
  cost_per_1m_input = profile.cost_per_1m_input;
  cost_per_1m_output = profile.cost_per_1m_output;
  is_active = profile.is_active;
}

abbrev pub write_where : ModelProfile → List ModelProfileRecord → List ModelProfileRecord
write_where profile rows =
    map (λ (r : ModelProfileRecord). if r.key == profile.key then written profile r else r) rows

abbrev pub saved :
    ℕ → ModelProfile → List ModelProfileRecord → Option ModelProfileRecord → List ModelProfileRecord
saved id profile rows none = rows ++ new_record id profile ∷ []
saved id profile rows (some r) = write_where profile rows

-- The lengths of the text columns, and a 32-bit `Integer`.
abbrev pub fits_columns : ModelProfile → Bool
fits_columns p =
    leb (length p.key) 128
    && leb (length p.provider) 64
    && leb (length p.model_id) 255
    && ltb p.context_window 2147483648

module _ (numeric : Decimal → Option Decimal) where
  abbrev pub cost_column : Decimal → Outcome PersistenceError Decimal
  cost_column cost = elim (numeric cost) [ none ↦ raised data_error | some d ↦ returned d ]

  -- What the columns of the row keep of the profile at the flush.
  unfoldable pub flushed : ModelProfile → Outcome PersistenceError ModelProfile
  flushed profile = do
    ensure (fits_columns profile) data_error
    input ← cost_column profile.cost_per_1m_input
    output ← cost_column profile.cost_per_1m_output
    returned (record profile { cost_per_1m_input = input; cost_per_1m_output = output })

  -- `ModelProfileRepository.save`; the row that it adds, if it does, gets this id.
  unfoldable pub save :
      ℕ
      → ModelProfile
      → List ModelProfileRecord
      → Outcome PersistenceError (List ModelProfileRecord)
  unfolding flushed
  save id profile rows = do
    found ← scalar_one_or_none multiple_results (with_key profile.key rows)
    kept ← flushed profile
    returned (saved id kept rows found)

module _ (nonnegative : Decimal → Bool) where
  -- Pydantic's constraints on the fields of a `ModelProfile`.
  abbrev pub profile_ok : ModelProfile → Bool
  profile_ok p =
      not (is_empty p.key)
      && not (is_empty p.provider)
      && not (is_empty p.model_id)
      && not (eqb p.context_window 0)
      && nonnegative p.cost_per_1m_input
      && nonnegative p.cost_per_1m_output

  abbrev pub profile_from :
      ModelProfileRecord → Option ModelTier → Outcome PersistenceError ModelProfile
  profile_from r none = raised invalid_row
  profile_from r (some tier) =
      let profile : ModelProfile = record {
        key = r.key;
        provider = r.provider;
        model_id = r.model_id;
        tier = tier;
        context_window = r.context_window;
        supports_tools = r.supports_tools;
        supports_structured_output = r.supports_structured_output;
        cost_per_1m_input = r.cost_per_1m_input;
        cost_per_1m_output = r.cost_per_1m_output;
        is_active = r.is_active;
      } in
      if profile_ok profile then returned profile else raised invalid_row

  -- `_to_domain`
  unfoldable pub to_domain : ModelProfileRecord → Outcome PersistenceError ModelProfile
  to_domain r = profile_from r (tier_of r.tier)

  abbrev pub to_domain_or_none :
      Option ModelProfileRecord → Outcome PersistenceError (Option ModelProfile)
  to_domain_or_none none = returned none
  to_domain_or_none (some r) = to_domain r >>= λ p. returned (some p)

  -- `ModelProfileRepository.get`
  unfoldable pub find_profile :
      Text → List ModelProfileRecord → Outcome PersistenceError (Option ModelProfile)
  unfolding to_domain
  find_profile key rows =
      scalar_one_or_none multiple_results (with_key key rows) >>= to_domain_or_none

  abbrev pub each_to_domain : List ModelProfileRecord → Outcome PersistenceError (List ModelProfile)
  each_to_domain [] = returned []
  each_to_domain (r ∷ rows) = do p ← to_domain r; ps ← each_to_domain rows; returned (p ∷ ps)

  -- `ModelProfileRepository.list_active`
  unfoldable pub list_active :
      List ModelProfileRecord → Outcome PersistenceError (List ModelProfile)
  unfolding to_domain
  list_active rows = each_to_domain (select (λ (r : ModelProfileRecord). r.is_active) rows)

abbrev pub ledger_entry : Attribution → TokenUsage → ℕ → UsageLedgerEntry
ledger_entry attribution usage model_profile_id = record {
  model_profile_id = model_profile_id;
  organization_id = attribution.organization_id;
  project_id = attribution.project_id;
  workflow_execution_id = attribution.workflow_execution_id;
  input_tokens = usage.input_tokens;
  output_tokens = usage.output_tokens;
  cost_usd = usage.cost_usd;
}

module _ (numeric : Decimal → Option Decimal) where
  -- What the columns of the entry keep of the usage at the flush.
  unfoldable pub flushed_usage : TokenUsage → Outcome PersistenceError TokenUsage
  flushed_usage usage = do
    ensure (ltb usage.input_tokens 2147483648 && ltb usage.output_tokens 2147483648) data_error
    cost ← cost_column numeric usage.cost_usd
    returned (record usage { cost_usd = cost })

  abbrev pub ledger_with :
      Text
      → Attribution
      → TokenUsage
      → List UsageLedgerEntry
      → Option ModelProfileRecord
      → Outcome PersistenceError (List UsageLedgerEntry)
  ledger_with model_key attribution usage entries none = raised (unknown_model model_key)
  ledger_with model_key attribution usage entries (some r) = do
    kept ← flushed_usage usage
    returned (entries ++ ledger_entry attribution kept r.id ∷ [])

  -- `UsageLedger.record`
  unfoldable pub record_usage :
      Text
      → TokenUsage
      → Attribution
      → List ModelProfileRecord
      → List UsageLedgerEntry
      → Outcome PersistenceError (List UsageLedgerEntry)
  unfolding flushed_usage
  record_usage model_key usage attribution rows entries =
      scalar_one_or_none multiple_results (with_key model_key rows)
      >>= ledger_with model_key attribution usage entries

-- `column == id`: NULL is equal to no id.
abbrev pub column_is : ℕ → Option ℕ → Bool
column_is id none = false
column_is id (some value) = eqb value id

-- `where(column == id)`, if there is an id to ask for.
abbrev pub narrowed :
    (UsageLedgerEntry → Option ℕ) → Option ℕ → List UsageLedgerEntry → List UsageLedgerEntry
narrowed column none entries = entries
narrowed column (some id) entries =
    select (λ (e : UsageLedgerEntry). column_is id (column e)) entries

module _ (decimal_add : Decimal → Decimal → Decimal) (decimal_zero : Decimal) where
  abbrev pub sum_costs : Decimal → List UsageLedgerEntry → Decimal
  sum_costs total [] = total
  sum_costs total (e ∷ entries) = sum_costs (decimal_add total e.cost_usd) entries

  -- `UsageLedger.total_cost`, with the table's rows added up in their order.
  unfoldable pub total_cost : Option ℕ → Option ℕ → List UsageLedgerEntry → Decimal
  total_cost project_id organization_id entries = sum_costs decimal_zero (
      narrowed (λ e. e.organization_id) organization_id
        (narrowed (λ e. e.project_id) project_id entries))
