-- ===== src/Tests/Completions.antt =====
-- Two models, of which the first fails, and the tables of usage.
use forge_ai_autonomous_soft.Common.{
  Option, if◌then◌else◌, ◌+◌, ◌*◌, ◌≤◌, ltb, text_eq, ◌==◌, true, false, none, some, List, [], ◌∷◌,
  length, Text, codes, ◌≡◌, ◌≢◌, refl, suc,
}
use forge_ai_autonomous_soft.Common.Outcome.{returned}
use forge_ai_autonomous_soft.Models.Profile.{Decimal, ModelProfile, ModelTier, Role}
use forge_ai_autonomous_soft.Models.Router.{RouterWorld, RouterLog, Completion, complete, policy}
use forge_ai_autonomous_soft.Models.Router.Fallback.{
  shown, schedule, first_success, complete-first_success,
}
use forge_ai_autonomous_soft.Models.Router.Billing.{
  IsBilled, complete-IsBilled, attempts_of, attempts-complete-le,
}
use forge_ai_autonomous_soft.Models.Persistence.{ModelProfileRecord, new_record, save, find_profile}
use forge_ai_autonomous_soft.Models.Persistence.Upsert.{find_profile-save}
use forge_ai_autonomous_soft.Tests.Samples.{sample_policy}

abbrev fast_model : ModelProfile
fast_model = record {
  key = codes "fast";
  provider = codes "mock";
  model_id = codes "m1";
  tier = ModelTier.fast_cheap;
  context_window = 1000;
  supports_tools = false;
  supports_structured_output = false;
  cost_per_1m_input = 1;
  cost_per_1m_output = 2;
  is_active = true;
}

abbrev good_model : ModelProfile
good_model = record fast_model { key = codes "good" }

-- The first two attempts fail.
abbrev sample_router : RouterWorld
sample_router = record {
  call_provider = λ n provider request profile seconds. elim (ltb n 2) [
    | true ↦ none
    | false ↦ some (record {
      text = codes "hello";
      finish_reason = codes "stop";
      input_tokens = 3;
      output_tokens = 4;
    })
  ];
  recorder_error = λ entry. none;
  float_literal = λ text. 1;
  float_mul = λ x y. x * y;
  float_min = λ x y. x;
  decimal_of = λ n. n;
  decimal_add = λ x y. x + y;
  decimal_mul = λ x y. x * y;
  decimal_div = λ x y. x;
}

abbrev sample_completion : Completion
sample_completion = record {
  registry = (codes "fast", fast_model) ∷ (codes "good", good_model) ∷ [];
  providers = (codes "mock", 1) ∷ [];
  request = record {
    earlier_messages = [];
    last_message = record { role = Role.user; content = codes "hi" };
    max_tokens = none;
    temperature = 7;
  };
  retry_policy = some sample_policy;
  timeout_policy = none;
  has_recorder = true;
  attribution = record {
    organization_id = none;
    project_id = some 4;
    workflow_execution_id = none;
  };
}

abbrev both_models : List Text
both_models = codes "fast" ∷ codes "good" ∷ []

abbrev no_log : RouterLog
no_log = record { sleeps = []; recorded = [] }

-- One retry of the first model, then the second one.
third_attempt :
    attempts_of sample_router sample_completion
      (shown (complete sample_router sample_completion both_models no_log))
    ≡ 3
unfolding complete
third_attempt = refl

complete-first_success_example :
    shown (complete sample_router sample_completion both_models no_log)
    ≡ first_success sample_router sample_completion both_models
        (schedule sample_router sample_completion both_models)
        0
        []
complete-first_success_example =
    complete-first_success sample_router sample_completion both_models no_log

complete-IsBilled_example :
    IsBilled sample_router sample_completion []
      (shown (complete sample_router sample_completion both_models no_log))
complete-IsBilled_example = complete-IsBilled sample_router sample_completion both_models no_log

attempts-complete-le_example :
    attempts_of sample_router sample_completion
      (shown (complete sample_router sample_completion both_models no_log))
    ≤ length both_models * suc (policy sample_router sample_completion).max_attempts
attempts-complete-le_example =
    attempts-complete-le sample_router sample_completion both_models no_log

good_is_not_fast : codes "good" ≢ codes "fast"
good_is_not_fast e =
    let same : (codes "good" == codes "fast") ≡ true =
      (text_eq.beq_iff (codes "good") (codes "fast")).1 e in
    absurd (cc)

abbrev saved_rows : List ModelProfileRecord
saved_rows = new_record 1 (record fast_model { is_active = false }) ∷ []

abbrev rows_after : List ModelProfileRecord
rows_after = new_record 1 fast_model ∷ []

-- A column for whole amounts below a thousand.
abbrev sample_numeric : Decimal → Option Decimal
sample_numeric d = if ltb d 1000 then some d else none

save_over : save sample_numeric 2 fast_model saved_rows ≡ returned rows_after
unfolding save
save_over = refl

find_profile-save_example :
    (input : Decimal) × (output : Decimal) × (sample_numeric fast_model.cost_per_1m_input
      ≡ some input)
    × (sample_numeric fast_model.cost_per_1m_output ≡ some output)
    × (find_profile (λ d. true) (codes "fast") rows_after
        ≡ returned
            (some (record fast_model { cost_per_1m_input = input; cost_per_1m_output = output })))
    × (find_profile (λ d. true) (codes "good") rows_after
        ≡ find_profile (λ d. true) (codes "good") saved_rows)
find_profile-save_example =
    find_profile-save (λ d. true) sample_numeric 2 fast_model saved_rows rows_after (codes "good")
      (λ cost kept e h. refl) refl save_over good_is_not_fast
