-- ===== src/Engine/Errors.antt =====
-- services/workflow_engine/src/forgeai_workflow_engine/exceptions.py, and the exceptions that come
-- from outside it. Row ids are numbers, which are only compared.
use forge_ai_autonomous_soft.Common.{ℕ, Text, List, Bool, true, false, ◌≡◌, ap, refl}

pub data EngineError : Type 0 where
  invalid_transition : (current target entity : Text) → EngineError
  unknown_stage_dependency : (stage_id unknown_dependency : Text) → EngineError
  cyclic_dependency : (unresolved_stage_ids : List Text) → EngineError
  definition_already_registered : (key version : Text) → EngineError
  definition_not_found : (key version : Text) → EngineError
  invalid_version : (version : Text) → EngineError
  execution_not_found : (execution_id : ℕ) → EngineError
  stage_execution_not_found : (stage_execution_id : ℕ) → EngineError
  workflow_version_not_found : (workflow_version_id : ℕ) → EngineError
  stage_not_skippable : (stage_execution_id : ℕ) → EngineError
  approval_not_found : (approval_id : ℕ) → EngineError
  approval_already_decided : (approval_id : ℕ) → EngineError
  unsupported_approval_decision : EngineError
  -- What `DefinitionLoader` makes of a pydantic ValidationError.
  definition_validation : EngineError
  -- `IntegrityError` of a unique column.
  integrity_error : EngineError
  -- No exception of the program: a loop of the model out of fuel, which the theorems exclude.
  out_of_fuel : EngineError
  -- `ValueError` of Python itself, and of the model validators.
  value_error : EngineError
  -- `KeyError` of a dict or of `WorkflowDefinition.stage`.
  key_error : EngineError
  -- `StopIteration` of `next`, `OverflowError` of float and date arithmetic.
  stop_iteration overflow_error : EngineError
  -- What a stage runner raises.
  runner_raised : EngineError

-- The subclasses of `ValueError`, which pydantic wraps in its ValidationError where a validator
-- raises them.
abbrev pub is_value_error : EngineError → Bool
is_value_error (unknown_stage_dependency stage_id unknown_dependency) = true
is_value_error (cyclic_dependency unresolved_stage_ids) = true
is_value_error (invalid_version version) = true
is_value_error definition_validation = true
is_value_error value_error = true
is_value_error _ = false

-- A call that returns or raises.
pub data Result {ℓ} (A : Type ℓ) : Type ℓ where
  ok : A → Result A
  err : EngineError → Result A

infixl 5 ◌>>=◌ ◌>>◌
abbrev pub ◌>>=◌ {ℓ κ} : {A : Type ℓ} {B : Type κ} → Result A → (A → Result B) → Result B
ok a >>= f = f a
err e >>= f = err e

abbrev pub ◌>>◌ {ℓ κ} : {A : Type ℓ} {B : Type κ} → Result A → Result B → Result B
m >> k = m >>= λ _. k

-- `if not test: raise e`
abbrev pub require : Bool → EngineError → Result (Unit {0})
require true e = ok tt
require false e = err e

pub ok-injective {ℓ} : {A : Type ℓ} {a b : A} → ok a ≡ ok b → a ≡ b
ok-injective {a} e = ap (λ r. elim r [ ok v ↦ v | err _ ↦ a ]) e

-- The steps of a chain that succeeds.
pub then_ok :
    {A B : Type 0} (m : Result A) (f : A → Result B) (b : B)
    → (m >>= f) ≡ ok b
    → (a : A) × (m ≡ ok a) × (f a ≡ ok b)
then_ok (ok a) f b h = (a, refl, h)
then_ok (err e) f b h = absurd (cc)
