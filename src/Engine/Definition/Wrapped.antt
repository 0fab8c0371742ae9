-- ===== src/Engine/Definition/Wrapped.antt =====
-- The exceptions that leave the validators of definition.py: all are subclasses of ValueError, which
-- pydantic wraps.
use forge_ai_autonomous_soft.Common.{
  ℕ, zero, suc, ◌+◌, ◌*◌, ◌++◌, ◌&&◌, ◌≢◌, ltb, length, sort, text_leb, Bool, true, false, List, [],
  ◌∷◌, Text, text_eq, split, if◌then◌else◌, elem, ◌≡◌, refl, Bool-cases, Option-cases, inl, inr,
  arith,
}
use forge_ai_autonomous_soft.Core.{RetryPolicy}
use forge_ai_autonomous_soft.Engine.Errors.{
  Result, ok, err, EngineError, value_error, definition_validation, require, is_value_error,
  cyclic_dependency, out_of_fuel, ◌>>=◌,
}
use forge_ai_autonomous_soft.Engine.Version.{
  Unicode, parse_version, parse_parts, int, int_from, is_digit, char_decimal,
}
use forge_ai_autonomous_soft.Engine.Graph.{Dependencies, rounds, ready, without, topological_levels}
use forge_ai_autonomous_soft.Engine.Graph.Levels.{topological_levels-ne-out_of_fuel}
use forge_ai_autonomous_soft.Engine.Definition.{
  dependency_dict, StageDefinition, WorkflowDefinition, stage_ids, ids_are_unique, references_exist,
  handler_exists, references_are_real, execution_levels, validate_model, fields_ok, model_validate,
  caught,
}

-- A call that returns, or raises what pydantic wraps.
abbrev pub IsWrapped : {A : Type 0} → Result A → Type 0
IsWrapped (ok a) = Unit
IsWrapped (err e) = is_value_error e ≡ true

bind-IsWrapped :
    {A B : Type 0} (m : Result A) (f : A → Result B)
    → IsWrapped m
    → ((a : A) → IsWrapped (f a))
    → IsWrapped (m >>= f)
bind-IsWrapped (ok a) f h k = k a
bind-IsWrapped (err e) f h k = h

require-IsWrapped : (b : Bool) (e : EngineError) → is_value_error e ≡ true → IsWrapped (require b e)
require-IsWrapped true e h = tt
require-IsWrapped false e h = h

if-IsWrapped :
    {A : Type 0} (b : Bool) (m n : Result A)
    → IsWrapped m
    → IsWrapped n
    → IsWrapped (if b then m else n)
if-IsWrapped true m n h k = h
if-IsWrapped false m n h k = k

ids_are_unique-IsWrapped :
    (seen : List Text) (stages : List StageDefinition) → IsWrapped (ids_are_unique seen stages)
unfolding ids_are_unique
ids_are_unique-IsWrapped seen [] = tt
ids_are_unique-IsWrapped seen (s ∷ stages) =
    if-IsWrapped (elem s.id seen) _ _ refl (ids_are_unique-IsWrapped (s.id ∷ seen) stages)

references_exist-IsWrapped :
    (known : List Text) (i : Text) (deps : List Text) → IsWrapped (references_exist known i deps)
unfolding references_exist
references_exist-IsWrapped known i [] = tt
references_exist-IsWrapped known i (d ∷ deps) =
    if-IsWrapped (elem d known) _ _ (references_exist-IsWrapped known i deps) refl

handler_exists-IsWrapped :
    (known : List Text) (s : StageDefinition) → IsWrapped (handler_exists known s)
unfolding handler_exists
handler_exists-IsWrapped known s = elim (Option-cases s.failure_handler) [
  | inl gone ↦ rw gone tt
  | inr (handler, named) ↦ rw named (if-IsWrapped (elem handler known) _ _ tt refl)
]

references_are_real-IsWrapped :
    (known : List Text) (stages : List StageDefinition)
    → IsWrapped (references_are_real known stages)
unfolding references_are_real
references_are_real-IsWrapped known [] = tt
references_are_real-IsWrapped known (s ∷ stages) =
    bind-IsWrapped (references_exist known s.id s.depends_on) _
      (references_exist-IsWrapped known s.id s.depends_on)
      (λ _.
        bind-IsWrapped (handler_exists known s) _ (handler_exists-IsWrapped known s)
          (λ _. references_are_real-IsWrapped known stages))

rounds-IsWrapped :
    (depends_on : Dependencies) (fuel : ℕ) (remaining resolved : List Text)
    (levels : List (List Text))
    → rounds depends_on fuel remaining resolved levels ≢ err out_of_fuel
    → IsWrapped (rounds depends_on fuel remaining resolved levels)
unfolding rounds
rounds-IsWrapped depends_on fuel [] resolved levels h = tt
rounds-IsWrapped depends_on zero (r ∷ rs) resolved levels h = absurd (h refl)
rounds-IsWrapped depends_on (suc fuel) (r ∷ rs) resolved levels h =
    go
      (λ found.
        rounds-IsWrapped depends_on fuel (without found (r ∷ rs)) (resolved ++ found)
          (levels ++ found ∷ []))
      (ready depends_on resolved (r ∷ rs)) h
  where
    go :
        (later : (found : List Text)
          → rounds depends_on fuel
              (without found (r ∷ rs))
              (resolved ++ found)
              (levels ++ found ∷ [])
            ≢ err out_of_fuel
          → IsWrapped (
              rounds depends_on fuel
                (without found (r ∷ rs))
                (resolved ++ found)
                (levels ++ found ∷ [])))
        (found : List Text)
        → (elim found [
          | [] ↦ err (cyclic_dependency (sort text_leb (r ∷ rs)))
          | f ∷ more ↦
              rounds depends_on fuel
                (without (f ∷ more) (r ∷ rs))
                (resolved ++ f ∷ more)
                (levels ++ (f ∷ more) ∷ [])
        ])
          ≢ err out_of_fuel
        → IsWrapped (elim found [
          | [] ↦ err (cyclic_dependency (sort text_leb (r ∷ rs)))
          | f ∷ more ↦
              rounds depends_on fuel
                (without (f ∷ more) (r ∷ rs))
                (resolved ++ f ∷ more)
                (levels ++ (f ∷ more) ∷ [])
        ])
    go later [] k = refl
    go later (f ∷ more) k = later (f ∷ more) k

topological_levels-IsWrapped :
    (stage_ids : List Text) (depends_on : Dependencies)
    → topological_levels stage_ids depends_on ≢ err out_of_fuel
    → IsWrapped (topological_levels stage_ids depends_on)
unfolding topological_levels
topological_levels-IsWrapped stage_ids depends_on h = rounds-IsWrapped depends_on _ _ _ _ h

validate_model-IsWrapped : (d : WorkflowDefinition) → IsWrapped (validate_model d)
unfolding validate_model execution_levels
validate_model-IsWrapped d =
    bind-IsWrapped (ids_are_unique [] d.stages) _ (ids_are_unique-IsWrapped [] d.stages) (λ _.
      bind-IsWrapped (references_are_real (stage_ids d.stages) d.stages) _
        (references_are_real-IsWrapped (stage_ids d.stages) d.stages)
        (λ _.
          bind-IsWrapped (execution_levels d) _
            (topological_levels-IsWrapped (stage_ids d.stages) (dependency_dict d.stages []) (
              topological_levels-ne-out_of_fuel (stage_ids d.stages) (dependency_dict d.stages [])))
            (λ _. tt)))

module _ (unicode : Unicode) where
  int_from-IsWrapped : (acc : ℕ) (t : Text) → IsWrapped (int_from unicode acc t)
  unfolding int_from
  int_from-IsWrapped acc [] = tt
  int_from-IsWrapped acc (c ∷ t) = elim (Option-cases (char_decimal unicode c)) [
    | inl gone ↦ rw (gone, int_from) refl
    | inr (d, known) ↦ rw (known, int_from) (int_from-IsWrapped (acc * 10 + d) t)
  ]

  int-IsWrapped : (t : Text) → IsWrapped (int unicode t)
  unfolding int
  int-IsWrapped t = if-IsWrapped (ltb 4300 (length t)) _ _ refl (int_from-IsWrapped 0 t)

  parse_parts-IsWrapped :
      (version : Text) (parts : List Text) → IsWrapped (parse_parts unicode version parts)
  unfolding parse_parts
  parse_parts-IsWrapped version [] = refl
  parse_parts-IsWrapped version (p ∷ []) = refl
  parse_parts-IsWrapped version (p ∷ q ∷ []) = refl
  parse_parts-IsWrapped version (p ∷ q ∷ r ∷ []) =
      if-IsWrapped (is_digit unicode p && is_digit unicode q && is_digit unicode r) _ _
        (bind-IsWrapped (int unicode p) _ (int-IsWrapped p) (λ _.
          bind-IsWrapped (int unicode q) _ (int-IsWrapped q)
            (λ _. bind-IsWrapped (int unicode r) _ (int-IsWrapped r) (λ _. tt))))
        refl
  parse_parts-IsWrapped version (p ∷ q ∷ r ∷ s ∷ more) = refl

  parse_version-IsWrapped : (version : Text) → IsWrapped (parse_version unicode version)
  unfolding parse_version
  parse_version-IsWrapped version = parse_parts-IsWrapped version (split b'.' version)

  -- No exception but those that pydantic wraps leaves the validators.
  pub model_validate-IsWrapped :
      (ok_floats : RetryPolicy → Bool) (d : WorkflowDefinition)
      → IsWrapped (model_validate unicode ok_floats d)
  unfolding model_validate
  model_validate-IsWrapped ok_floats d =
      bind-IsWrapped (require (fields_ok unicode ok_floats d) value_error) _
        (require-IsWrapped (fields_ok unicode ok_floats d) value_error refl)
        (λ _.
          bind-IsWrapped (parse_version unicode d.version) _ (parse_version-IsWrapped d.version)
            (λ _. bind-IsWrapped (validate_model d) _ (validate_model-IsWrapped d) (λ _. tt)))

pub caught_ok : {A : Type 0} (r : Result A) (a : A) → caught r ≡ ok a → r ≡ ok a
caught_ok (ok v) a h = h
caught_ok (err e) a h = elim (Bool-cases (is_value_error e)) [
  | inl wrapped ↦ absurd (ground arith)
  | inr escapes ↦ absurd (ground arith)
]

pub caught_err :
    {A : Type 0} (r : Result A) (e : EngineError)
    → IsWrapped r
    → caught r ≡ err e
    → e ≡ definition_validation
caught_err (ok v) e h k = absurd (cc)
caught_err (err c) e h k = ground (arith, h)
