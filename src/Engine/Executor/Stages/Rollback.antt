-- ===== src/Engine/Executor/Stages/Rollback.antt =====
-- Which stages a failed workflow rolls back, and in which order.
use forge_ai_autonomous_soft.Common.{
  ℕ, Bool, true, some, List, [], ◌∷◌, ◌++◌, map, reverse, Text, text_eq, ◌==◌, ◌≡◌, refl, sym, ap,
  ◌∙◌, subst, arith, Bool-cases, Option-cases, inl, inr, some-injective, lookup, find,
}
use mathlib.Core.List.{append-nil, append_assoc}
use forge_ai_autonomous_soft.Engine.Errors.{Result, ok, err, EngineError}
use forge_ai_autonomous_soft.Engine.Definition.{WorkflowDefinition, StageDefinition, stage}
use forge_ai_autonomous_soft.Engine.Session.Rows.{WorkflowStageExecution}
use forge_ai_autonomous_soft.Engine.Session.Actions.{
  World, Store, Action, RunnerCall, StageRunContext, continue,
}
use forge_ai_autonomous_soft.Engine.StateManager.{get_stage_execution, stage_execution_at}
use forge_ai_autonomous_soft.Engine.Executor.Plan.{Statuses, Ids}
use forge_ai_autonomous_soft.Engine.Executor.Stages.{
  call_rollback, log_call, completed_keys, rollback_key, rollback_keys, rollback_completed_stages,
}

-- The tables after the runner was asked to roll back these stages in this order.
abbrev after_calls : List Text → Store → Store
after_calls [] s = s
after_calls (key ∷ keys) s = after_calls keys (log_call (RunnerCall.rollback key) s)

-- The stages that were tried are the first of `keys`, all of them if the call returned.
abbrev Traced : List Text → Store → Result (Unit {0}) × Store → Type 0
Traced keys s after =
    (tried : List Text) × (left : List Text) × (keys ≡ tried ++ left)
    × (after.1 ≡ after_calls tried s)
    × (after.0 ≡ ok tt → left ≡ [])

call-Traced :
    (w : World) (stage_def : StageDefinition) (context : StageRunContext) (s : Store)
    → Traced (stage_def.id ∷ []) s (call_rollback w stage_def context s)
unfolding call_rollback
call-Traced w stage_def context s = (stage_def.id ∷ [], [], refl, ground arith, λ h. refl)

find_passes :
    (p : StageDefinition → Bool) (xs : List StageDefinition) (x : StageDefinition)
    → find p xs ≡ some x
    → p x ≡ true
find_passes p [] x h = absurd (cc)
find_passes p (y ∷ ys) x h = elim (Bool-cases (p y)) [
  | inl here ↦ subst (λ z. p z ≡ true) (some-injective _ _ (ground arith)) here
  | inr there ↦ find_passes p ys x (ground arith)
]

stage-id :
    (key : Text) (definition : WorkflowDefinition) (d : StageDefinition)
    → stage key definition ≡ ok d
    → d.id ≡ key
unfolding stage
stage-id key definition d h =
    (text_eq.beq_iff d.id key).0
      (elim (Option-cases (find (λ (s : StageDefinition). s.id == key) definition.stages)) [
        | inl gone ↦ absurd (ground arith)
        | inr (x, found) ↦ find_passes (λ s. s.id == key) definition.stages d (ground arith)
      ])

untried : (keys : List Text) (s : Store) (e : EngineError) → Traced keys s (err e, s)
untried keys s e = ([], keys, refl, refl, λ h. absurd (cc))

rollback_key-Traced :
    (w : World) (definition : WorkflowDefinition) (ids : Ids) (i p : ℕ) (key : Text) (s : Store)
    → Traced (key ∷ []) s (rollback_key w definition ids i p key s)
unfolding rollback_key get_stage_execution
rollback_key-Traced w definition ids i p key s = elim (Option-cases (lookup key ids)) [
  | inl gone ↦ rw gone (untried _ s _)
  | inr (se_id, here) ↦ elim (Option-cases (stage_execution_at se_id s)) [
    | inl gone ↦ rw (here, gone) (untried _ s _)
    | inr (row, found) ↦ rw (here, found) (with_stage row (stage key definition) refl)
  ]
]
  where
    with_stage :
        (row : WorkflowStageExecution) (d : Result StageDefinition)
        → stage key definition ≡ d
        → Traced (key ∷ []) s (
            continue d
              (λ stage_def.
                call_rollback w stage_def
                  (record { workflow_execution_id = i; project_id = p; stage_input = row.input }))
              s)
    with_stage row (err e) same = untried _ s e
    with_stage row (ok d) same =
        subst
          (λ k. Traced (k ∷ []) s (
            call_rollback w d
              (record { workflow_execution_id = i; project_id = p; stage_input = row.input }) s))
          (stage-id key definition d same) (call-Traced w d _ s)

after_calls-append :
    (xs ys : List Text) (s : Store) → after_calls (xs ++ ys) s ≡ after_calls ys (after_calls xs s)
after_calls-append [] ys s = refl
after_calls-append (x ∷ xs) ys s = after_calls-append xs ys _

-- A stage, and then the others if it returns.
Traced-then :
    (key : Text) (keys : List Text) (s : Store) (after : Result (Unit {0}) × Store)
    (next : Action (Unit {0}))
    → Traced (key ∷ []) s after
    → ((t : Store) → Traced keys t (next t))
    → Traced (key ∷ keys) s (continue after.0 (λ _. next) after.1)
Traced-then key keys s (err e, t) next (tried, left, split, same, all) h = (
  tried,
  left ++ keys,
  ap (λ l. l ++ keys) split ∙ append_assoc tried left keys,
  same,
  λ k. absurd (cc),
)
Traced-then key keys s (ok tt, t) next (tried, left, split, same, all) h =
    let (tried', left', split', same', all') = h t in
    let first = split ∙ ap (λ l. tried ++ l) (all refl) ∙ append-nil tried in
    (
      key ∷ tried',
      left',
      ap (λ l. key ∷ l) split',
      same' ∙ ap (after_calls tried') (same ∙ ap (λ l. after_calls l s) (sym first)),
      all',
    )

rollback_keys-Traced :
    (w : World) (definition : WorkflowDefinition) (ids : Ids) (i p : ℕ) (keys : List Text)
    (s : Store)
    → Traced keys s (rollback_keys w definition ids i p keys s)
unfolding rollback_keys
rollback_keys-Traced w definition ids i p [] s = ([], [], refl, refl, λ h. refl)
rollback_keys-Traced w definition ids i p (key ∷ keys) s =
    Traced-then key keys s (rollback_key w definition ids i p key s)
      (rollback_keys w definition ids i p keys) (rollback_key-Traced w definition ids i p key s)
      (rollback_keys-Traced w definition ids i p keys)

-- The tables but for the runner's log, to which rollbacks of these stages are added in this order.
abbrev pub rolled_back : List Text → Store → Store
rolled_back keys s = record s {
  runner_calls = s.runner_calls ++ map (λ key. RunnerCall.rollback key) keys;
}

after_calls-rolled_back : (keys : List Text) (s : Store) → after_calls keys s ≡ rolled_back keys s
after_calls-rolled_back [] s =
    ap (λ l. record s { runner_calls = l }) (sym (append-nil s.runner_calls))
after_calls-rolled_back (key ∷ keys) s =
    after_calls-rolled_back keys (log_call (RunnerCall.rollback key) s)
    ∙ ap (λ l. record s { runner_calls = l })
        (append_assoc s.runner_calls (RunnerCall.rollback key ∷ [])
          (map (λ k. RunnerCall.rollback k) keys))

-- A rollback calls the runner once for each stage that is completed by the given statuses, in the
-- reverse of the definition's order, and writes nothing else. If it raises, the calls it has made
-- are the first of those.
pub rollback_completed_stages-order :
    (w : World) (i : ℕ) (definition : WorkflowDefinition) (statuses : Statuses) (ids : Ids) (p : ℕ)
    (s : Store)
    → (tried : List Text) × (left : List Text) × (reverse (completed_keys w definition statuses)
        ≡ tried ++ left)
      × ((rollback_completed_stages w i definition statuses ids p s).1 ≡ rolled_back tried s)
      × ((rollback_completed_stages w i definition statuses ids p s).0 ≡ ok tt → left ≡ [])
unfolding rollback_completed_stages
rollback_completed_stages-order w i definition statuses ids p s =
    let (tried, left, split, same, all) =
      rollback_keys-Traced w definition ids i p (reverse (completed_keys w definition statuses))
        s in
    (tried, left, split, same ∙ after_calls-rolled_back tried s, all)
