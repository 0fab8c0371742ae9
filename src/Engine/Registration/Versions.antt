-- ===== src/Engine/Registration/Versions.antt =====
-- What a registration writes, and that a version is registered only once.
use forge_ai_autonomous_soft.Common.{
  ℕ, ◌+◌, ◌≡◌, refl, sym, ap, ◌∙◌, ◌&&◌, Option, none, some, List, [], ◌∷◌, ◌++◌, Text, text_eq,
  eqb, ◌==◌, arith, subst, Bool-cases, inl, inr,
}
use mathlib.Core.List.{append-nil, append_assoc}
use forge_ai_autonomous_soft.Engine.Errors.{
  Result, ok, err, ok-injective, definition_already_registered,
}
use forge_ai_autonomous_soft.Engine.Definition.{WorkflowDefinition, StageDefinition}
use forge_ai_autonomous_soft.Engine.Session.Rows.{Workflow, WorkflowVersion, WorkflowStage}
use forge_ai_autonomous_soft.Engine.Session.Actions.{Store, fresh}
use forge_ai_autonomous_soft.Engine.Registration.{
  existing, version_row, stage_row, add_stages, add_version, register_version,
}

-- The rows of the stages, with every column, and ids and indexes counted on.
abbrev pub stage_rows_from : ℕ → ℕ → ℕ → List StageDefinition → List WorkflowStage
stage_rows_from i version_id index [] = []
stage_rows_from i version_id index (stage ∷ stages) =
    record {
      id = i;
      workflow_version_id = version_id;
      stage_key = stage.id;
      name = stage.name;
      sequence_index = index;
      depends_on = stage.depends_on;
      capability_key = stage.capability;
      retry_policy = stage.retry_policy;
      timeout_policy = stage.timeout;
      requires_approval = stage.requires_approval;
      allow_skip = stage.allow_skip;
    }
    ∷ stage_rows_from (i + 1) version_id (index + 1) stages

add_stages_lem :
    (version_id index : ℕ) (stages : List StageDefinition) (s : Store)
    → ((add_stages version_id index stages s).0 ≡ ok tt)
      × ((add_stages version_id index stages s).1.versions ≡ s.versions)
      × ((add_stages version_id index stages s).1.stages
          ≡ s.stages ++ stage_rows_from s.next_id version_id index stages)
unfolding add_stages fresh
add_stages_lem version_id index [] s = (refl, refl, sym (append-nil s.stages))
add_stages_lem version_id index (stage ∷ stages) s =
    let (returns, versions, rows) = add_stages_lem version_id (index + 1) stages (record s {
      next_id = s.next_id + 1;
      stages = s.stages ++ stage_row s.next_id version_id index stage ∷ [];
    }) in
    (
      returns,
      versions,
      rows
          ∙ append_assoc s.stages (stage_row s.next_id version_id index stage ∷ [])
              (stage_rows_from (s.next_id + 1) version_id (index + 1) stages),
    )

-- The tables before the stages are added.
abbrev with_version : Workflow → WorkflowDefinition → Store → Store
with_version workflow definition s = record s {
  next_id = s.next_id + 1;
  versions = s.versions ++ version_row s.next_id workflow definition ∷ [];
}

add_version_lem :
    (workflow : Workflow) (definition : WorkflowDefinition) (s : Store)
    → add_version workflow definition none s ≡ (
      ok s.next_id,
      (add_stages s.next_id 0 definition.stages (with_version workflow definition s)).1,
    )
unfolding fresh
add_version_lem workflow definition s =
    rw (add_stages_lem s.next_id 0 definition.stages (with_version workflow definition s)).0 refl

existing-append :
    (i : ℕ) (version : Text) (rows : List WorkflowVersion) (row : WorkflowVersion)
    → row.workflow_id ≡ i
    → row.version ≡ version
    → (found : WorkflowVersion) × (existing i version (rows ++ row ∷ []) ≡ some found)
existing-append i version [] row h k =
    (row, ground (arith, h, (text_eq.beq_iff row.version version).1 k))
existing-append i version (r ∷ rows) row h k =
    elim (Bool-cases (eqb r.workflow_id i && r.version == version)) [
      | inl here ↦ (r, rw here refl)
      | inr there ↦ let (found, e) = existing-append i version rows row h k in (found, rw there e)
    ]

-- What a registration that succeeded has written, and what follows from it.
pub record IsRegistered (workflow : Workflow) (definition : WorkflowDefinition) (s after : Store)
    (i : ℕ) : Type 0 where
  -- There was no such version.
  pub new : existing workflow.id definition.version s.versions ≡ none
  -- One row for the version, with the whole definition.
  pub versions : after.versions ≡ s.versions ++ version_row i workflow definition ∷ []
  -- One row for each stage, in order, numbered from 0, with the stage's data in every column.
  pub stages : after.stages ≡ s.stages ++ stage_rows_from (i + 1) i 0 definition.stages
  -- No definition of that version is registered again, and the attempt writes nothing.
  pub once :
      (again : Workflow) (d : WorkflowDefinition)
      → again.id ≡ workflow.id
      → d.version ≡ definition.version
      → register_version again d after
        ≡ (err (definition_already_registered again.key d.version), after)

-- A registration that succeeds found no such version of the workflow, and has added the version with
-- the whole definition and one row for each stage, in order, with its key, name, dependencies,
-- capability, policies and flags; after it, every registration of the same version of that workflow
-- raises and writes nothing.
pub register_version-IsRegistered :
    (workflow : Workflow) (definition : WorkflowDefinition) (s : Store) (i : ℕ)
    → (register_version workflow definition s).0 ≡ ok i
    → IsRegistered workflow definition s (register_version workflow definition s).1 i
unfolding register_version
register_version-IsRegistered workflow definition s i h =
    go (existing workflow.id definition.version s.versions) refl h
  where
    after : Store
    after = (add_stages s.next_id 0 definition.stages (with_version workflow definition s)).1

    registered :
        existing workflow.id definition.version s.versions ≡ none
        → IsRegistered workflow definition s
            (add_stages s.next_id 0 definition.stages (with_version workflow definition s)).1
            s.next_id
    registered free =
        let (_, versions, stages) =
          add_stages_lem s.next_id 0 definition.stages (with_version workflow definition s) in
        record {
          new = free;
          versions = versions;
          stages = stages;
          once = λ again d same_id same_version.
              let (found, e) =
                existing-append again.id d.version s.versions
                  (version_row s.next_id workflow definition) (sym same_id) (sym same_version) in
              ap (λ o. add_version again d o after) (ap (existing again.id d.version) versions ∙ e);
        }

    go :
        (o : Option WorkflowVersion)
        → existing workflow.id definition.version s.versions ≡ o
        → (add_version workflow definition o s).0 ≡ ok i
        → IsRegistered workflow definition s (add_version workflow definition o s).1 i
    go (some row) e k = absurd (cc)
    go none e k =
        let same = add_version_lem workflow definition s in
        subst (IsRegistered workflow definition s (add_version workflow definition none s).1)
          (ok-injective (ap (λ (r : Result ℕ × Store). r.0) (sym same) ∙ k))
          (subst (λ (r : Result ℕ × Store). IsRegistered workflow definition s r.1 s.next_id)
            (sym same) (registered e))
