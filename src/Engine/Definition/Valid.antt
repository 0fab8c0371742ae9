-- ===== src/Engine/Definition/Valid.antt =====
-- What a definition that loads satisfies.
use forge_ai_autonomous_soft.Common.{
  Bool, true, false, Option, none, some, List, [], ◌∷◌, Text, text_eq, if◌then◌else◌, elem, ◌==◌,
  ◌≡◌, refl, sym, All, All-mono, IsNodup, Bool-cases, Option-cases, inl, inr, arith,
}
use forge_ai_autonomous_soft.Core.{RetryPolicy}
use forge_ai_autonomous_soft.Engine.Errors.{
  ok-injective, then_ok, ok, err, EngineError, value_error, definition_validation, require,
}
use forge_ai_autonomous_soft.Engine.Version.{Unicode, Triple, parse_version}
use forge_ai_autonomous_soft.Engine.Definition.Wrapped.{
  model_validate-IsWrapped, caught_ok, caught_err,
}
use forge_ai_autonomous_soft.Engine.Definition.{
  StageDefinition, WorkflowDefinition, stage_ids, ids_are_unique, references_exist, handler_exists,
  references_are_real, execution_levels, validate_model, fields_ok, model_validate, load_from_dict,
}

-- The handler is one of `known`, if there is one.
abbrev pub HandlerIn : List Text → Option Text → Type 0
HandlerIn known none = Unit
HandlerIn known (some handler) = elem handler known ≡ true

-- A stage that refers to stages of `known` only.
abbrev pub RefersTo : List Text → StageDefinition → Type 0
RefersTo known stage =
    All (λ dependency. elem dependency known ≡ true) stage.depends_on
    × HandlerIn known stage.failure_handler

-- What the engine relies on in a definition.
pub record IsSound (unicode : Unicode) (d : WorkflowDefinition) : Type 0 where
  pub version : Triple
  pub version_parses : parse_version unicode d.version ≡ ok version
  pub distinct : IsNodup (stage_ids d.stages)
  pub references : All (RefersTo (stage_ids d.stages)) d.stages
  pub levels : List (List Text)
  pub has_levels : execution_levels d ≡ ok levels

text_neq_sym : (a b : Text) → (a == b) ≡ false → (b == a) ≡ false
text_neq_sym a b h = ground (arith, text_eq.beq_iff a b, text_eq.beq_iff b a)

fresh_id :
    (i : Text) (seen : List Text) (stages : List StageDefinition)
    → All (λ (s : StageDefinition). elem s.id (i ∷ seen) ≡ false) stages
    → elem i (stage_ids stages) ≡ false
fresh_id i seen [] h = refl
fresh_id i seen (s ∷ stages) h =
    ground (arith, fresh_id i seen stages h.1, text_neq_sym s.id i, h.0)

unique_ids :
    (seen : List Text) (stages : List StageDefinition)
    → ids_are_unique seen stages ≡ ok tt
    → All (λ (s : StageDefinition). elem s.id seen ≡ false) stages × IsNodup (stage_ids stages)
unfolding ids_are_unique
unique_ids seen [] h = (tt, tt)
unique_ids seen (s ∷ stages) h = go (elem s.id seen) refl h (unique_ids (s.id ∷ seen) stages)
  where
    go :
        (b : Bool)
        → elem s.id seen ≡ b
        → (if b then err value_error else ids_are_unique (s.id ∷ seen) stages) ≡ ok tt
        → (ids_are_unique (s.id ∷ seen) stages ≡ ok tt
            → All (λ (r : StageDefinition). elem r.id (s.id ∷ seen) ≡ false) stages
              × IsNodup (stage_ids stages))
        → All (λ (s : StageDefinition). elem s.id seen ≡ false) (s ∷ stages)
          × IsNodup (stage_ids (s ∷ stages))
    go true e h later = absurd (cc)
    go false e h later =
        let (others, distinct) = later h in
        (
          (e, All-mono (λ r k. ground arith) stages others),
          (fresh_id s.id seen stages others, distinct),
        )

references_of :
    (known : List Text) (i : Text) (deps : List Text)
    → references_exist known i deps ≡ ok tt
    → All (λ dependency. elem dependency known ≡ true) deps
unfolding references_exist
references_of known i [] h = tt
references_of known i (d ∷ deps) h = elim (Bool-cases (elem d known)) [
  | inl here ↦ (here, references_of known i deps (ground arith))
  | inr gone ↦ absurd (ground arith)
]

handler_of :
    (known : List Text) (s : StageDefinition)
    → handler_exists known s ≡ ok tt
    → HandlerIn known s.failure_handler
unfolding handler_exists
handler_of known s h = elim (Option-cases s.failure_handler) [
  | inl gone ↦ rw gone tt
  | inr (handler, named) ↦ elim (Bool-cases (elem handler known)) [
    | inl here ↦ rw named here
    | inr gone ↦ absurd (ground arith)
  ]
]

real_references :
    (known : List Text) (stages : List StageDefinition)
    → references_are_real known stages ≡ ok tt
    → All (RefersTo known) stages
unfolding references_are_real
real_references known [] h = tt
real_references known (s ∷ stages) h =
    let (_, deps, h') = then_ok (references_exist known s.id s.depends_on) _ _ h in
    let (_, handler, h'') = then_ok (handler_exists known s) _ _ h' in
    (
      (references_of known s.id s.depends_on deps, handler_of known s handler),
      real_references known stages h'',
    )

valid_model :
    (unicode : Unicode) (ok_floats : RetryPolicy → Bool) (d d' : WorkflowDefinition)
    → model_validate unicode ok_floats d ≡ ok d'
    → (d' ≡ d) × IsSound unicode d
unfolding model_validate validate_model
valid_model unicode ok_floats d d' h =
    let (_, _, h1) = then_ok (require (fields_ok unicode ok_floats d) value_error) _ _ h in
    let (version, parses, h2) = then_ok (parse_version unicode d.version) _ _ h1 in
    let (_, valid, h3) = then_ok (validate_model d) _ _ h2 in
    let (_, unique, h4) = then_ok (ids_are_unique [] d.stages) _ _ valid in
    let (_, real, h5) = then_ok (references_are_real (stage_ids d.stages) d.stages) _ _ h4 in
    let (levels, has, _) = then_ok (execution_levels d) _ _ h5 in
    (
      sym (ok-injective h3),
      record {
        version = version;
        version_parses = parses;
        distinct = (unique_ids [] d.stages unique).1;
        references = real_references (stage_ids d.stages) d.stages real;
        levels = levels;
        has_levels = has;
      },
    )

-- A definition that loads is returned as it was given, its version parses, its stage ids are
-- distinct, every dependency and every failure handler is one of its stages, and it has execution
-- levels. One that does not load is refused with a DefinitionValidationError: no validator raises
-- an exception that pydantic does not wrap, which would escape the loader.
pub load_from_dict-IsSound :
    (unicode : Unicode) (ok_floats : RetryPolicy → Bool) (d : WorkflowDefinition)
    → ((d' : WorkflowDefinition)
        → load_from_dict unicode ok_floats d ≡ ok d'
        → (d' ≡ d) × IsSound unicode d)
      × ((e : EngineError) → load_from_dict unicode ok_floats d ≡ err e → e ≡ definition_validation)
unfolding load_from_dict
load_from_dict-IsSound unicode ok_floats d = (
  λ d' h. valid_model unicode ok_floats d d' (caught_ok _ d' h),
  λ e h. caught_err _ e (model_validate-IsWrapped unicode ok_floats d) h,
)
