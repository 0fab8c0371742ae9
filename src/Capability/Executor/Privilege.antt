-- ===== src/Capability/Executor/Privilege.antt =====
-- What has to hold before an implementation runs, and before its result is let out.
use forge_ai_autonomous_soft.Common.{
  ℕ, Option, none, some, List, [], ◌∷◌, ◌++◌, Text, text_eq, pair_eq, codes, lookup, ◌≡◌, refl,
  subst,
}
use forge_ai_autonomous_soft.Common.Outcome.{Outcome, returned, raised, ◌>>=◌, returned-bind}
use forge_ai_autonomous_soft.Common.Catalog.{or_missing}
use forge_ai_autonomous_soft.Capability.Errors.{CapabilityError, capability_not_found}
use forge_ai_autonomous_soft.Capability.Permissions.{
  Permission, check_permissions, IsGranted, check_permissions_iff,
}
use forge_ai_autonomous_soft.Capability.Definition.{CapabilityDefinition, JsonObject}
use forge_ai_autonomous_soft.Capability.Registry.{
  CapabilityRegistry, get_entry, get_definition, get_implementation,
}
use forge_ai_autonomous_soft.Capability.Executor.{
  CapabilityContext, CapabilityResult, Validation, valid, invalid, broken, Outside, Call,
  of_validation, validate_data, admit, released, called, calls_made, execute_capability,
}

-- A capability that may run on this input: registered, with all that it requires granted, and with
-- an input that its schema admits.
pub record MayRun (outside : Outside) (capability_id version input_data : Text)
    (granted : List Permission) (registry : CapabilityRegistry) (definition : CapabilityDefinition)
    (implementation : ℕ) : Type 0 where
  pub registered : lookup (capability_id, version) registry ≡ some (definition, implementation)
  pub granted_all : IsGranted granted definition.permissions
  pub input_valid : outside.validate_json definition.input_schema input_data ≡ valid

module _ (outside : Outside) where
  validated :
      (capability_id kind : Text) (schema : JsonObject) (value : Text)
      → validate_data outside capability_id kind schema value ≡ returned tt
      → outside.validate_json schema value ≡ valid
  unfolding validate_data
  validated capability_id kind schema value h = go (outside.validate_json schema value) h
    where
      go : (v : Validation) → of_validation capability_id kind v ≡ returned tt → v ≡ valid
      go valid k = refl
      go (invalid reason) k = absurd (cc)
      go (broken type_name text) k = absurd (cc)

  -- The two lookups of a call find one entry.
  one_entry :
      (capability_id version : Text) (registry : CapabilityRegistry)
      (definition : CapabilityDefinition) (implementation : ℕ)
      → get_definition capability_id version registry ≡ returned definition
      → get_implementation capability_id version registry ≡ returned implementation
      → lookup (capability_id, version) registry ≡ some (definition, implementation)
  unfolding get_definition get_implementation get_entry
  one_entry capability_id version registry definition implementation =
      go (lookup (capability_id, version) registry)
    where
      go :
          (o : Option (CapabilityDefinition × ℕ))
          → (or_missing (capability_not_found capability_id version) o >>= λ entry.
              returned entry.0)
            ≡ returned definition
          → (or_missing (capability_not_found capability_id version) o >>= λ entry.
              returned entry.1)
            ≡ returned implementation
          → o ≡ some (definition, implementation)
      go none h k = absurd (cc)
      go (some (d, i)) h k = cc

  pub admit-MayRun :
      (capability_id version input_data : Text) (granted : List Permission)
      (registry : CapabilityRegistry) (definition : CapabilityDefinition) (implementation : ℕ)
      → admit outside capability_id version input_data granted registry
        ≡ returned (definition, implementation)
      → MayRun outside capability_id version input_data granted registry definition implementation
  unfolding admit
  admit-MayRun capability_id version input_data granted registry definition implementation h =
      let found = returned-bind (get_definition capability_id version registry) _ _ h in
      let permitted =
        returned-bind (check_permissions capability_id found.0.permissions granted) _ _ found.2 in
      let admitted =
        returned-bind
          (validate_data outside capability_id (codes "input") found.0.input_schema input_data) _ _
          permitted.2 in
      let chosen =
        returned-bind (get_implementation capability_id version registry) _ _ admitted.2 in
      let definition_same : found.0 ≡ definition = cc in
      let implementation_same : chosen.0 ≡ implementation = cc in
      let may_run : MayRun outside capability_id version input_data granted registry found.0
          chosen.0 =
        record {
          registered = one_entry capability_id version registry found.0 chosen.0 found.1 chosen.1;
          granted_all =
              (check_permissions_iff capability_id found.0.permissions granted).0 permitted.1;
          input_valid =
              validated capability_id (codes "input") found.0.input_schema input_data admitted.1;
        } in
      subst (λ i. MayRun outside capability_id version input_data granted registry definition i)
        implementation_same
        (subst (λ d. MayRun outside capability_id version input_data granted registry d chosen.0)
          definition_same may_run)

  -- What a result that is let out is: an implementation's, with an output that the schema admits.
  released_valid :
      (capability_id : Text) (definition : CapabilityDefinition)
      (answer : Outcome CapabilityError CapabilityResult) (result : CapabilityResult)
      → released outside capability_id definition answer ≡ returned result
      → (answer ≡ returned result)
        × (outside.validate_json definition.output_schema result.output ≡ valid)
  unfolding released
  released_valid capability_id definition answer result h =
      let ran = returned-bind answer _ _ h in
      let checked =
        returned-bind
          (validate_data outside capability_id (codes "output") definition.output_schema
            ran.0.output)
          _ _ ran.2 in
      let same : ran.0 ≡ result = cc in
      subst
        (λ r.
          (answer ≡ returned r) × (outside.validate_json definition.output_schema r.output ≡ valid))
        same
        (
          ran.1,
          validated capability_id (codes "output") definition.output_schema ran.0.output checked.1,
        )

  -- The call of an implementation in its place: what the executor hands it.
  abbrev pub answer_of :
      CapabilityContext
      → Text
      → CapabilityDefinition
      → ℕ
      → List Call
      → Outcome CapabilityError CapabilityResult
  answer_of context input_data definition implementation calls =
      outside.execute (calls_made calls) implementation
        (record context { capability_definition = some definition }) input_data

  -- What an execution did: it raised and called nothing, or it called one implementation.
  pub data Executed (capability_id version : Text) (context : CapabilityContext) (input_data : Text)
      (granted : List Permission) (registry : CapabilityRegistry) (calls : List Call)
      : Outcome CapabilityError CapabilityResult × List Call → Type 0 where
    refused :
        (e : CapabilityError)
        → Executed capability_id version context input_data granted registry calls (raised e, calls)
    ran :
        (definition : CapabilityDefinition) (implementation : ℕ)
        → MayRun outside capability_id version input_data granted registry definition implementation
        → Executed capability_id version context input_data granted registry calls (
          released outside capability_id definition
              (answer_of context input_data definition implementation calls),
          calls ++ (implementation, input_data) ∷ [],
        )

  -- An execution either raises and calls no implementation, or it calls exactly one: the one that is
  -- registered for the id and the version, whose definition requires granted permissions only and
  -- has an input schema that admits the input.
  pub execute_capability-Executed :
      (capability_id version : Text) (context : CapabilityContext) (input_data : Text)
      (granted : List Permission) (registry : CapabilityRegistry) (calls : List Call)
      → Executed capability_id version context input_data granted registry calls (
          execute_capability outside capability_id version context input_data granted registry
            calls)
  unfolding execute_capability
  execute_capability-Executed capability_id version context input_data granted registry calls =
      go (admit outside capability_id version input_data granted registry)
        (admit-MayRun capability_id version input_data granted registry)
    where
      go :
          (m : Outcome CapabilityError (CapabilityDefinition × ℕ))
          → ((definition : CapabilityDefinition) (implementation : ℕ)
              → m ≡ returned (definition, implementation)
              → MayRun outside capability_id version input_data granted registry definition
                  implementation)
          → Executed capability_id version context input_data granted registry calls
              (called outside capability_id context input_data m calls)
      go (raised e) may_run = refused e
      go (returned (definition, implementation)) may_run =
          ran definition implementation (may_run definition implementation refl)

  -- A result that an execution returns is the answer to its one call, by an implementation that may
  -- run on this input, and the output schema of its definition admits the result's output.
  pub execute_capability-returned :
      (capability_id version : Text) (context : CapabilityContext) (input_data : Text)
      (granted : List Permission) (registry : CapabilityRegistry) (calls : List Call)
      (result : CapabilityResult)
      → (execute_capability outside capability_id version context input_data granted registry
          calls).0
        ≡ returned result
      → (definition : CapabilityDefinition) × (implementation : ℕ) × MayRun outside capability_id
          version input_data granted registry definition implementation
        × (answer_of context input_data definition implementation calls ≡ returned result)
        × (outside.validate_json definition.output_schema result.output ≡ valid)
  execute_capability-returned capability_id version context input_data granted registry calls result
        h =
      go
        (execute_capability outside capability_id version context input_data granted registry calls)
        (execute_capability-Executed capability_id version context input_data granted registry
          calls)
        h
    where
      go :
          (run : Outcome CapabilityError CapabilityResult × List Call)
          → Executed capability_id version context input_data granted registry calls run
          → run.0 ≡ returned result
          → (definition : CapabilityDefinition) × (implementation : ℕ) × MayRun outside
              capability_id version input_data granted registry definition implementation
            × (answer_of context input_data definition implementation calls ≡ returned result)
            × (outside.validate_json definition.output_schema result.output ≡ valid)
      go _ (refused e) k = absurd (cc)
      go _ (ran definition implementation may_run) k =
          let good =
            released_valid capability_id definition
              (answer_of context input_data definition implementation calls) result k in
          (definition, implementation, may_run, good.0, good.1)
