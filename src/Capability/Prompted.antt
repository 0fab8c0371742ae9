-- ===== src/Capability/Prompted.antt =====
-- services/capability_registry/src/forgeai_capability_registry/ai_capability.py: the capability that
-- renders a template and asks the model router. Input and output are dicts of texts here; `str` of an
-- input's value is a parameter, and so is the conversion of the other packages' exceptions.
use forge_ai_autonomous_soft.Common.{
  Option, none, some, List, [], ◌∷◌, ◌++◌, map, Text, codes, decimal, Dict,
}
use forge_ai_autonomous_soft.Common.Outcome.{Outcome, returned, raised, ◌>>=◌}
use forge_ai_autonomous_soft.Capability.Errors.{CapabilityError, execution_failed}
use forge_ai_autonomous_soft.Capability.Definition.{CapabilityDefinition, JsonObject}
use forge_ai_autonomous_soft.Prompts.Template.{PromptError, Formatter, render}
use forge_ai_autonomous_soft.Prompts.Registry.{PromptRegistry, get_template}
use forge_ai_autonomous_soft.Models.Profile.{CompletionResponse, ModelRouterError}

-- A context with the objects themselves; the router is what it answers to model keys and a message.
pub record PromptContext : Type 0 where
  pub prompt_registry : Option PromptRegistry
  pub model_router : Option (List Text → Text → Outcome ModelRouterError CompletionResponse)
  pub capability_definition : Option CapabilityDefinition

pub record PromptedResult : Type 0 where
  pub output : Dict Text Text
  pub reasoning_summary : Text

module _ (template_key template_version : Text) (formatter : Formatter) (str : Text → Text)
    (of_prompts : PromptError → CapabilityError)
    (of_router : ModelRouterError → CapabilityError) where
  -- `_capability_id`
  abbrev pub capability_id_of : Option CapabilityDefinition → Text
  capability_id_of none = template_key
  capability_id_of (some definition) = definition.id

  abbrev or_refused :
      {A : Type 0} → Option CapabilityDefinition → Text → Option A → Outcome CapabilityError A
  or_refused definition reason none = raised (execution_failed (capability_id_of definition) reason)
  or_refused definition reason (some a) = returned a

  abbrev from_prompts : {A : Type 0} → Outcome PromptError A → Outcome CapabilityError A
  from_prompts (returned a) = returned a
  from_prompts (raised e) = raised (of_prompts e)

  abbrev from_router :
      Outcome ModelRouterError CompletionResponse → Outcome CapabilityError CompletionResponse
  from_router (returned r) = returned r
  from_router (raised e) = raised (of_router e)

  -- `build_output`
  abbrev pub build_output : Text → Dict Text Text
  build_output text = (codes "text", text) ∷ []

  abbrev summary : CompletionResponse → Text
  summary r =
      codes "Generated by model '"
      ++ r.model_key
      ++ codes "' in "
      ++ decimal r.attempts
      ++ codes " attempt(s)."

  -- `PromptDrivenCapability.execute`
  unfoldable pub execute_prompted :
      PromptContext → JsonObject → Outcome CapabilityError PromptedResult
  unfolding get_template render decimal
  execute_prompted context input_data = do
    prompts ←
        or_refused context.capability_definition (codes "no prompt_registry attached to context")
          context.prompt_registry
    router ←
        or_refused context.capability_definition (codes "no model_router attached to context")
          context.model_router
    definition ←
        or_refused context.capability_definition (codes "no capability_definition on context")
          context.capability_definition
    template ← from_prompts (get_template template_key template_version prompts)
    text ←
        from_prompts
          (render formatter template (map (λ (e : Text × Text). (e.0, str e.1)) input_data))
    response ← from_router (router definition.supported_models text)
    returned record { output = build_output response.text; reasoning_summary = summary response }
