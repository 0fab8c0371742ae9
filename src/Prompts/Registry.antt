-- ===== src/Prompts/Registry.antt =====
-- services/prompts/src/forgeai_prompts/registry.py.
use forge_ai_autonomous_soft.Common.{
  ◌==◌, List, [], ◌∷◌, map, select, Text, text_eq, pair_eq, codes, Dict, lookup, keys,
}
use forge_ai_autonomous_soft.Common.Outcome.{Outcome, raised}
use forge_ai_autonomous_soft.Common.Catalog.{add_new, or_missing}
use forge_ai_autonomous_soft.Engine.Version.{Unicode}
use forge_ai_autonomous_soft.Engine.Version.Latest.{latest_from, sorted_versions}
use forge_ai_autonomous_soft.Prompts.Template.{
  PromptTemplate, PromptError, template_already_registered, template_not_found, prompt_version,
}

abbrev pub PromptRegistry : Type 0
PromptRegistry = Dict (Text × Text) PromptTemplate

unfoldable pub register_template :
    PromptTemplate → PromptRegistry → Outcome PromptError PromptRegistry
register_template t templates =
    add_new (template_already_registered t.key t.version) (t.key, t.version) t templates

unfoldable pub get_template : Text → Text → PromptRegistry → Outcome PromptError PromptTemplate
get_template key version templates =
    or_missing (template_not_found key version) (lookup (key, version) templates)

abbrev template_candidates : Text → PromptRegistry → List PromptTemplate
template_candidates key templates =
    map (λ (e : (Text × Text) × PromptTemplate). e.1)
      (select (λ (e : (Text × Text) × PromptTemplate). e.0.0 == key) templates)

module _ (unicode : Unicode) where
  abbrev latest_template : Text → List PromptTemplate → Outcome PromptError PromptTemplate
  latest_template key [] = raised (template_not_found key (codes "latest"))
  latest_template key (t ∷ rest) =
      prompt_version (latest_from unicode (λ (x : PromptTemplate). x.version) t rest)

  unfoldable pub get_latest_template : Text → PromptRegistry → Outcome PromptError PromptTemplate
  unfolding latest_from
  get_latest_template key templates = latest_template key (template_candidates key templates)

  unfoldable pub list_template_versions : Text → PromptRegistry → Outcome PromptError (List Text)
  unfolding sorted_versions
  list_template_versions key templates = prompt_version (
      sorted_versions unicode (
        map (λ (k : Text × Text). k.1) (select (λ (k : Text × Text). k.0 == key) (keys templates))))
