-- ===== src/Prompts/Template.antt =====
-- services/prompts/src/forgeai_prompts/template.py and exceptions.py, without the messages.
-- `string.Formatter` is a parameter: the field names of a text, and `format`; both may raise.
-- `parse_version` of versioning.py is the one of Engine/Version.antt, to which it is identical.
use forge_ai_autonomous_soft.Common.{
  is_empty, Bool, not, ◌&&◌, all, elem, select, Option, none, some, List, [], ◌∷◌, Text, text_eq,
  Dict, has_key,
}
use forge_ai_autonomous_soft.Common.Outcome.{Outcome, returned, raised, ensure, ◌>>=◌, ◌>>◌}
use forge_ai_autonomous_soft.Engine.Errors.{Result, ok, err, invalid_version}
use forge_ai_autonomous_soft.Engine.Version.{Unicode, parse_version}

pub data PromptError : Type 0 where
  empty_field : PromptError
  invalid_prompt_version : (version : Text) → PromptError
  declared_variables_mismatch : (key : Text) (declared found_in_content : List Text) → PromptError
  missing_variable : (key : Text) (missing : List Text) → PromptError
  template_already_registered template_not_found : (key version : Text) → PromptError
  -- What Python raises for a text that is no format, or for a field without a value.
  format_error : PromptError

pub record PromptTemplate : Type 0 where
  pub key : Text
  pub name : Text
  pub version : Text
  pub content : Text
  pub description : Text
  pub required_variables : List Text

pub record Formatter : Type 0 where
  -- The field names, `none` where a piece has no field.
  pub parse : Text → Option (List (Option Text))
  pub format : Text → Dict Text Text → Option Text

-- `if field_name`
abbrev pub filled_names : List (Option Text) → List Text
filled_names [] = []
filled_names (none ∷ names) = filled_names names
filled_names (some [] ∷ names) = filled_names names
filled_names (some (c ∷ t) ∷ names) = (c ∷ t) ∷ filled_names names

abbrev pub or_format_error : {A : Type 0} → Option A → Outcome PromptError A
or_format_error none = raised format_error
or_format_error (some a) = returned a

-- Equality of the sets of two lists.
abbrev pub same_set : List Text → List Text → Bool
same_set xs ys = all (λ x. elem x ys) xs && all (λ y. elem y xs) ys

-- Of `int` a plain ValueError.
abbrev pub prompt_version : {A : Type 0} → Result A → Outcome PromptError A
prompt_version (ok a) = returned a
prompt_version (err (invalid_version version)) = raised (invalid_prompt_version version)
prompt_version (err e) = raised format_error

module _ (formatter : Formatter) where
  -- `_placeholders_in`
  unfoldable pub placeholders_in : Text → Outcome PromptError (List Text)
  placeholders_in content =
      or_format_error (formatter.parse content) >>= λ names. returned (filled_names names)

  -- The validators of a template. Pydantic wraps what they raise in its own error.
  unfoldable pub validate_template : Unicode → PromptTemplate → Outcome PromptError PromptTemplate
  unfolding placeholders_in parse_version
  validate_template unicode t = do
    ensure (not (is_empty t.key) && not (is_empty t.name) && not (is_empty t.content)) empty_field
    prompt_version (parse_version unicode t.version)
    found ← placeholders_in t.content
    ensure (same_set found t.required_variables)
        (declared_variables_mismatch t.key t.required_variables found)
    returned t

  abbrev rendered : PromptTemplate → Dict Text Text → List Text → Outcome PromptError Text
  rendered t variables [] = or_format_error (formatter.format t.content variables)
  rendered t variables (name ∷ names) = raised (missing_variable t.key (name ∷ names))

  -- `render`
  unfoldable pub render : PromptTemplate → Dict Text Text → Outcome PromptError Text
  render t variables =
      rendered t variables (select (λ name. not (has_key name variables)) t.required_variables)
