-- ===== src/Engine/EventBus.antt =====
-- services/workflow_engine/src/forgeai_workflow_engine/event_bus.py. A handler is a number; what it
-- does with an event is whether it raises. `delivered` records the calls of the handlers.
pub mod Delivery
use forge_ai_autonomous_soft.Common.{
  ℕ, Bool, true, false, List, [], ◌∷◌, ◌++◌, Text, text_eq, codes, if◌then◌else◌, starts_with,
  reverse, ◌==◌, eqb,
}
use forge_ai_autonomous_soft.Engine.Session.Rows.{WorkflowEvent}

-- `pattern[:-1]`
abbrev pub without_last : Text → Text
without_last [] = []
without_last (c ∷ []) = []
without_last (c ∷ d ∷ t) = c ∷ without_last (d ∷ t)

-- `pattern.endswith(".*")`
abbrev pub ends_with_star : Text → Bool
ends_with_star [] = false
ends_with_star (c ∷ []) = false
ends_with_star (c ∷ d ∷ []) = (c ∷ d ∷ []) == codes ".*"
ends_with_star (c ∷ d ∷ e ∷ t) = ends_with_star (d ∷ e ∷ t)

unfoldable pub matches : Text → Text → Bool
matches pattern event_type =
    if pattern == codes "*"
    then true
    else if ends_with_star pattern
    then starts_with (without_last pattern) event_type
    else pattern == event_type

pub record Bus : Type 0 where
  pub subscribers : List (Text × ℕ)
  pub handler_errors : List (WorkflowEvent × ℕ)
  pub delivered : List (ℕ × WorkflowEvent)

unfoldable pub subscribe : Text → ℕ → Bus → Bus
subscribe pattern handler bus = record bus {
  subscribers = bus.subscribers ++ (pattern, handler) ∷ [];
}

-- `raises handler event` tells whether the call raises an Exception.
module _ (raises : ℕ → WorkflowEvent → Bool) where
  abbrev deliver : ℕ → WorkflowEvent → Bus → Bus
  deliver handler event bus =
      let called = record bus { delivered = bus.delivered ++ (handler, event) ∷ [] } in
      if raises handler event
      then record called { handler_errors = bus.handler_errors ++ (event, handler) ∷ [] }
      else called

  unfoldable pub publish_to : List (Text × ℕ) → WorkflowEvent → Bus → Bus
  unfolding matches
  publish_to [] event bus = bus
  publish_to ((pattern, handler) ∷ rest) event bus =
      publish_to rest event
        (if matches pattern event.event_type then deliver handler event bus else bus)

  unfoldable pub publish : WorkflowEvent → Bus → Bus
  unfolding publish_to
  publish event bus = publish_to bus.subscribers event bus
