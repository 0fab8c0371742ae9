-- ===== src/Engine/EventBus/Delivery.antt =====
-- Which handlers an event reaches.
use forge_ai_autonomous_soft.Common.{
  ℕ, ◌≡◌, ap, Bool, List, [], ◌∷◌, ◌++◌, map, Text, text_eq, select, arith, Bool-cases, inl, inr,
}
use mathlib.Core.List.{append-nil, append_assoc}
use forge_ai_autonomous_soft.Engine.Session.Rows.{WorkflowEvent}
use forge_ai_autonomous_soft.Engine.EventBus.{Bus, matches, publish, publish_to}

-- The handlers whose pattern matches, in the order of their subscription.
abbrev pub interested : WorkflowEvent → List (Text × ℕ) → List ℕ
interested event subscribers =
    map (λ (e : Text × ℕ). e.1)
      (select (λ (e : Text × ℕ). matches e.0 event.event_type) subscribers)

module _ (raises : ℕ → WorkflowEvent → Bool) (event : WorkflowEvent) where
  publish_to_all :
      (subscribers : List (Text × ℕ)) (bus : Bus)
      → publish_to raises subscribers event bus ≡ record bus {
        delivered = bus.delivered ++ map (λ h. (h, event)) (interested event subscribers);
        handler_errors =
            bus.handler_errors
            ++ map (λ h. (event, h)) (select (λ h. raises h event) (interested event subscribers));
      }
  unfolding publish_to
  publish_to_all [] bus = ground (arith, append-nil bus.delivered, append-nil bus.handler_errors)
  publish_to_all ((pattern, handler) ∷ rest) bus =
      elim (Bool-cases (matches pattern event.event_type)) [
        | inr passed_over ↦ rw passed_over (publish_to_all rest bus)
        | inl called ↦ elim (Bool-cases (raises handler event)) [
          | inl raised ↦ simp (called, raised, publish_to_all rest, append_assoc)
          | inr returned ↦ simp (called, returned, publish_to_all rest, append_assoc)
        ]
      ]

-- Publishing an event calls every subscribed handler whose pattern matches, once for each
-- subscription and in order, also behind a handler that raises; the exceptions are collected in
-- `handler_errors` in the same order, and the subscriptions stay.
pub publish_all :
    (raises : ℕ → WorkflowEvent → Bool) (event : WorkflowEvent) (bus : Bus)
    → let handlers = interested event bus.subscribers in
      let after = publish raises event bus in
      (after.subscribers ≡ bus.subscribers)
      × (after.delivered ≡ bus.delivered ++ map (λ h. (h, event)) handlers)
      × (after.handler_errors
          ≡ bus.handler_errors ++ map (λ h. (event, h)) (select (λ h. raises h event) handlers))
unfolding publish
publish_all raises event bus =
    let e = publish_to_all raises event bus.subscribers bus in
    (
      ap (λ (b : Bus). b.subscribers) e,
      ap (λ (b : Bus). b.delivered) e,
      ap (λ (b : Bus). b.handler_errors) e,
    )
