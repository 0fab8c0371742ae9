-- ===== src/Memory/Events.antt =====
-- services/memory_engine/src/forgeai_memory_engine/events.py, with the columns of
-- services/core/src/forgeai_core/models/memory_event.py. Of equal times the later row comes first,
-- which SQL leaves open; the time and the id of a row are arguments.
use forge_ai_autonomous_soft.Common.{
  ℕ, zero, suc, Bool, true, ◌&&◌, eqb, ltb, leb, ◌==◌, Option, none, some, List, [], ◌∷◌, ◌++◌,
  select, sort, Text, text_eq, codes,
}

pub record MemoryEvent : Type 0 where
  pub id : ℕ
  pub project_id : ℕ
  pub event_type : Text
  pub source : Text
  pub payload : Text
  pub created_at : ℕ

-- `payload or {}`
abbrev payload_or_empty : Option Text → Text
payload_or_empty none = codes "{}"
payload_or_empty (some payload) = payload

-- `EpisodicMemoryStore.remember`
unfoldable pub remember :
    (id created_at project_id : ℕ)
    → (event_type source : Text) → Option Text
    → List MemoryEvent
    → MemoryEvent × List MemoryEvent
remember id created_at project_id event_type source payload events =
    let event : MemoryEvent = record {
      id = id;
      project_id = project_id;
      event_type = event_type;
      source = source;
      payload = payload_or_empty payload;
      created_at = created_at;
    } in
    (event, events ++ event ∷ [])

abbrev of_type : Option Text → MemoryEvent → Bool
of_type none e = true
of_type (some event_type) e = e.event_type == event_type

abbrev is_before : Option ℕ → MemoryEvent → Bool
is_before none e = true
is_before (some before) e = ltb e.created_at before

abbrev pub take {ℓ} : {A : Type ℓ} → ℕ → List A → List A
take zero xs = []
take (suc n) [] = []
take (suc n) (x ∷ xs) = x ∷ take n xs

abbrev pub newest_first : MemoryEvent → MemoryEvent → Bool
newest_first a b = leb b.created_at a.created_at

-- `EpisodicMemoryStore.list_for_project`
unfoldable pub list_for_project :
    (project_id : ℕ)
    → (event_type : Option Text) → (before : Option ℕ) → (limit : ℕ) → List MemoryEvent
    → List MemoryEvent
list_for_project project_id event_type before limit events = take limit (
    sort newest_first (
      select
        (λ (e : MemoryEvent).
          eqb e.project_id project_id && (of_type event_type e && is_before before e))
        events))
