-- ===== src/Engine/Queue.antt =====
-- services/workflow_engine/src/forgeai_workflow_engine/queue.py. `locked` are the rows that other
-- transactions have locked, which SKIP LOCKED passes over. Of entries that tie, the first is taken.
pub mod Choice
pub mod Claims
pub mod Turns
use forge_ai_autonomous_soft.Common.{
  ℕ, suc, ℤ, ltb_ℤ, Bool, true, false, ◌&&◌, ◌||◌, not, Option, none, some, List, [], ◌∷◌, ◌++◌,
  Text, leb, ltb, if◌then◌else◌, elem, nat_eq, length, select, eqb,
}
use forge_ai_autonomous_soft.Engine.Session.Rows.{
  WorkflowQueueEntry, QueueEntryStatus, queued, claimed, done,
}
use forge_ai_autonomous_soft.Engine.Session.Actions.{
  World, Store, Action, pure, gets, by_id, update, modify, ◌>>=◌, ◌>>◌, now, fresh,
}

abbrev pub entry_id : WorkflowQueueEntry → ℕ
entry_id e = e.id

abbrev pub is_queued : WorkflowQueueEntry → Bool
is_queued e = elim e.status [ queued ↦ true | _ ↦ false ]

abbrev is_due : Option ℕ → ℕ → Bool
is_due none now = true
is_due (some at) now = leb at now

-- The `where` clause, and what is not locked.
unfoldable pub is_claimable : List ℕ → ℕ → WorkflowQueueEntry → Bool
is_claimable locked now e = is_queued e && is_due e.scheduled_for now && not (elem e.id locked)

-- The `order_by`: higher priority, then older.
unfoldable pub goes_before : WorkflowQueueEntry → WorkflowQueueEntry → Bool
goes_before a b =
    ltb_ℤ b.priority a.priority
    || (not (ltb_ℤ a.priority b.priority) && ltb a.created_at b.created_at)

abbrev pub prefer : WorkflowQueueEntry → Option WorkflowQueueEntry → Option WorkflowQueueEntry
prefer e none = some e
prefer e (some best) = some (if goes_before best e then best else e)

unfoldable pub first_claimable : List ℕ → ℕ → List WorkflowQueueEntry → Option WorkflowQueueEntry
unfolding is_claimable goes_before
first_claimable locked now [] = none
first_claimable locked now (e ∷ es) =
    let rest = first_claimable locked now es in
    if is_claimable locked now e then prefer e rest else rest

unfoldable pub enqueue : World → ℕ → ℤ → Option ℕ → Action ℕ
unfolding now fresh
enqueue w execution_id priority scheduled_for = do
  i ← fresh
  at ← now w
  modify λ s. record s {
    queue =
        s.queue
        ++ record {
          id = i;
          workflow_execution_id = execution_id;
          priority = priority;
          status = queued;
          scheduled_for = scheduled_for;
          claimed_at = none;
          claimed_by = none;
          created_at = at;
        }
          ∷ [];
  }
  pure i

abbrev pub claim_row : ℕ → Text → WorkflowQueueEntry → WorkflowQueueEntry
claim_row at worker_id e = record e {
  status = claimed;
  claimed_at = some at;
  claimed_by = some worker_id;
}

abbrev pub take_entry : ℕ → Text → Option WorkflowQueueEntry → Action (Option WorkflowQueueEntry)
take_entry at worker_id none = pure none
take_entry at worker_id (some e) = do
  modify (λ s. record s { queue = update entry_id e.id (claim_row at worker_id) s.queue })
  pure (some e)

-- The entry is returned as it was found: its id, execution and priority do not change.
unfoldable pub claim_next : World → List ℕ → Text → Action (Option WorkflowQueueEntry)
unfolding now first_claimable
claim_next w locked worker_id = do
  at ← now w
  found ← gets (λ s. first_claimable locked at s.queue)
  take_entry at worker_id found

-- A missing entry is passed over.
unfoldable pub mark_done : ℕ → Action (Unit {0})
mark_done i =
    modify (λ s. record s { queue = update entry_id i (λ e. record e { status = done }) s.queue })

unfoldable pub queue_depth : Store → ℕ
queue_depth s = length (select is_queued s.queue)
