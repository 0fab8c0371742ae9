-- ===== src/Worker/Closing.antt =====
-- What the end of an iteration, from the re-enqueue on, leaves in the queue.
use forge_ai_autonomous_soft.Common.{
  ℕ, Bool, true, false, none, some, List, [], ◌∷◌, ◌++◌, map, ◌==◌, ◌≡◌, refl, sym, ap, ◌∙◌, subst,
  arith, Bool-cases, Option-cases, inl, inr, eqb, elem, nat_eq,
}
use mathlib.Core.List.{Memᴰ}
use forge_ai_autonomous_soft.Core.{WorkflowStatus, workflow_status_eq}
use forge_ai_autonomous_soft.Engine.Errors.{ok, ok-injective}
use forge_ai_autonomous_soft.Engine.Session.Rows.{WorkflowQueueEntry, WorkflowExecution, done}
use forge_ai_autonomous_soft.Engine.Session.Actions.{World, Store, by_id, update}
use forge_ai_autonomous_soft.Engine.StateManager.{get_execution, execution_at}
use forge_ai_autonomous_soft.Engine.Queue.{entry_id, is_queued, enqueue, mark_done}
use forge_ai_autonomous_soft.Engine.Evolution.{execution_status}
use forge_ai_autonomous_soft.Worker.{requeue_if_running, close}

abbrev pub entry_ids : List WorkflowQueueEntry → List ℕ
entry_ids rows = map entry_id rows

update_append :
    (i : ℕ) (f : WorkflowQueueEntry → WorkflowQueueEntry) (xs ys : List WorkflowQueueEntry)
    → elem i (entry_ids xs) ≡ true
    → update entry_id i f (xs ++ ys) ≡ update entry_id i f xs ++ ys
update_append i f [] ys h = absurd (cc)
update_append i f (x ∷ xs) ys h = elim (Bool-cases (eqb x.id i)) [
  | inl here ↦ rw here refl
  | inr there ↦ rw there (ap (λ l. x ∷ l) (update_append i f xs ys (ground arith)))
]

pub elem-update :
    (i j : ℕ) (f : WorkflowQueueEntry → WorkflowQueueEntry) (xs : List WorkflowQueueEntry)
    → ((r : WorkflowQueueEntry) → entry_id (f r) ≡ entry_id r)
    → elem j (entry_ids (update entry_id i f xs)) ≡ elem j (entry_ids xs)
elem-update i j f [] h = refl
elem-update i j f (x ∷ xs) h = ground (arith, elem-update i j f xs h, h x)

pub elem-Memᴰ :
    (e : WorkflowQueueEntry) (xs : List WorkflowQueueEntry)
    → Memᴰ e xs
    → elem e.id (entry_ids xs) ≡ true
elem-Memᴰ e [] m = elim m [ ]
elem-Memᴰ e (x ∷ xs) (Memᴰ.head same) = ground (arith, ap entry_id same)
elem-Memᴰ e (x ∷ xs) (Memᴰ.tail m) = ground (arith, elem-Memᴰ e xs m)

-- The last of a list is in it.
last-Memᴰ : (xs : List WorkflowQueueEntry) (e : WorkflowQueueEntry) → Memᴰ e (xs ++ e ∷ [])
last-Memᴰ [] e = Memᴰ.head refl
last-Memᴰ (x ∷ xs) e = Memᴰ.tail (last-Memᴰ xs e)

-- An entry of the queue under which the execution is claimed again, at the same priority.
pub record IsRequeued (entry : WorkflowQueueEntry) (queue : List WorkflowQueueEntry) : Type 0 where
  pub row : WorkflowQueueEntry
  pub member : Memᴰ row queue
  pub waits : is_queued row ≡ true
  pub same_execution : row.workflow_execution_id ≡ entry.workflow_execution_id
  pub same_priority : row.priority ≡ entry.priority

-- The entry is done, and the execution is queued again if it is RUNNING.
pub record IsClosed (entry : WorkflowQueueEntry) (s : Store) : Type 0 where
  pub row : WorkflowQueueEntry
  pub found : by_id entry_id entry.id s.queue ≡ some row
  pub is_done : row.status ≡ done
  pub requeued :
      execution_status (execution_at entry.workflow_execution_id s) ≡ some WorkflowStatus.running
      → IsRequeued entry s.queue

abbrev close_row : WorkflowQueueEntry → WorkflowQueueEntry
close_row e = record e { status = done }

found_done :
    (i : ℕ) (xs : List WorkflowQueueEntry)
    → elem i (entry_ids xs) ≡ true
    → (row : WorkflowQueueEntry) × (by_id entry_id i (update entry_id i close_row xs) ≡ some row)
      × (row.status ≡ done)
found_done i [] h = absurd (cc)
found_done i (x ∷ xs) h = elim (Bool-cases (eqb x.id i)) [
  | inl here ↦ (close_row x, rw (here, here) refl, refl)
  | inr there ↦ let (row, e, d) = found_done i xs (ground arith) in (row, rw (there, there) e, d)
]

by_id-append :
    (i : ℕ) (xs ys : List WorkflowQueueEntry) (row : WorkflowQueueEntry)
    → by_id entry_id i xs ≡ some row
    → by_id entry_id i (xs ++ ys) ≡ some row
by_id-append i [] ys row h = absurd (cc)
by_id-append i (x ∷ xs) ys row h = ground (arith, by_id-append i xs ys row)

IsClosed-requeued :
    (e new : WorkflowQueueEntry) (q : List WorkflowQueueEntry) (t : Store)
    → t.queue ≡ update entry_id e.id close_row (q ++ new ∷ [])
    → elem e.id (entry_ids q) ≡ true
    → is_queued new ≡ true
    → new.workflow_execution_id ≡ e.workflow_execution_id
    → new.priority ≡ e.priority
    → IsClosed e t
IsClosed-requeued e new q t same m waits execution priority =
    let (r, f, d) = found_done e.id q m in
    let whole = same ∙ update_append e.id close_row q (new ∷ []) m in
    record {
      row = r;
      found =
          subst (λ l. by_id entry_id e.id l ≡ some r) (sym whole)
            (by_id-append e.id (update entry_id e.id close_row q) (new ∷ []) r f);
      is_done = d;
      requeued = λ _. record {
        row = new;
        member = subst (Memᴰ new) (sym whole) (last-Memᴰ (update entry_id e.id close_row q) new);
        waits = waits;
        same_execution = execution;
        same_priority = priority;
      };
    }

IsClosed-alone :
    (e : WorkflowQueueEntry) (q : List WorkflowQueueEntry) (t : Store)
    → t.queue ≡ update entry_id e.id close_row q
    → elem e.id (entry_ids q) ≡ true
    → ¬ (execution_status (execution_at e.workflow_execution_id t) ≡ some WorkflowStatus.running)
    → IsClosed e t
IsClosed-alone e q t same m ends =
    let (r, f, d) = found_done e.id q m in
    record {
      row = r;
      found = subst (λ l. by_id entry_id e.id l ≡ some r) (sym same) f;
      is_done = d;
      requeued = λ h. absurd (ends h);
    }

close_running :
    (w : World) (e : WorkflowQueueEntry) (s : Store) (row : WorkflowExecution)
    → execution_at e.workflow_execution_id s ≡ some row
    → row.status ≡ WorkflowStatus.running
    → elem e.id (entry_ids s.queue) ≡ true
    → ((close w e s).0 ≡ ok true) × IsClosed e (close w e s).1
unfolding close get_execution requeue_if_running mark_done enqueue
close_running w e s row found running m =
    rw (found, running) (refl, IsClosed-requeued e _ s.queue _ refl m refl refl refl)

close_other :
    (w : World) (e : WorkflowQueueEntry) (s : Store) (row : WorkflowExecution)
    → execution_at e.workflow_execution_id s ≡ some row
    → (row.status == WorkflowStatus.running) ≡ false
    → elem e.id (entry_ids s.queue) ≡ true
    → ((close w e s).0 ≡ ok true) × IsClosed e (close w e s).1
unfolding close get_execution requeue_if_running mark_done enqueue
close_other w e s row found other m =
    rw (found, other) (refl, IsClosed-alone e s.queue _ refl m (λ h. absurd (cc (other, found, h))))

close_missing :
    (w : World) (e : WorkflowQueueEntry) (s : Store) (b : Bool)
    → execution_at e.workflow_execution_id s ≡ none
    → ¬ ((close w e s).0 ≡ ok b)
unfolding close get_execution
close_missing w e s b missing = rw missing (λ h. absurd (cc))

pub close-IsClosed :
    (w : World) (e : WorkflowQueueEntry) (s : Store) (b : Bool)
    → elem e.id (entry_ids s.queue) ≡ true
    → (close w e s).0 ≡ ok b
    → (b ≡ true) × IsClosed e (close w e s).1
close-IsClosed w e s b m h = elim (Option-cases (execution_at e.workflow_execution_id s)) [
  | inl missing ↦ absurd (close_missing w e s b missing h)
  | inr (row, found) ↦ elim (Bool-cases (row.status == WorkflowStatus.running)) [
    | inl running ↦
        let (returns, closed) =
          close_running w e s row found
            ((workflow_status_eq.beq_iff row.status WorkflowStatus.running).0 running) m in
        (sym (ok-injective (sym returns ∙ h)), closed)
    | inr other ↦
        let (returns, closed) = close_other w e s row found other m in
        (sym (ok-injective (sym returns ∙ h)), closed)
  ]
]
