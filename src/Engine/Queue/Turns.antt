-- ===== src/Engine/Queue/Turns.antt =====
-- Any number of workers that take turns at the queue of queue.py: claims, completions and new
-- entries, in any order, each after the one before it has committed.
pub mod Unique
use forge_ai_autonomous_soft.Common.{
  ℕ, ℤ, ◌+◌, ◌<◌, ◌≡◌, refl, sym, subst, ap, false, Option, none, some, List, [], ◌∷◌, ◌++◌, Text,
  eqb, eqb_iff, elem, nat_eq, All, All-mono, map, IsNodup, arith, Bool-cases, inl, inr,
}
use forge_ai_autonomous_soft.Engine.Errors.{Result, ok, err}
use forge_ai_autonomous_soft.Engine.Session.Rows.{WorkflowQueueEntry}
use forge_ai_autonomous_soft.Engine.Session.Actions.{World, Store, update}
use forge_ai_autonomous_soft.Engine.Queue.{
  entry_id, claim_row, take_entry, is_queued, is_claimable, first_claimable, claim_next, mark_done,
  enqueue,
}
use forge_ai_autonomous_soft.Engine.Queue.Claims.{claim_claimable, update_not_queued, All-Memᴰ}

-- A call of the queue; the rows that other transactions hold are any.
pub data Turn : Type 0 where
  claim : (locked : List ℕ) (worker_id : Text) → Turn
  finish : (entry : ℕ) → Turn
  add : (execution_id : ℕ) (priority : ℤ) (scheduled_for : Option ℕ) → Turn

abbrev pub claimed_id : Result (Option WorkflowQueueEntry) → Option ℕ
claimed_id (ok (some e)) = some e.id
claimed_id (ok none) = none
claimed_id (err e) = none

abbrev pub with_claim : Option ℕ → List ℕ → List ℕ
with_claim none later = later
with_claim (some i) later = i ∷ later

module _ (w : World) where
  -- What a turn claims, and the tables after it.
  unfoldable pub take_turn : Turn → Store → Option ℕ × Store
  unfolding claim_next mark_done enqueue
  take_turn (claim locked worker_id) s =
      let r = claim_next w locked worker_id s in (claimed_id r.0, r.1)
  take_turn (finish i) s = (none, (mark_done i s).1)
  take_turn (add execution_id priority at) s = (none, (enqueue w execution_id priority at s).1)

  -- The ids of the entries claimed, in order.
  unfoldable pub claims : List Turn → Store → List ℕ
  unfolding take_turn
  claims [] s = []
  claims (turn ∷ turns) s =
      let r = take_turn turn s in let later = claims turns r.1 in with_claim r.0 later

-- No entry of this id can be claimed any more.
abbrev pub Spent : ℕ → Store → Type 0
Spent i s = All (λ r. entry_id r ≡ i → is_queued r ≡ false) s.queue × (i < s.next_id)

-- The ids of the table are distinct, and the next id is none of them.
pub record IsKeyed (s : Store) : Type 0 where
  pub distinct : IsNodup (map entry_id s.queue)
  pub given_out : All (λ (e : WorkflowQueueEntry). e.id < s.next_id) s.queue

pub update_spent :
    (i j : ℕ) (f : WorkflowQueueEntry → WorkflowQueueEntry) (rows : List WorkflowQueueEntry)
    → ((r : WorkflowQueueEntry) → is_queued (f r) ≡ false)
    → All (λ r. entry_id r ≡ i → is_queued r ≡ false) rows
    → All (λ r. entry_id r ≡ i → is_queued r ≡ false) (update entry_id j f rows)
update_spent i j f [] h k = tt
update_spent i j f (row ∷ rows) h k = elim (Bool-cases (eqb row.id j)) [
  | inl here ↦ rw here ((λ _. h row), k.1)
  | inr there ↦ rw there (k.0, update_spent i j f rows h k.1)
]

pub ids-update :
    (j : ℕ) (f : WorkflowQueueEntry → WorkflowQueueEntry) (rows : List WorkflowQueueEntry)
    → ((r : WorkflowQueueEntry) → entry_id (f r) ≡ entry_id r)
    → map entry_id (update entry_id j f rows) ≡ map entry_id rows
ids-update j f [] h = refl
ids-update j f (row ∷ rows) h = ground (arith, h row, ids-update j f rows h)

pub given_out-update :
    (n j : ℕ) (f : WorkflowQueueEntry → WorkflowQueueEntry) (rows : List WorkflowQueueEntry)
    → ((r : WorkflowQueueEntry) → entry_id (f r) ≡ entry_id r)
    → All (λ (e : WorkflowQueueEntry). e.id < n) rows
    → All (λ (e : WorkflowQueueEntry). e.id < n) (update entry_id j f rows)
given_out-update n j f [] h k = tt
given_out-update n j f (row ∷ rows) h k = elim (Bool-cases (eqb row.id j)) [
  | inl here ↦ rw here (subst (λ x. x < n) (sym (h row)) k.0, k.1)
  | inr there ↦ rw there (k.0, given_out-update n j f rows h k.1)
]

pub All-snoc :
    (P : WorkflowQueueEntry → Type 0) (rows : List WorkflowQueueEntry) (e : WorkflowQueueEntry)
    → All P rows
    → P e
    → All P (rows ++ e ∷ [])
All-snoc P [] e h k = (k, tt)
All-snoc P (r ∷ rows) e h k = (h.0, All-snoc P rows e h.1 k)

elem-snoc :
    (i : ℕ) (rows : List WorkflowQueueEntry) (e : WorkflowQueueEntry)
    → elem i (map entry_id rows) ≡ false
    → eqb i e.id ≡ false
    → elem i (map entry_id (rows ++ e ∷ [])) ≡ false
elem-snoc i [] e h k = ground (arith, h, k, eqb_iff i e.id, eqb_iff e.id i)
elem-snoc i (r ∷ rows) e h k = ground (arith, h, elem-snoc i rows e, k)

pub distinct-snoc :
    (n : ℕ) (rows : List WorkflowQueueEntry) (e : WorkflowQueueEntry)
    → IsNodup (map entry_id rows)
    → All (λ (r : WorkflowQueueEntry). r.id < n) rows
    → e.id ≡ n
    → IsNodup (map entry_id (rows ++ e ∷ []))
distinct-snoc n [] e h k same = (refl, tt)
distinct-snoc n (r ∷ rows) e h k same = (
  elem-snoc r.id rows e h.0 (ground (arith, k.0, same, eqb_iff r.id e.id)),
  distinct-snoc n rows e h.1 k.1 same,
)
