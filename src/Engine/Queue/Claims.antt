-- ===== src/Engine/Queue/Claims.antt =====
-- What keeps an entry from being claimed twice.
use forge_ai_autonomous_soft.Common.{
  ℕ, ◌+◌, ◌≡◌, ◌≢◌, refl, sym, subst, ap, true, false, Option, none, some, List, [], ◌∷◌, Text, eqb,
  eqb_iff, elem, nat_eq, All, map, IsNodup, arith, Bool-cases, inl, inr, some-injective,
}
use mathlib.Core.List.{Memᴰ}
use forge_ai_autonomous_soft.Engine.Errors.{ok}
use forge_ai_autonomous_soft.Engine.Session.Rows.{WorkflowQueueEntry}
use forge_ai_autonomous_soft.Engine.Session.Actions.{World, Store, update}
use forge_ai_autonomous_soft.Engine.Queue.{
  entry_id, claim_row, take_entry, is_queued, is_claimable, first_claimable, claim_next,
}
use forge_ai_autonomous_soft.Engine.Queue.Choice.{Chosen, claim_next-Chosen}

pub claim_claimable :
    (w : World) (locked : List ℕ) (worker_id : Text) (s : Store) (e : WorkflowQueueEntry)
    → (claim_next w locked worker_id s).0 ≡ ok (some e)
    → Memᴰ e s.queue × (is_claimable locked (w.time s.clock_reads) e ≡ true)
claim_claimable w locked worker_id s e h =
    let (found, same, chosen) = claim_next-Chosen w locked worker_id s in go found (cc) chosen
  where
    go :
        (found : Option WorkflowQueueEntry)
        → found ≡ some e
        → Chosen locked (w.time s.clock_reads) s.queue found
        → Memᴰ e s.queue × (is_claimable locked (w.time s.clock_reads) e ≡ true)
    go none eq chosen = absurd (cc)
    go (some best) eq chosen =
        subst (λ x. Memᴰ x s.queue × (is_claimable locked (w.time s.clock_reads) x ≡ true))
          (some-injective _ _ eq) (chosen.0, chosen.1)

abbrev entry_ids : List WorkflowQueueEntry → List ℕ
entry_ids rows = map entry_id rows

absent :
    (i : ℕ) (rows : List WorkflowQueueEntry)
    → elem i (entry_ids rows) ≡ false
    → All (λ r. entry_id r ≡ i → is_queued r ≡ false) rows
absent i [] h = tt
absent i (row ∷ rows) h = (λ same. ground arith, absent i rows (ground arith))

pub update_not_queued :
    (i : ℕ) (f : WorkflowQueueEntry → WorkflowQueueEntry) (rows : List WorkflowQueueEntry)
    → ((r : WorkflowQueueEntry) → is_queued (f r) ≡ false)
    → IsNodup (entry_ids rows)
    → All (λ r. entry_id r ≡ i → is_queued r ≡ false) (update entry_id i f rows)
update_not_queued i f [] h k = tt
update_not_queued i f (row ∷ rows) h k = elim (Bool-cases (eqb row.id i)) [
  | inl here ↦ rw here (
    (λ _. h row),
    absent i rows (subst (λ x. elem x (entry_ids rows) ≡ false) ((eqb_iff row.id i).0 here) k.0),
  )
  | inr there ↦ rw there ((λ same. ground arith), update_not_queued i f rows h k.1)
]

pub All-Memᴰ :
    (P : WorkflowQueueEntry → Type 0) (e : WorkflowQueueEntry) {rows : List WorkflowQueueEntry}
    → Memᴰ e rows
    → All P rows
    → P e
All-Memᴰ P e (Memᴰ.head same) h = subst P (sym same) h.0
All-Memᴰ P e (Memᴰ.tail m) h = All-Memᴰ P e m h.1

pub claim_next_queue :
    (w : World) (locked : List ℕ) (worker : Text) (s : Store) (e : WorkflowQueueEntry)
    → (claim_next w locked worker s).0 ≡ ok (some e)
    → (claim_next w locked worker s).1.queue
      ≡ update entry_id e.id (claim_row (w.time s.clock_reads) worker) s.queue
unfolding claim_next
claim_next_queue w locked worker s e h =
    go (first_claimable locked (w.time s.clock_reads) s.queue) h
  where
    go :
        (o : Option WorkflowQueueEntry)
        → (take_entry
            (w.time s.clock_reads)
            worker
            o
            (record s { clock_reads = s.clock_reads + 1 })).0
          ≡ ok (some e)
        → (take_entry
            (w.time s.clock_reads)
            worker
            o
            (record s { clock_reads = s.clock_reads + 1 })).1.queue
          ≡ update entry_id e.id (claim_row (w.time s.clock_reads) worker) s.queue
    go none eq = absurd (cc)
    go (some best) eq =
        ap
          (λ (x : WorkflowQueueEntry).
            update entry_id x.id (claim_row (w.time s.clock_reads) worker) s.queue)
          {x = best} {y = e} (cc)

-- If the ids of the table are distinct, the claim that follows a claim, by whichever worker and with
-- whatever rows locked, does not take the same entry: it takes another one or none.
pub claim_next_once :
    (w : World) (locked locked' : List ℕ) (worker worker' : Text) (s : Store)
    (e e' : WorkflowQueueEntry)
    → IsNodup (map entry_id s.queue)
    → (claim_next w locked worker s).0 ≡ ok (some e)
    → (claim_next w locked' worker' (claim_next w locked worker s).1).0 ≡ ok (some e')
    → e.id ≢ e'.id
unfolding is_claimable
claim_next_once w locked locked' worker worker' s e e' distinct h h' same =
    let (m, free) = claim_claimable w locked' worker' (claim_next w locked worker s).1 e' h' in
    let gone =
      All-Memᴰ (λ r. entry_id r ≡ e.id → is_queued r ≡ false) e' m
        (subst (All (λ r. entry_id r ≡ e.id → is_queued r ≡ false))
          (sym (claim_next_queue w locked worker s e h))
          (update_not_queued e.id (claim_row (w.time s.clock_reads) worker) s.queue (λ r. refl)
            distinct))
        (sym same) in
    ground arith
