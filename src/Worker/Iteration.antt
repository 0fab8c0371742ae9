-- ===== src/Worker/Iteration.antt =====
-- What an iteration that returns leaves in the queue.
use forge_ai_autonomous_soft.Common.{
  ℕ, ◌+◌, Bool, true, false, Option, none, some, List, [], ◌∷◌, ◌++◌, Text, ◌≡◌, refl, sym, ap, ◌∙◌,
  subst, arith, elem, nat_eq,
}
use forge_ai_autonomous_soft.Core.{WorkflowStatus, workflow_status_eq}
use forge_ai_autonomous_soft.Engine.Errors.{Result, ok, err, ok-injective}
use forge_ai_autonomous_soft.Engine.Session.Rows.{WorkflowQueueEntry}
use forge_ai_autonomous_soft.Engine.Session.Actions.{World, Store, Action, continue, ◌>>=◌}
use forge_ai_autonomous_soft.Engine.StateManager.{get_execution}
use forge_ai_autonomous_soft.Engine.Queue.{claim_next, claim_row, take_entry, first_claimable}
use forge_ai_autonomous_soft.Engine.Queue.Choice.{Chosen, claim_next-Chosen}
use forge_ai_autonomous_soft.Engine.Queue.Claims.{claim_next_queue}
use forge_ai_autonomous_soft.Engine.Executor.Advance.{advance}
use forge_ai_autonomous_soft.Engine.Evolution.{Evolving}
use forge_ai_autonomous_soft.Engine.Evolution.Rules.{evolving_rules}
use forge_ai_autonomous_soft.Engine.Evolution.Operations.{transitions}
use forge_ai_autonomous_soft.Engine.Evolution.Transitions.{get_execution-Evolving}
use forge_ai_autonomous_soft.Engine.Evolution.Ticks.{advance-Evolving}
use forge_ai_autonomous_soft.Engine.Executor.Control.{start}
use forge_ai_autonomous_soft.Worker.{drive_found, start_if_pending, drive, run_iteration}
use forge_ai_autonomous_soft.Worker.Closing.{
  IsClosed, entry_ids, elem-update, elem-Memᴰ, close-IsClosed,
}

-- A call that, if it returns, returns True and leaves the entry closed.
abbrev Closes : WorkflowQueueEntry → Result Bool × Store → Type 0
Closes e after = (b : Bool) → after.0 ≡ ok b → (b ≡ true) × IsClosed e after.1

elem-extends :
    (i : ℕ) (xs ys more : List WorkflowQueueEntry)
    → ys ≡ xs ++ more
    → elem i (entry_ids xs) ≡ true
    → elem i (entry_ids ys) ≡ true
elem-extends i xs ys more same m = rw same (go xs m)
  where
    go :
        (xs : List WorkflowQueueEntry)
        → elem i (entry_ids xs) ≡ true
        → elem i (entry_ids (xs ++ more)) ≡ true
    go [] m = absurd (cc)
    go (x ∷ xs) m = ground (arith, go xs)

Closes-bind :
    {A : Type 0} (e : WorkflowQueueEntry) (m : Action A) (f : A → Action Bool)
    → Evolving m
    → ((a : A) (t : Store) → elem e.id (entry_ids t.queue) ≡ true → Closes e (f a t))
    → (s : Store) → elem e.id (entry_ids s.queue) ≡ true
    → Closes e ((m >>= f) s)
Closes-bind {A} e m f evolving h s there = go (m s).0
  where
    go : (r : Result A) → Closes e (continue r f (m s).1)
    go (ok a) =
        let (more, same) = (evolving.at s).queue in
        h a (m s).1 (elem-extends e.id s.queue (m s).1.queue more same there)
    go (err x) = λ b k. absurd (cc)

start_if_pending-Evolving :
    (w : World) (i : ℕ) (status : WorkflowStatus) → Evolving (start_if_pending w i status)
unfolding start_if_pending start
start_if_pending-Evolving w i status = search (transitions, evolving_rules)

drive-Closes :
    (w : World) (e : WorkflowQueueEntry) (s : Store)
    → elem e.id (entry_ids s.queue) ≡ true
    → Closes e (drive w e s)
unfolding drive
drive-Closes w e =
    Closes-bind e (get_execution e.workflow_execution_id) _
      (get_execution-Evolving e.workflow_execution_id)
      (λ execution.
        Closes-bind e (start_if_pending w e.workflow_execution_id execution.status) _
          (start_if_pending-Evolving w e.workflow_execution_id execution.status)
          (λ _.
            Closes-bind e (advance w e.workflow_execution_id) _
              (advance-Evolving w e.workflow_execution_id)
              (λ _ t m b h. close-IsClosed w e t b m h)))

-- What an iteration leaves: nothing but a reading of the clock, if it found no entry; otherwise the
-- entry closed.
abbrev pub Iterated : Store → Option WorkflowQueueEntry → Bool → Store → Type 0
Iterated s none b t = (b ≡ false) × (t ≡ record s { clock_reads = s.clock_reads + 1 })
Iterated s (some e) b t = (b ≡ true) × IsClosed e t

claim_none :
    (w : World) (locked : List ℕ) (worker_id : Text) (s : Store)
    → (claim_next w locked worker_id s).0 ≡ ok none
    → (claim_next w locked worker_id s).1 ≡ record s { clock_reads = s.clock_reads + 1 }
unfolding claim_next
claim_none w locked worker_id s h = go (first_claimable locked (w.time s.clock_reads) s.queue) h
  where
    go :
        (o : Option WorkflowQueueEntry)
        → (take_entry
            (w.time s.clock_reads)
            worker_id
            o
            (record s { clock_reads = s.clock_reads + 1 })).0
          ≡ ok none
        → (take_entry
            (w.time s.clock_reads)
            worker_id
            o
            (record s { clock_reads = s.clock_reads + 1 })).1
          ≡ record s { clock_reads = s.clock_reads + 1 }
    go none h = refl
    go (some e) h = absurd (cc)

-- What holds right after a claim.
abbrev AfterClaim : Store → Option WorkflowQueueEntry → Store → Type 0
AfterClaim s none t = t ≡ record s { clock_reads = s.clock_reads + 1 }
AfterClaim s (some e) t = elem e.id (entry_ids t.queue) ≡ true

claimed_state :
    (w : World) (locked : List ℕ) (worker_id : Text) (s : Store) (found : Option WorkflowQueueEntry)
    → (claim_next w locked worker_id s).0 ≡ ok found
    → Chosen locked (w.time s.clock_reads) s.queue found
    → AfterClaim s found (claim_next w locked worker_id s).1
claimed_state w locked worker_id s none claims chosen = claim_none w locked worker_id s claims
claimed_state w locked worker_id s (some e) claims chosen =
    ap (λ q. elem e.id (entry_ids q)) (claim_next_queue w locked worker_id s e claims)
    ∙ elem-update e.id e.id (claim_row (w.time s.clock_reads) worker_id) s.queue (λ r. refl)
    ∙ elem-Memᴰ e s.queue chosen.0

driven :
    (w : World) (s : Store) (found : Option WorkflowQueueEntry) (t : Store) (b : Bool)
    → AfterClaim s found t
    → (drive_found w found t).0 ≡ ok b
    → Iterated s found b (drive_found w found t).1
driven w s none t b idle h = (sym (ok-injective h), idle)
driven w s (some e) t b there h = drive-Closes w e t there b h

-- Whatever an iteration that returns does, in its workflow's stages, with the runner and in the
-- retries: it returns False and has only read the clock if no entry is claimable; otherwise it
-- claims an entry that `claim_next` may choose, returns True, that entry is then done, and if its
-- execution is RUNNING at the end, the queue holds a queued entry of the same execution with the
-- same priority.
pub run_iteration-Iterated :
    (w : World) (locked : List ℕ) (worker_id : Text) (s : Store) (b : Bool)
    → (run_iteration w locked worker_id s).0 ≡ ok b
    → (found : Option WorkflowQueueEntry) × Chosen locked (w.time s.clock_reads) s.queue found
      × Iterated s found b (run_iteration w locked worker_id s).1
unfolding run_iteration
run_iteration-Iterated w locked worker_id s b h =
    let (found, claims, chosen) = claim_next-Chosen w locked worker_id s in
    (
      found,
      chosen,
      subst
          (λ r.
            (continue r (drive_found w) (claim_next w locked worker_id s).1).0 ≡ ok b
            → Iterated s found b (continue r (drive_found w) (claim_next w locked worker_id s).1).1)
          (sym claims)
          (λ k.
            driven w s found (claim_next w locked worker_id s).1 b
              (claimed_state w locked worker_id s found claims chosen) k)
          h,
    )
