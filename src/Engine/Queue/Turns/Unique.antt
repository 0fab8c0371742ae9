-- ===== src/Engine/Queue/Turns/Unique.antt =====
-- Over any turns of the workers, an entry of the queue is claimed once.
use forge_ai_autonomous_soft.Common.{
  ℕ, ◌+◌, ◌<◌, ◌≡◌, refl, sym, subst, ap, false, Option, none, some, List, [], ◌∷◌, Text, eqb,
  eqb_iff, elem, nat_eq, All, All-mono, map, IsNodup, arith, Bool-cases, inl, inr,
}
use forge_ai_autonomous_soft.Engine.Errors.{Result, ok}
use forge_ai_autonomous_soft.Engine.Session.Rows.{WorkflowQueueEntry}
use forge_ai_autonomous_soft.Engine.Session.Actions.{World, Store, update}
use forge_ai_autonomous_soft.Engine.Queue.{
  entry_id, claim_row, take_entry, is_queued, is_claimable, first_claimable, claim_next, mark_done,
  enqueue,
}
use forge_ai_autonomous_soft.Engine.Queue.Claims.{claim_claimable, update_not_queued, All-Memᴰ}
use forge_ai_autonomous_soft.Engine.Queue.Turns.{
  Turn, claim, finish, add, claimed_id, with_claim, take_turn, claims, Spent, IsKeyed, update_spent,
  ids-update, given_out-update, All-snoc, distinct-snoc,
}

module _ (w : World) where
  claim_cases :
      (locked : List ℕ) (worker_id : Text) (s : Store)
      → (P : Result (Option WorkflowQueueEntry) → Store → Type 0)
      → ((t : Store) → t.queue ≡ s.queue → t.next_id ≡ s.next_id → P (ok none) t)
      → ((e : WorkflowQueueEntry) (t : Store)
          → (claim_next w locked worker_id s).0 ≡ ok (some e)
          → t.queue ≡ update entry_id e.id (claim_row (w.time s.clock_reads) worker_id) s.queue
          → t.next_id ≡ s.next_id
          → P (ok (some e)) t)
      → P (claim_next w locked worker_id s).0 (claim_next w locked worker_id s).1
  unfolding claim_next
  claim_cases locked worker_id s P nothing something =
      go (first_claimable locked (w.time s.clock_reads) s.queue) refl
    where
      go :
          (o : Option WorkflowQueueEntry)
          → first_claimable locked (w.time s.clock_reads) s.queue ≡ o
          → P
              (take_entry
                (w.time s.clock_reads)
                worker_id
                o
                (record s { clock_reads = s.clock_reads + 1 })).0
              (take_entry
                (w.time s.clock_reads)
                worker_id
                o
                (record s { clock_reads = s.clock_reads + 1 })).1
      go none e = nothing _ refl refl
      go (some best) e =
          something best _
            (ap
              (λ o.
                (take_entry (w.time s.clock_reads) worker_id o
                  (record s { clock_reads = s.clock_reads + 1 })).0)
              e)
            refl refl

  turn-Spent : (turn : Turn) (s : Store) (i : ℕ) → Spent i s → Spent i (take_turn w turn s).1
  unfolding take_turn mark_done enqueue
  turn-Spent (claim locked worker_id) s i (rows, below) =
      claim_cases locked worker_id s (λ r t. Spent i t)
        (λ t same next. (
          subst (All (λ r. entry_id r ≡ i → is_queued r ≡ false)) (sym same) rows,
          subst (λ n. i < n) (sym next) below,
        ))
        (λ e t took same next. (
          subst (All (λ r. entry_id r ≡ i → is_queued r ≡ false)) (sym same)
              (update_spent i e.id _ s.queue (λ r. refl) rows),
          subst (λ n. i < n) (sym next) below,
        ))
  turn-Spent (finish j) s i (rows, below) = (update_spent i j _ s.queue (λ r. refl) rows, below)
  turn-Spent (add execution_id priority at) s i (rows, below) =
      (All-snoc _ s.queue _ rows (λ same. absurd (omega arith)), omega arith)

  turn-IsKeyed : (turn : Turn) (s : Store) → IsKeyed s → IsKeyed (take_turn w turn s).1
  unfolding take_turn mark_done enqueue
  turn-IsKeyed (claim locked worker_id) s keyed =
      claim_cases locked worker_id s (λ r t. IsKeyed t)
        (λ t same next. record {
          distinct = subst (λ q. IsNodup (map entry_id q)) (sym same) keyed.distinct;
          given_out = rw (same, next) keyed.given_out;
        })
        (λ e t took same next. record {
          distinct =
              rw
                (
                  same,
                  ids-update e.id (claim_row (w.time s.clock_reads) worker_id) s.queue (λ r. refl),
                )
                keyed.distinct;
          given_out =
              rw (same, next)
                (given_out-update s.next_id e.id _ s.queue (λ r. refl) keyed.given_out);
        })
  turn-IsKeyed (finish j) s keyed = record {
    distinct = subst IsNodup (sym (ids-update j _ s.queue (λ r. refl))) keyed.distinct;
    given_out = given_out-update s.next_id j _ s.queue (λ r. refl) keyed.given_out;
  }
  turn-IsKeyed (add execution_id priority at) s keyed = record {
    distinct = distinct-snoc s.next_id s.queue _ keyed.distinct keyed.given_out refl;
    given_out =
        All-snoc _ s.queue _ (All-mono (λ r h. omega arith) s.queue keyed.given_out) (omega arith);
  }

  -- An entry that is claimed is queued before, and spent after.
  turn-takes :
      (turn : Turn) (s : Store) (i : ℕ)
      → IsKeyed s
      → (take_turn w turn s).0 ≡ some i
      → (Spent i s → ⊥) × Spent i (take_turn w turn s).1
  unfolding take_turn is_claimable
  turn-takes (claim locked worker_id) s i keyed h =
      claim_cases locked worker_id s (λ r t. claimed_id r ≡ some i → (Spent i s → ⊥) × Spent i t)
        (λ t same next g. absurd (cc))
        (λ e t took same next g.
          let own : e.id ≡ i = cc in
          let (m, free) = claim_claimable w locked worker_id s e took in
          (
            λ spent.
                let done = All-Memᴰ (λ r. entry_id r ≡ i → is_queued r ≡ false) e m spent.0 own in
                ground arith,
            (
              subst (All (λ r. entry_id r ≡ i → is_queued r ≡ false)) (sym same) (
                  subst
                    (λ k.
                      All (λ r. entry_id r ≡ k → is_queued r ≡ false)
                        (update entry_id e.id (claim_row (w.time s.clock_reads) worker_id) s.queue))
                    own (update_not_queued e.id _ s.queue (λ r. refl) keyed.distinct)),
              subst (λ n. i < n) (sym next)
                  (subst (λ k. k < s.next_id) own
                    (All-Memᴰ (λ r. r.id < s.next_id) e m keyed.given_out)),
            ),
          ))
        h
  turn-takes (finish j) s i keyed h = absurd (cc)
  turn-takes (add execution_id priority at) s i keyed h = absurd (cc)

  claims-Spent :
      (turns : List Turn) (s : Store) (i : ℕ)
      → IsKeyed s
      → Spent i s
      → elem i (claims w turns s) ≡ false
  unfolding claims
  claims-Spent [] s i keyed spent = refl
  claims-Spent (turn ∷ turns) s i keyed spent =
      go (take_turn w turn s).0 (turn-takes turn s i keyed) (
        claims-Spent turns (take_turn w turn s).1 i (turn-IsKeyed turn s keyed)
          (turn-Spent turn s i spent))
    where
      go :
          (o : Option ℕ)
          → (o ≡ some i → (Spent i s → ⊥) × Spent i (take_turn w turn s).1)
          → elem i (claims w turns (take_turn w turn s).1) ≡ false
          → elem i (with_claim o (claims w turns (take_turn w turn s).1)) ≡ false
      go none takes later = later
      go (some j) takes later = elim (Bool-cases (eqb j i)) [
        | inl same ↦ absurd ((takes (ap some ((eqb_iff j i).0 same))).0 spent)
        | inr other ↦ ground (arith, other, later, eqb_iff i j, eqb_iff j i)
      ]

  -- Where the ids of the table are distinct and given out upwards: however many workers take turns at
  -- claiming entries, with whatever rows locked, completing them and adding new ones, in whatever order, no
  -- entry is ever claimed twice.
  pub claims-IsNodup : (turns : List Turn) (s : Store) → IsKeyed s → IsNodup (claims w turns s)
  unfolding claims
  claims-IsNodup [] s keyed = tt
  claims-IsNodup (turn ∷ turns) s keyed =
      go (take_turn w turn s).0 (λ i h. (turn-takes turn s i keyed h).1)
        (claims-IsNodup turns (take_turn w turn s).1 (turn-IsKeyed turn s keyed))
    where
      go :
          (o : Option ℕ)
          → ((i : ℕ) → o ≡ some i → Spent i (take_turn w turn s).1)
          → IsNodup (claims w turns (take_turn w turn s).1)
          → IsNodup (with_claim o (claims w turns (take_turn w turn s).1))
      go none takes later = later
      go (some i) takes later = (
        claims-Spent turns (take_turn w turn s).1 i (turn-IsKeyed turn s keyed) (takes i refl),
        later,
      )
