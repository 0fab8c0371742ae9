-- ===== src/Engine/Queue/Choice.antt =====
-- Which entry a worker claims: the order of `claim_next`.
use forge_ai_autonomous_soft.Common.{
  ℕ, ◌≡◌, ◌≤◌, ltb_ℤ, refl, Bool, true, false, Option, none, some, List, [], ◌∷◌, Text, nat_eq, All,
  All-mono, if◌then◌else◌, arith, Bool-cases, inl, inr,
}
use mathlib.Core.List.{Memᴰ}
use forge_ai_autonomous_soft.Engine.Errors.{ok}
use forge_ai_autonomous_soft.Engine.Session.Rows.{WorkflowQueueEntry}
use forge_ai_autonomous_soft.Engine.Session.Actions.{World, Store}
use forge_ai_autonomous_soft.Engine.Queue.{
  prefer, is_claimable, goes_before, first_claimable, claim_next,
}

-- No claimable entry of the table goes before `best`.
abbrev IsFirst : List ℕ → ℕ → WorkflowQueueEntry → List WorkflowQueueEntry → Type 0
IsFirst locked at best = All (λ e. is_claimable locked at e ≡ true → goes_before e best ≡ false)

before_trans :
    (a b c : WorkflowQueueEntry)
    → goes_before a b ≡ false
    → goes_before b c ≡ false
    → goes_before a c ≡ false
unfolding goes_before
before_trans a b c h k = ground arith

before_asym : (a b : WorkflowQueueEntry) → goes_before a b ≡ true → goes_before b a ≡ false
unfolding goes_before
before_asym a b h = ground arith

before_irrefl : (a : WorkflowQueueEntry) → goes_before a a ≡ false
unfolding goes_before
before_irrefl a = ground arith

abbrev Picked : List ℕ → ℕ → List WorkflowQueueEntry → Option WorkflowQueueEntry → Type 0
Picked locked at rows none = All (λ e. is_claimable locked at e ≡ false) rows
Picked locked at rows (some best) =
    Memᴰ best rows × (is_claimable locked at best ≡ true) × IsFirst locked at best rows

IsFirst-weaken :
    (locked : List ℕ) (at : ℕ) (a b : WorkflowQueueEntry) (rows : List WorkflowQueueEntry)
    → goes_before b a ≡ false
    → IsFirst locked at b rows
    → IsFirst locked at a rows
IsFirst-weaken locked at a b [] h k = tt
IsFirst-weaken locked at a b (e ∷ rows) h k =
    (λ c. before_trans e b a (k.0 c) h, IsFirst-weaken locked at a b rows h k.1)

first_claimable-Picked :
    (locked : List ℕ) (at : ℕ) (rows : List WorkflowQueueEntry)
    → Picked locked at rows (first_claimable locked at rows)
unfolding first_claimable
first_claimable-Picked locked at [] = tt
first_claimable-Picked locked at (e ∷ rows) =
    go (first_claimable locked at rows) (first_claimable-Picked locked at rows)
  where
    none_first :
        (rows : List WorkflowQueueEntry)
        → All (λ r. is_claimable locked at r ≡ false) rows
        → IsFirst locked at e rows
    none_first [] h = tt
    none_first (r ∷ rows) h = (λ c. absurd (cc (h.0)), none_first rows h.1)

    go :
        (o : Option WorkflowQueueEntry)
        → Picked locked at rows o
        → Picked locked at (e ∷ rows) (if is_claimable locked at e then prefer e o else o)
    go none h = elim (Bool-cases (is_claimable locked at e)) [
      | inl free ↦ rw free (Memᴰ.head refl, free, (λ _. before_irrefl e, none_first rows h))
      | inr taken ↦ rw taken (taken, h)
    ]
    go (some best) h = elim (Bool-cases (is_claimable locked at e)) [
      | inl free ↦ rw free (pick (goes_before best e) refl free)
      | inr taken ↦ rw taken (Memᴰ.tail h.0, h.1, (λ c. absurd (cc), h.2))
    ]
      where
        pick :
            (b : Bool)
            → goes_before best e ≡ b
            → is_claimable locked at e ≡ true
            → Picked locked at (e ∷ rows) (some (if b then best else e))
        pick true later free = (Memᴰ.tail h.0, h.1, (λ _. before_asym best e later, h.2))
        pick false earlier free = (
          Memᴰ.head refl,
          free,
          (λ _. before_irrefl e, IsFirst-weaken locked at e best rows earlier h.2),
        )

-- The entry does not have to be claimed before `best`: its priority is not higher, and if it is not
-- lower either, it is not older.
abbrev pub IsNotBefore : WorkflowQueueEntry → WorkflowQueueEntry → Type 0
IsNotBefore e best =
    (ltb_ℤ best.priority e.priority ≡ false)
    × (ltb_ℤ e.priority best.priority ≡ false → best.created_at ≤ e.created_at)

-- What a claim finds: a claimable entry of the table that no claimable entry is before, or no entry
-- if none is claimable.
abbrev pub Chosen : List ℕ → ℕ → List WorkflowQueueEntry → Option WorkflowQueueEntry → Type 0
Chosen locked at rows none = All (λ e. is_claimable locked at e ≡ false) rows
Chosen locked at rows (some best) =
    Memᴰ best rows
    × (is_claimable locked at best ≡ true)
    × All (λ e. is_claimable locked at e ≡ true → IsNotBefore e best) rows

not_before : (e best : WorkflowQueueEntry) → goes_before e best ≡ false → IsNotBefore e best
unfolding goes_before
not_before e best h = (ground arith, λ k. ground arith)

Picked-Chosen :
    (locked : List ℕ) (at : ℕ) (rows : List WorkflowQueueEntry) (o : Option WorkflowQueueEntry)
    → Picked locked at rows o
    → Chosen locked at rows o
Picked-Chosen locked at rows none h = h
Picked-Chosen locked at rows (some best) h =
    (h.0, h.1, All-mono (λ e k c. not_before e best (k c)) rows h.2)

-- A claim, if any entry is claimable, takes one of the table's claimable entries such that no other
-- has a higher priority, and none of the same priority is older. If it takes none, no entry is
-- claimable: each is claimed or done, scheduled for later, or locked.
pub claim_next-Chosen :
    (w : World) (locked : List ℕ) (worker_id : Text) (s : Store)
    → (found : Option WorkflowQueueEntry) × ((claim_next w locked worker_id s).0 ≡ ok found)
      × Chosen locked (w.time s.clock_reads) s.queue found
unfolding claim_next
claim_next-Chosen w locked worker_id s =
    let found = first_claimable locked (w.time s.clock_reads) s.queue in
    (
      found,
      ground arith,
      Picked-Chosen locked (w.time s.clock_reads) s.queue found
          (first_claimable-Picked locked (w.time s.clock_reads) s.queue),
    )
