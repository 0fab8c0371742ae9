-- ===== src/Memory/Supersession.antt =====
-- How the decisions of a log supersede each other.
use forge_ai_autonomous_soft.Common.{
  ℕ, ◌+◌, ◌<◌, ◌≡◌, ◌≢◌, refl, sym, subst, some-injective, Option, none, some, List, [], ◌∷◌, ◌++◌,
  eqb, find, arith, All, All-mono, Bool-cases, inl, inr, All-append, Text, codes,
}
use forge_ai_autonomous_soft.Memory.{
  ArchitectureDecisionStatus, proposed, accepted, rejected, superseded, ArchitectureDecision, Log,
  Draft, add_row, row_at, rewrite, set_status, get_decision, found_row, decided_as, decided_from,
  superseded_from, accept, reject, point_at, superseded_with, supersede, record_decision_row, Call,
  record_call, accept_call, reject_call, supersede_call, call, replay,
}

-- A decision is superseded exactly when it points at another one, which is in the log and later.
abbrev pub IsLinked : ℕ → ℕ → ArchitectureDecisionStatus → Option ℕ → Type 0
IsLinked next i status none = status ≢ superseded
IsLinked next i status (some j) = (status ≡ superseded) × (i < j) × (j < next)

abbrev pub IsRow : ℕ → ArchitectureDecision → Type 0
IsRow next row = (row.id < next) × IsLinked next row.id row.status row.superseded_by_id

abbrev pub IsLog : Log → Type 0
IsLog log = All (IsRow log.next_id) log.rows

IsLinked-suc :
    (next i : ℕ) (status : ArchitectureDecisionStatus) (o : Option ℕ)
    → IsLinked next i status o
    → IsLinked (next + 1) i status o
IsLinked-suc next i status none h = h
IsLinked-suc next i status (some j) h = (h.0, h.1, omega (arith, h.2))

IsRow-suc : (next : ℕ) (row : ArchitectureDecision) → IsRow next row → IsRow (next + 1) row
IsRow-suc next row h =
    (omega (arith, h.0), IsLinked-suc next row.id row.status row.superseded_by_id h.1)

IsLog-add :
    (p : ℕ) (status : ArchitectureDecisionStatus) (draft : Draft) (now : ℕ) (log : Log)
    → status ≢ superseded
    → IsLog log
    → IsLog (add_row p status draft now log)
IsLog-add p status draft now log ne h =
    All-append (IsRow (log.next_id + 1)) log.rows _ (All-mono (IsRow-suc log.next_id) log.rows h)
      ((omega arith, ne), tt)

-- A write to the row that an id finds, if it keeps that row's invariant.
All-rewrite :
    (P : ArchitectureDecision → Type 0) (i : ℕ) (f : ArchitectureDecision → ArchitectureDecision)
    (rows : List ArchitectureDecision) (row : ArchitectureDecision)
    → find (λ (r : ArchitectureDecision). eqb r.id i) rows ≡ some row
    → (P row → P (f row))
    → All P rows
    → All P (rewrite i f rows)
All-rewrite P i f [] row found g h = absurd (cc)
All-rewrite P i f (r ∷ rows) row found g h = elim (Bool-cases (eqb r.id i)) [
  | inl here ↦
      rw here (subst (λ x. P x → P (f x)) (sym (some-injective _ _ (ground arith))) g h.0, h.1)
  | inr there ↦ rw there (h.0, All-rewrite P i f rows row (ground arith) g h.1)
]

-- The row of an id keeps its invariant when a decision that points at no other gets a status.
set_status-IsRow :
    (next : ℕ) (status : ArchitectureDecisionStatus) (row : ArchitectureDecision)
    → status ≢ superseded
    → row.status ≢ superseded
    → IsRow next row
    → IsRow next (set_status status row)
set_status-IsRow next status row ne old h = (h.0, go row.superseded_by_id h.1)
  where
    go : (o : Option ℕ) → IsLinked next row.id row.status o → IsLinked next row.id status o
    go none k = ne
    go (some j) k = absurd (old k.0)

decided-IsLog :
    (status : ArchitectureDecisionStatus) (attempted : Text) (i : ℕ) (log : Log)
    → status ≢ superseded
    → IsLog log
    → IsLog (decided_as status attempted i (get_decision i log) log).1
unfolding get_decision
decided-IsLog status attempted i log ne h = go (row_at i log) refl
  where
    from :
        (row : ArchitectureDecision) (current : ArchitectureDecisionStatus)
        → row_at i log ≡ some row
        → row.status ≡ current
        → IsLog (decided_from status attempted i current log).1
    from row proposed found e =
        All-rewrite (IsRow log.next_id) i (set_status status) log.rows row found
          (set_status-IsRow log.next_id status row ne (λ k. absurd (cc))) h
    from row accepted found e = h
    from row rejected found e = h
    from row superseded found e = h

    go :
        (o : Option ArchitectureDecision)
        → row_at i log ≡ o
        → IsLog (decided_as status attempted i (found_row i o) log).1
    go none e = h
    go (some row) e = from row row.status e refl

find-append :
    (i : ℕ) (rows more : List ArchitectureDecision) (row : ArchitectureDecision)
    → find (λ (r : ArchitectureDecision). eqb r.id i) rows ≡ some row
    → find (λ (r : ArchitectureDecision). eqb r.id i) (rows ++ more) ≡ some row
find-append i [] more row h = absurd (cc)
find-append i (r ∷ rows) more row h = ground (arith, find-append i rows more row)

find-IsRow :
    (next i : ℕ) (rows : List ArchitectureDecision) (row : ArchitectureDecision)
    → find (λ (r : ArchitectureDecision). eqb r.id i) rows ≡ some row
    → All (IsRow next) rows
    → IsRow next row
find-IsRow next i [] row found h = absurd (cc)
find-IsRow next i (r ∷ rows) row found h = elim (Bool-cases (eqb r.id i)) [
  | inl here ↦ subst (IsRow next) {x = r} {y = row} (some-injective _ _ (ground arith)) h.0
  | inr there ↦ find-IsRow next i rows row (ground arith) h.1
]

supersede-IsLog :
    (i : ℕ) (draft : Draft) (now : ℕ) (log : Log) → IsLog log → IsLog (supersede i draft now log).1
unfolding supersede get_decision
supersede-IsLog i draft now log h = go (row_at i log) refl
  where
    from :
        (row : ArchitectureDecision) (current : ArchitectureDecisionStatus)
        → row_at i log ≡ some row
        → IsLog (superseded_from draft now i row.project_id current log).1
    from row accepted found =
        All-rewrite (IsRow (log.next_id + 1)) i (point_at log.next_id)
          (add_row row.project_id accepted draft now log).rows row
          (find-append i log.rows _ row found)
          (λ k. (k.0, (refl, (find-IsRow log.next_id i log.rows row found h).0, omega arith)))
          (IsLog-add row.project_id accepted draft now log (λ e. absurd (cc)) h)
    from row proposed found = h
    from row rejected found = h
    from row superseded found = h

    go :
        (o : Option ArchitectureDecision)
        → row_at i log ≡ o
        → IsLog (superseded_with draft now i (found_row i o) log).1
    go none e = h
    go (some row) e = from row row.status e

call-IsLog : (c : Call) (log : Log) → IsLog log → IsLog (call c log).1
unfolding call accept reject record_decision_row
call-IsLog (record_call p draft now) log h = IsLog-add p proposed draft now log (λ e. absurd (cc)) h
call-IsLog (accept_call i) log h =
    decided-IsLog accepted (codes "accept") i log (λ e. absurd (cc)) h
call-IsLog (reject_call i) log h =
    decided-IsLog rejected (codes "reject") i log (λ e. absurd (cc)) h
call-IsLog (supersede_call i draft now) log h = supersede-IsLog i draft now log h

-- In every log that the methods that write can make of an empty one, in any order and whichever of
-- the calls raise, a decision is superseded exactly when it points at another decision, and the
-- decision it points at has a later id, which was given out.
pub replay-IsLog : (cs : List Call) → IsLog (replay cs (record { rows = []; next_id = 0 }))
unfolding replay
replay-IsLog cs = go cs (record { rows = []; next_id = 0 }) tt
  where
    go : (cs : List Call) (log : Log) → IsLog log → IsLog (replay cs log)
    go [] log h = h
    go (c ∷ cs) log h = go cs (call c log).1 (call-IsLog c log h)
