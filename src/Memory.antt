-- ===== src/Memory.antt =====
-- services/memory_engine/src/forgeai_memory_engine/decisions.py: the log of architecture decisions,
-- with services/core/src/forgeai_core/models/architecture_decision.py. The table is the state. The
-- time of an insertion is an argument.
pub mod Supersession
pub mod Events
use forge_ai_autonomous_soft.Common.{
  ℕ, ◌+◌, Bool, true, false, ◌&&◌, Option, none, some, List, [], ◌∷◌, ◌++◌, Text, codes,
  if◌then◌else◌, ◌==◌, eqb, eqb_iff, leb, find, select, sort, Eq, arith, refl, ap,
}

pub data ArchitectureDecisionStatus : Type 0 where
  proposed accepted rejected superseded : ArchitectureDecisionStatus

-- The string value of the enumeration.
abbrev pub status_value : ArchitectureDecisionStatus → Text
status_value proposed = codes "proposed"
status_value accepted = codes "accepted"
status_value rejected = codes "rejected"
status_value superseded = codes "superseded"

pub record ArchitectureDecision : Type 0 where
  pub id : ℕ
  pub project_id : ℕ
  pub title : Text
  pub context : Text
  pub decision : Text
  pub consequences : Option Text
  pub status : ArchitectureDecisionStatus
  pub superseded_by_id : Option ℕ
  pub capability_execution_id : Option ℕ
  pub created_by : Option ℕ
  pub created_at : ℕ

pub data MemoryError : Type 0 where
  decision_not_found : (decision_id : ℕ) → MemoryError
  not_supersedable : (decision_id : ℕ) (status : Text) → MemoryError
  not_decidable : (decision_id : ℕ) (status attempted : Text) → MemoryError

-- A call that returns or raises.
pub data Answer (A : Type 0) : Type 0 where
  returned : A → Answer A
  raised : MemoryError → Answer A

pub record Log : Type 0 where
  pub rows : List ArchitectureDecision
  pub next_id : ℕ

-- The keyword arguments that `record` and `supersede` share.
pub record Draft : Type 0 where
  pub title : Text
  pub context : Text
  pub decision : Text
  pub consequences : Option Text
  pub created_by : Option ℕ
  pub capability_execution_id : Option ℕ

abbrev pub new_row : ℕ → ℕ → ArchitectureDecisionStatus → Draft → ℕ → ArchitectureDecision
new_row i project_id status draft now = record {
  id = i;
  project_id = project_id;
  title = draft.title;
  context = draft.context;
  decision = draft.decision;
  consequences = draft.consequences;
  status = status;
  superseded_by_id = none;
  capability_execution_id = draft.capability_execution_id;
  created_by = draft.created_by;
  created_at = now;
}

-- `db.add` and `flush`
abbrev pub add_row : ℕ → ArchitectureDecisionStatus → Draft → ℕ → Log → Log
add_row project_id status draft now log = record {
  rows = log.rows ++ new_row log.next_id project_id status draft now ∷ [];
  next_id = log.next_id + 1;
}

-- `db.get`
abbrev pub row_at : ℕ → Log → Option ArchitectureDecision
row_at i log = find (λ (row : ArchitectureDecision). eqb row.id i) log.rows

-- The table after a write to the row with an id.
abbrev pub rewrite :
    ℕ
    → (ArchitectureDecision → ArchitectureDecision)
    → List ArchitectureDecision
    → List ArchitectureDecision
rewrite i f [] = []
rewrite i f (row ∷ rows) =
    let rest = rewrite i f rows in if eqb row.id i then f row ∷ rows else row ∷ rest

abbrev pub set_status : ArchitectureDecisionStatus → ArchitectureDecision → ArchitectureDecision
set_status status row = record row { status = status }

-- `record`: always PROPOSED.
unfoldable pub record_decision_row : ℕ → Draft → ℕ → Log → Answer ℕ × Log
record_decision_row project_id draft now log =
    (returned log.next_id, add_row project_id proposed draft now log)

abbrev pub found_row : ℕ → Option ArchitectureDecision → Answer ArchitectureDecision
found_row i none = raised (decision_not_found i)
found_row i (some row) = returned row

unfoldable pub get_decision : ℕ → Log → Answer ArchitectureDecision
get_decision i log = found_row i (row_at i log)

-- What `accept` and `reject` share: the status they set, their name, and the current status.
abbrev pub decided_from :
    ArchitectureDecisionStatus → Text → ℕ → ArchitectureDecisionStatus → Log → Answer ℕ × Log
decided_from status attempted i proposed log =
    (returned i, record log { rows = rewrite i (set_status status) log.rows })
decided_from status attempted i current log =
    (raised (not_decidable i (status_value current) attempted), log)

abbrev pub decided_as :
    ArchitectureDecisionStatus → Text → ℕ → Answer ArchitectureDecision → Log → Answer ℕ × Log
decided_as status attempted i (raised e) log = (raised e, log)
decided_as status attempted i (returned row) log = decided_from status attempted i row.status log

unfoldable pub accept : ℕ → Log → Answer ℕ × Log
unfolding get_decision
accept i log = decided_as accepted (codes "accept") i (get_decision i log) log

unfoldable pub reject : ℕ → Log → Answer ℕ × Log
unfolding get_decision
reject i log = decided_as rejected (codes "reject") i (get_decision i log) log

abbrev pub point_at : ℕ → ArchitectureDecision → ArchitectureDecision
point_at j row = record row { status = superseded; superseded_by_id = some j }

-- The new row, and the old row at it.
abbrev pub superseded_from :
    Draft → ℕ → ℕ → (project_id : ℕ) → ArchitectureDecisionStatus → Log → Answer ℕ × Log
superseded_from draft now i project_id accepted log =
    let after = add_row project_id accepted draft now log in
    (returned log.next_id, record after { rows = rewrite i (point_at log.next_id) after.rows })
superseded_from draft now i project_id current log =
    (raised (not_supersedable i (status_value current)), log)

abbrev pub superseded_with : Draft → ℕ → ℕ → Answer ArchitectureDecision → Log → Answer ℕ × Log
superseded_with draft now i (raised e) log = (raised e, log)
superseded_with draft now i (returned row) log =
    superseded_from draft now i row.project_id row.status log

unfoldable pub supersede : ℕ → Draft → ℕ → Log → Answer ℕ × Log
unfolding get_decision
supersede i draft now log = superseded_with draft now i (get_decision i log) log

-- A call of one of the methods that write.
pub data Call : Type 0 where
  record_call : (project_id : ℕ) → Draft → (now : ℕ) → Call
  accept_call reject_call : ℕ → Call
  supersede_call : ℕ → Draft → (now : ℕ) → Call

unfoldable pub call : Call → Log → Answer ℕ × Log
unfolding record_decision_row accept reject supersede
call (record_call p draft now) log = record_decision_row p draft now log
call (accept_call i) log = accept i log
call (reject_call i) log = reject i log
call (supersede_call i draft now) log = supersede i draft now log

unfoldable pub replay : List Call → Log → Log
unfolding call
replay [] log = log
replay (c ∷ cs) log = replay cs (call c log).1
