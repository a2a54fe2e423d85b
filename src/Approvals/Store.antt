-- ===== src/Approvals/Store.antt =====
-- The statements and transactions of internal/store/approvals.go, and those of
-- internal/store/runs.go that write the status of a run. A transaction that fails is rolled back: the
-- caller keeps the database that it had.
use eino_ops_agent_enterpr1s.Base.{
  Bool, not, ◌&&◌, ◌||◌, List, [], ◌∷◌, ◌++◌, Option, none, some, Text, equal, is_empty, ◌==◌,
  if◌then◌else◌, Result, ok, err, ◌>>=◌, ◌>>◌, guard,
}
use eino_ops_agent_enterpr1s.Approvals.{
  is_agent, ApprovalStatus, pending, approved, rejected, RunStatus, running, interrupted,
  run_rejected, pos, Approval, Run, Db, StoreError, constraint_failed, not_found, empty_group,
  invalid_decision, no_longer_resumable, no_longer_pending, not_awaiting, not_claimable,
  is_preparing, is_pending, is_approved, is_rejected, is_awaiting, is_active, update_where,
  count_where, exists_where, find_where, publish,
}

-- The row that `INSERT INTO runs` makes: the columns that it does not name have their defaults.
abbrev pub new_run : Run → Run
new_run r = record r {
  exit_code = pos 0;
  stdout_redacted = [];
  stderr_redacted = [];
  stdout_cipher = [];
  stderr_cipher = [];
  error = [];
  completed_at = none;
}

-- `CreateRun`: the id is the primary key, and `host_id` names a host.
unfoldable pub create_run : Run → Db → Result StoreError Db
create_run r db = do
  guard (not (exists_where (λ (s : Run). equal s.id r.id) db.runs)) constraint_failed
  guard (exists_where (λ host. equal host r.host_id) db.hosts) constraint_failed
  ok (record db { runs = db.runs ++ new_run r ∷ [] })

-- `CreateApproval`: the id is the primary key, `run_id` is unique and names a run, and `host_id` names
-- a host. `session_id` is not a column of the table.
unfoldable pub create_approval : Approval → Text → Db → Result StoreError Db
create_approval a session_id db = do
  guard
      (not
        (exists_where (λ (b : Approval). equal b.id a.id || equal b.run_id a.run_id) db.approvals))
      constraint_failed
  guard (exists_where (λ (r : Run). equal r.id a.run_id) db.runs) constraint_failed
  guard (exists_where (λ host. equal host a.host_id) db.hosts) constraint_failed
  ok (
      publish session_id
        (record db { approvals = db.approvals ++ record a { decided_at = none } ∷ [] }))

-- `GetRun`.
unfoldable pub get_run : Text → Db → Result StoreError Run
get_run id db = elim (find_where (λ (r : Run). equal r.id id) db.runs) [
  | none ↦ err not_found
  | some r ↦ ok r
]

-- `GetApproval`: the approval joined with its run, of which the session is read.
unfoldable pub get_approval : Text → Db → Result StoreError (Approval × Text)
unfolding get_run
get_approval id db = elim (find_where (λ (a : Approval). equal a.id id) db.approvals) [
  | none ↦ err not_found
  | some a ↦ get_run a.run_id db >>= λ (r : Run). ok (a, r.session_id)
]

-- The row that one round of the loop of `ActivateAgentApprovals` updates, and what it becomes.
abbrev pub is_resumable : Text → Text → Approval → Bool
is_resumable checkpoint_id id a =
    equal a.id id
    && is_agent a
    && equal a.checkpoint_id checkpoint_id
    && (is_preparing a.status
        || is_pending a.status
        || is_approved a.status
        || is_rejected a.status)

abbrev pub expose : Text → Approval → Approval
expose interrupt_id a = record a {
  status = if is_preparing a.status then pending else a.status;
  interrupt_id = interrupt_id;
}

-- One round of that loop.
unfoldable pub activate_one : Text → Text → Text → List Approval → Result StoreError (List Approval)
activate_one checkpoint_id id interrupt_id approvals = do
  guard (not (count_where (is_resumable checkpoint_id id) approvals == 0)) (no_longer_resumable id)
  ok (update_where (is_resumable checkpoint_id id) (expose interrupt_id) approvals)

unfoldable pub activate_each :
    Text → List (Text × Text) → List Approval → Result StoreError (List Approval)
unfolding activate_one
activate_each checkpoint_id [] approvals = ok approvals
activate_each checkpoint_id ((id, interrupt_id) ∷ interrupts) approvals =
    activate_one checkpoint_id id interrupt_id approvals >>= activate_each checkpoint_id interrupts

-- `ActivateAgentApprovals`; the interrupts come in the order in which the map is walked.
unfoldable pub activate_agent_approvals : Text → List (Text × Text) → Db → Result StoreError Db
unfolding activate_each
activate_agent_approvals checkpoint_id interrupts db = do
  guard (not (is_empty interrupts)) empty_group
  let cleared =
      update_where (λ (a : Approval). is_agent a && equal a.checkpoint_id checkpoint_id)
        (λ (a : Approval). record a { interrupt_id = [] }) db.approvals
  activated ← activate_each checkpoint_id interrupts cleared
  ok (publish [] (record db { approvals = activated }))

-- `UPDATE approvals SET status=?,reason=?,decided_at=?`.
abbrev pub decide : ApprovalStatus → Text → Text → Approval → Approval
decide status reason now a = record a { status = status; reason = reason; decided_at = some now }

-- `UPDATE runs SET status=?,error=?,completed_at=?`.
abbrev pub close_run : RunStatus → Text → Text → Run → Run
close_run status reason now r = record r {
  status = status;
  error = reason;
  completed_at = some now;
}

-- `WHERE id=? AND status='approval_required'`.
abbrev pub awaits : Text → Run → Bool
awaits run_id r = equal r.id run_id && is_awaiting r.status

-- `runs` after `UPDATE runs … WHERE id=? AND status='approval_required'`, which has to hit a row.
unfoldable pub update_awaiting :
    Text → (Run → Run) → StoreError → List Run → Result StoreError (List Run)
update_awaiting run_id change problem runs = do
  guard (not (count_where (awaits run_id) runs == 0)) problem
  ok (update_where (awaits run_id) change runs)

-- The second statement of `DecideAgentApproval`, where the approval is rejected.
unfoldable pub decided_runs :
    ApprovalStatus → Option Approval → Text → Text → List Run → Result StoreError (List Run)
unfolding update_awaiting
decided_runs status target reason now runs =
    if is_rejected status
    then (elim target [
      | none ↦ err not_awaiting
      | some a ↦ update_awaiting a.run_id (close_run run_rejected reason now) not_awaiting runs
    ])
    else ok runs

-- `DecideAgentApproval`.
unfoldable pub decide_agent_approval :
    Text → ApprovalStatus → Text → Text → Db → Result StoreError Db
unfolding decided_runs
decide_agent_approval id status reason now db = do
  guard (is_approved status || is_rejected status) invalid_decision
  let matches = λ (a : Approval).
      equal a.id id
      && is_agent a
      && is_pending a.status
      && not (is_empty a.checkpoint_id)
      && not (is_empty a.interrupt_id)
  guard (not (count_where matches db.approvals == 0)) no_longer_pending
  let approvals = update_where matches (decide status reason now) db.approvals
  let target = find_where (λ (a : Approval). equal a.id id) approvals
  runs ← decided_runs status target reason now db.runs
  ok (publish [] (record db { approvals = approvals; runs = runs }))

-- `ClaimAgentApprovalRun`.
unfoldable pub claim_agent_approval_run : Text → Text → Db → Result StoreError Db
claim_agent_approval_run id run_id db = do
  let matches = λ (r : Run).
      awaits run_id r
      && exists_where
          (λ (a : Approval).
            equal a.id id && equal a.run_id r.id && is_agent a && is_approved a.status)
          db.approvals
  guard (not (count_where matches db.runs == 0)) not_claimable
  ok (record db {
    runs = update_where matches (λ (r : Run). record r { status = running }) db.runs;
  })

-- `WHERE id=? AND run_id=? AND status='pending'`.
abbrev pub is_pending_of : Text → Text → Approval → Bool
is_pending_of id run_id a = equal a.id id && equal a.run_id run_id && is_pending a.status

-- `RejectPendingApprovalAndRun`.
unfoldable pub reject_pending_approval_and_run :
    Text → Text → Text → Text → Db → Result StoreError Db
unfolding update_awaiting
reject_pending_approval_and_run id run_id reason now db = do
  guard (not (count_where (is_pending_of id run_id) db.approvals == 0)) no_longer_pending
  runs ← update_awaiting run_id (close_run run_rejected reason now) not_awaiting db.runs
  let approvals = update_where (is_pending_of id run_id) (decide rejected reason now) db.approvals
  ok (publish [] (record db { approvals = approvals; runs = runs }))

-- `ApprovePendingAndStartRun`.
unfoldable pub approve_pending_and_start_run : Text → Text → Text → Text → Db → Result StoreError Db
unfolding update_awaiting
approve_pending_and_start_run id run_id reason now db = do
  guard (not (count_where (is_pending_of id run_id) db.approvals == 0)) no_longer_pending
  runs ← update_awaiting run_id (λ (r : Run). record r { status = running }) not_awaiting db.runs
  let approvals = update_where (is_pending_of id run_id) (decide approved reason now) db.approvals
  ok (publish [] (record db { approvals = approvals; runs = runs }))

-- `UpdatePendingApprovalExplanation`.
unfoldable pub update_pending_approval_explanation : Text → Text → Text → Db → Result StoreError Db
update_pending_approval_explanation id run_id review_json db = do
  let matches = λ (r : Run).
      awaits run_id r
      && exists_where
          (λ (a : Approval).
            equal a.id id && equal a.run_id r.id && (is_preparing a.status || is_pending a.status))
          db.approvals
  guard (not (count_where matches db.runs == 0)) no_longer_pending
  ok (
      publish [] (record db {
        runs =
            update_where matches (λ (r : Run). record r { ai_review_json = review_json }) db.runs;
      }))

-- `UpdateRunAIReview`.
unfoldable pub update_run_ai_review : Text → Text → Db → Result StoreError Db
update_run_ai_review run_id review_json db = do
  let matches = λ (r : Run). equal r.id run_id
  guard (not (count_where matches db.runs == 0)) not_found
  ok (
      publish [] (record db {
        runs =
            update_where matches (λ (r : Run). record r { ai_review_json = review_json }) db.runs;
      }))

-- `UpdateRun`, which writes the columns of `given` to the row with its id, if there is one.
unfoldable pub update_run : Run → Db → Db
update_run given db = record db {
  runs =
      update_where (λ (r : Run). equal r.id given.id)
        (λ (r : Run). record r {
          status = given.status;
          exit_code = given.exit_code;
          stdout_redacted = given.stdout_redacted;
          stderr_redacted = given.stderr_redacted;
          stdout_cipher = given.stdout_cipher;
          stderr_cipher = given.stderr_cipher;
          error = given.error;
          completed_at = given.completed_at;
        })
        db.runs;
}

-- `InterruptActiveRuns`.
unfoldable pub interrupt_active_runs : Text → Text → Db → Db
interrupt_active_runs reason now db = record db {
  runs =
      update_where (λ (r : Run). is_active r.status)
        (λ (r : Run). record r {
          status = interrupted;
          error = if is_empty r.error then reason else r.error;
          completed_at = elim (r.completed_at) [ none ↦ some now | some t ↦ some t ];
        })
        db.runs;
}
