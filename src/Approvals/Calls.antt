-- ===== src/Approvals/Calls.antt =====
-- Sequences of calls of the operations of internal/store on runs and approvals.
use eino_ops_agent_enterpr1s.Base.{
  ℕ, suc, Bool, false, List, [], ◌∷◌, Option, Text, equal, if◌then◌else◌, ◌≡◌, ap, Result, ok, err,
  ◌>>=◌,
}
use eino_ops_agent_enterpr1s.Approvals.{ApprovalStatus, Approval, Run, Db, StoreError}
use eino_ops_agent_enterpr1s.Approvals.Store.{
  create_run, create_approval, activate_agent_approvals, decide_agent_approval,
  claim_agent_approval_run, reject_pending_approval_and_run, approve_pending_and_start_run,
  update_pending_approval_explanation, update_run_ai_review, update_run, interrupt_active_runs,
}
use eino_ops_agent_enterpr1s.Approvals.Sessions.{
  abort_unactivated_agent_approvals, abort_agent_approvals_for_session,
}
use eino_ops_agent_enterpr1s.Approvals.Deletions.{
  delete_audit_runs, delete_host, delete_chat_session,
}

-- A call of the store that can write or delete a run or an approval.
pub data Op : Type 0 where
  creating_run : Run → Op
  creating_approval : Approval → Text → Op
  activating : Text → List (Text × Text) → Op
  deciding : Text → ApprovalStatus → Text → Text → Op
  claiming : Text → Text → Op
  rejecting approving : Text → Text → Text → Text → Op
  explaining : Text → Text → Text → Op
  reviewing : Text → Text → Op
  writing : Run → Op
  interrupting recovering : Text → Text → Op
  stopping : Text → Text → Text → Op
  deleting_audit : (Text → Bool) → Option Text → Op
  deleting_host : Text → Op
  deleting_session : Text → Bool → Op

unfoldable pub perform : Op → Db → Result StoreError Db
unfolding create_run create_approval activate_agent_approvals decide_agent_approval
    claim_agent_approval_run reject_pending_approval_and_run approve_pending_and_start_run
    update_pending_approval_explanation update_run_ai_review update_run interrupt_active_runs
    abort_unactivated_agent_approvals abort_agent_approvals_for_session delete_audit_runs
    delete_host delete_chat_session
perform (creating_run r) db = create_run r db
perform (creating_approval a session_id) db = create_approval a session_id db
perform (activating checkpoint_id interrupts) db =
    activate_agent_approvals checkpoint_id interrupts db
perform (deciding id status reason now) db = decide_agent_approval id status reason now db
perform (claiming id run_id) db = claim_agent_approval_run id run_id db
perform (rejecting id run_id reason now) db =
    reject_pending_approval_and_run id run_id reason now db
perform (approving id run_id reason now) db = approve_pending_and_start_run id run_id reason now db
perform (explaining id run_id review) db = update_pending_approval_explanation id run_id review db
perform (reviewing run_id review) db = update_run_ai_review run_id review db
perform (writing r) db = ok (update_run r db)
perform (interrupting reason now) db = ok (interrupt_active_runs reason now db)
perform (recovering reason now) db = ok (abort_unactivated_agent_approvals reason now db)
perform (stopping session_id reason now) db =
    abort_agent_approvals_for_session session_id reason now db >>= λ (after, rows). ok after
perform (deleting_audit busy session_id) db = ok (delete_audit_runs busy session_id db)
perform (deleting_host id) db = delete_host id db
perform (deleting_session session_id known) db = delete_chat_session session_id known db

-- Whether the call starts the run.
unfoldable pub starts : Text → Op → Bool
starts run_id (claiming id given) = equal given run_id
starts run_id (approving id given reason now) = equal given run_id
starts run_id _ = false

-- The tables after a call, and whether it started a run; one that fails leaves the tables it had.
abbrev pub outcome_of : Db → Bool → Result StoreError Db → Db × Bool
outcome_of before start (ok after) = (after, start)
outcome_of before start (err e) = (before, false)

unfoldable pub performed : Text → Op → Db → Db × Bool
unfolding perform starts
performed run_id op db = outcome_of db (starts run_id op) (perform op db)

pub performed-ok :
    (run_id : Text) (op : Op) (db : Db) {after : Db}
    → perform op db ≡ ok after
    → performed run_id op db ≡ (after, starts run_id op)
unfolding performed
performed-ok run_id op db h = ap (outcome_of db (starts run_id op)) h

pub performed-err :
    (run_id : Text) (op : Op) (db : Db) {e : StoreError}
    → perform op db ≡ err e
    → performed run_id op db ≡ (db, false)
unfolding performed
performed-err run_id op db h = ap (outcome_of db (starts run_id op)) h

-- How often the run is started in a sequence of calls.
unfoldable pub count_starts : Text → List Op → Db → ℕ
unfolding performed
count_starts run_id [] db = 0
count_starts run_id (op ∷ ops) db =
    let (after, started) = performed run_id op db in
    let rest = count_starts run_id ops after in if started then suc rest else rest
