-- ===== src/ApprovalService.antt =====
-- The decisions on approvals in the service (internal/service/approvals.go, internal/service/approval_execution.go)
-- and the end of an execution (internal/service/execution_completion.go), over the tables of Approvals. A call
-- is one step here, but for the execution of a run, which a call starts and another call finishes. The parameters
-- are the cipher of internal/security, the decoding of a request with `canonicalRequest`, and the check of
-- root and host access, which may refuse with an error. Audit records, events and logs are left out; an output is the text of its bytes.
pub mod Execution
pub mod Decisions
pub mod Explained
pub mod Steps
pub mod Submission
pub mod Once
pub mod Completion
pub mod Examples
use eino_ops_agent_enterpr1s.Base.{
  Bool, true, false, Option, none, some, List, [], ◌∷◌, Text, equal, is_empty, if◌then◌else◌,
  Result, ok, err,
}
use eino_ops_agent_enterpr1s.Approvals.{ApprovalStatus, Approval, Run, RunStatus, Db, StoreError}
use eino_ops_agent_enterpr1s.Approvals.Store.{update_run_ai_review}

-- The state that these functions share: the tables, whether executions are closed, the runs with an entry in
-- `executionCancels` and in `cancelledExecutions`, and the approvals with one in `explanationActive`.
pub record ServiceState : Type 0 where
  pub db : Db
  pub execution_closed : Bool
  pub execution_cancels : List Text
  pub cancelled_executions : List Text
  pub explanation_active : List Text

pub data Fault : Type 0 where
  store_fault : StoreError → Fault
  not_loaded digest_changed : Fault
  not_an_agent only_an_agent : Fault
  already : ApprovalStatus → Fault
  invalid_decision shutting_down context_canceled access_denied : Fault

-- An error of the store is passed on.
abbrev pub lift : {A : Type 0} → Result StoreError A → Result Fault A
lift (ok a) = ok a
lift (err e) = err (store_fault e)

-- What a call answers: the result of a run, with the operator's instruction; the result of a run together with
-- an error; or a run that is executed now.
pub data Answer : Type 0 where
  stored : Run → Text → Answer
  with_error : Run → Answer
  executes : Run → Answer

abbrev pub member : Text → List Text → Bool
member key [] = false
member key (k ∷ keys) = if equal k key then true else member key keys

-- `delete(m, key)`.
abbrev pub delete : Text → List Text → List Text
delete key [] = []
delete key (k ∷ keys) = let rest = delete key keys in if equal k key then rest else k ∷ rest

-- `cancelApprovalExplanation`; the error of the store is dropped.
unfoldable pub cancel_approval_explanation : Text → Text → ServiceState → ServiceState
unfolding update_run_ai_review
cancel_approval_explanation approval_id run_id s =
    if member approval_id s.explanation_active
    then (let next = record s { explanation_active = delete approval_id s.explanation_active } in
        if is_empty run_id then next else elim (update_run_ai_review run_id [] s.db) [
          | err e ↦ next
          | ok db ↦ record next { db = db }
        ])
    else s
