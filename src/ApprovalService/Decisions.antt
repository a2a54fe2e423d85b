-- ===== src/ApprovalService/Decisions.antt =====
-- The operator's decisions and the resumption of an Agent (internal/service/approvals.go,
-- internal/service/approval_execution.go).
use eino_ops_agent_enterpr1s.Base.{
  Bool, true, false, not, ◌||◌, Option, none, some, List, [], ◌∷◌, Text, codes, equal, is_empty,
  if◌then◌else◌, Result, ok, err, guard, ◌>>=◌, ◌>>◌,
}
use eino_ops_agent_enterpr1s.Approvals.{
  is_agent, ApprovalStatus, rejected, is_pending, is_approved, is_rejected, running, Approval, Run,
  Db, exists_where, not_found,
}
use eino_ops_agent_enterpr1s.Approvals.Store.{
  get_run, get_approval, approve_pending_and_start_run, decide_agent_approval,
  claim_agent_approval_run, reject_pending_approval_and_run,
}
use eino_ops_agent_enterpr1s.Approvals.Sessions.{
  abort_agent_approvals_for_session, list_pending_approvals_for_session,
}
use eino_ops_agent_enterpr1s.ApprovalService.{
  ServiceState, Fault, store_fault, not_loaded, digest_changed, not_an_agent, only_an_agent,
  already, invalid_decision, shutting_down, lift, Answer, stored, executes,
  cancel_approval_explanation,
}
use eino_ops_agent_enterpr1s.ApprovalService.Execution.{
  is_terminal, Failure, finish_approved_execution_error, start_approved_execution,
}

module _ (decrypt : Text → Option Text) (digest : Text → Option Text) where
  -- `loadApprovalExecution`, with the run.
  unfoldable pub load_approval_execution : Approval → Db → Result Fault Run
  unfolding get_run
  load_approval_execution a db = elim (decrypt a.request_cipher) [
    | none ↦ err not_loaded
    | some plain ↦ elim (digest (if is_empty plain then a.request_json else plain)) [
      | none ↦ err not_loaded
      | some found ↦ do
        guard (equal found a.request_digest) digest_changed
        run ← lift (get_run a.run_id db)
        guard (exists_where (λ host. equal host a.host_id) db.hosts) (store_fault not_found)
        ok run
    ]
  ]

  -- What `approveForExecution` reads and tests before it decides.
  unfoldable pub approvable : Text → Db → Result Fault (Approval × Run)
  unfolding load_approval_execution get_approval
  approvable id db = do
    found ← lift (get_approval id db)
    guard (is_pending found.0.status) (already found.0.status)
    guard (not (is_agent found.0)) only_an_agent
    run ← load_approval_execution found.0 db
    ok (found.0, run)

  -- `approveForExecution`, with the run that is to be executed.
  unfoldable pub approve_for_execution :
      Text → Text → Text → ServiceState → Result Fault (ServiceState × Run)
  unfolding approvable approve_pending_and_start_run cancel_approval_explanation
  approve_for_execution id reason now s = do
    (a, run) ← approvable id s.db
    db ← lift (approve_pending_and_start_run a.id run.id reason now s.db)
    ok (
      cancel_approval_explanation a.id a.run_id (record s { db = db }),
      record run { status = running },
    )

  -- `Approve`.
  unfoldable pub approve : Text → Text → Text → ServiceState → ServiceState × Result Fault Answer
  unfolding approve_for_execution
  approve id reason now s = elim (approve_for_execution id reason now s) [
    | err e ↦ (s, err e)
    | ok (next, run) ↦ (next, ok (executes run))
  ]

  -- What `DecideAgentApproval` reads and tests before it decides.
  unfoldable pub decidable : Text → ApprovalStatus → Db → Result Fault Approval
  unfolding load_approval_execution get_approval
  decidable id decision db = do
    found ← lift (get_approval id db)
    guard (is_agent found.0) not_an_agent
    guard (is_pending found.0.status) (already found.0.status)
    guard (is_approved decision || is_rejected decision) invalid_decision
    _ ← load_approval_execution found.0 db
    ok found.0

  -- `DecideAgentApproval`.
  unfoldable pub decide_agent :
      Text → ApprovalStatus → Text → Text → ServiceState → ServiceState × Result Fault Answer
  unfolding decidable decide_agent_approval cancel_approval_explanation get_run
  decide_agent id decision reason now s = elim (decidable id decision s.db) [
    | err e ↦ (s, err e)
    | ok a ↦ elim (decide_agent_approval a.id decision reason now s.db) [
      | err e ↦ (s, err (store_fault e))
      | ok db ↦
          let next = cancel_approval_explanation a.id a.run_id (record s { db = db }) in
          (
            next,
            lift (get_run a.run_id next.db) >>= λ run.
                ok (stored run (if is_rejected decision then reason else [])),
          )
    ]
  ]

  -- `Reject`.
  unfoldable pub reject : Text → Text → Text → ServiceState → ServiceState × Result Fault Answer
  unfolding decide_agent reject_pending_approval_and_run get_approval
  reject id reason now s = elim (get_approval id s.db) [
    | err e ↦ (s, err (store_fault e))
    | ok found ↦
        let (a, session_id) = found in
        let agent = decide_agent a.id rejected reason now s in
        let operator : ServiceState × Result Fault Answer =
          elim (reject_pending_approval_and_run a.id a.run_id reason now s.db) [
            | err e ↦ (s, err (store_fault e))
            | ok db ↦
                let next = cancel_approval_explanation a.id a.run_id (record s { db = db }) in
                (next, lift (get_run a.run_id next.db) >>= λ run. ok (stored run []))
          ] in
        if is_agent a then agent else operator
  ]

  -- The loop of `AbortApprovalsForSession`: an approval that could not be rejected must have been decided. The
  -- Boolean says that every one was.
  unfoldable pub reject_each : List Approval → Text → Text → ServiceState → ServiceState × Bool
  unfolding reject get_approval
  reject_each [] reason now s = (s, true)
  reject_each (a ∷ approvals) reason now s =
      let (next, answer) = reject a.id reason now s in
      let rest = reject_each approvals reason now next in
      elim answer [
        | ok _ ↦ rest
        | err e ↦ elim (get_approval a.id next.db) [
          | err f ↦ (next, false)
          | ok found ↦ if is_pending found.0.status then (next, false) else rest
        ]
      ]

  unfoldable pub cancel_explanations : List Approval → ServiceState → ServiceState
  unfolding cancel_approval_explanation
  cancel_explanations [] s = s
  cancel_explanations (a ∷ approvals) s =
      cancel_explanations approvals (cancel_approval_explanation a.id a.run_id s)

  -- `AbortApprovalsForSession`, without the number of rejections.
  unfoldable pub abort_approvals_for_session :
      Text → Text → Text → ServiceState → ServiceState × Bool
  unfolding reject_each cancel_explanations abort_agent_approvals_for_session
      list_pending_approvals_for_session
  abort_approvals_for_session session_id reason now s =
      elim (abort_agent_approvals_for_session session_id reason now s.db) [
        | err e ↦ (s, false)
        | ok aborted ↦
            let next = cancel_explanations aborted.1 (record s { db = aborted.0 }) in
            reject_each (list_pending_approvals_for_session session_id next.db) reason now next
      ]

  module _ (refusal : Approval → Run → Option Failure) (redact : Text → Text)
      (encrypt : Text → Result Text Text) where
    -- The two errors of `startApprovedExecution`.
    abbrev pub failure_of : Fault → Failure
    failure_of shutting_down = record {
      message = codes "service is shutting down";
      is_context = false;
    }
    failure_of _ = record { message = codes "context canceled"; is_context = true }

    -- `ApproveAsync`.
    unfoldable pub approve_async :
        Text → Text → Text → ServiceState → ServiceState × Result Fault Answer
    unfolding approve_for_execution start_approved_execution finish_approved_execution_error
    approve_async id reason now s = elim (approve_for_execution id reason now s) [
      | err e ↦ (s, err e)
      | ok decided ↦
          let (next, run) = decided in
          let started = start_approved_execution run.id next in
          elim started.1 [
            | none ↦ (started.0, ok (executes run))
            | some fault ↦
                finish_approved_execution_error redact encrypt run.id (failure_of fault) now
                  started.0
          ]
    ]

    -- What `ResumeAgentApproval` does with an approved approval of an Agent.
    unfoldable pub resume_approved :
        Approval → Text → ServiceState → ServiceState × Result Fault Answer
    unfolding load_approval_execution claim_agent_approval_run finish_approved_execution_error
    resume_approved a now s = elim (load_approval_execution a s.db) [
      | err e ↦ (s, err e)
      | ok run ↦
          let claimed : ServiceState × Result Fault Answer =
            elim (claim_agent_approval_run a.id run.id s.db) [
              | err e ↦ (s, err (store_fault e))
              | ok db ↦ (record s { db = db }, ok (executes (record run { status = running })))
            ] in
          let attempted : ServiceState × Result Fault Answer = elim (refusal a run) [
            | some cause ↦ finish_approved_execution_error redact encrypt run.id cause now s
            | none ↦ claimed
          ] in
          if is_terminal run.status then (s, ok (stored run [])) else attempted
    ]

    -- `ResumeAgentApproval`.
    unfoldable pub resume : Text → Text → ServiceState → ServiceState × Result Fault Answer
    unfolding resume_approved get_approval get_run
    resume id now s = elim (get_approval id s.db) [
      | err e ↦ (s, err (store_fault e))
      | ok found ↦
          let a = found.0 in
          let decided = resume_approved a now s in
          if not (is_agent a)
          then (s, err not_an_agent)
          else if is_rejected a.status
          then (s, lift (get_run a.run_id s.db) >>= λ run. ok (stored run a.reason))
          else if not (is_approved a.status)
          then (s, err (already a.status))
          else decided
    ]
