-- ===== src/ApprovalService/Once.antt =====
-- The service executes a run at most once (internal/service/approvals.go,
-- internal/service/approval_execution.go, internal/service/execution.go).
use mathlib.Core.Path.{subst}
use eino_ops_agent_enterpr1s.Base.{
  ℕ, ◌+◌, ◌≤◌, Bool, false, Option, List, [], ◌∷◌, All, Text, is_empty, Result, ok, err, ◌≡◌, ◌≢◌,
  ◌⊎◌, inl, inr, refl, sym, ◌∙◌, arith, Bool-cases, Result-cases,
}
use eino_ops_agent_enterpr1s.Approvals.{Db, Approval, Run, is_agent, ApprovalStatus, StoreError}
use eino_ops_agent_enterpr1s.Approvals.Calls.{Op, perform, outcome_of}
use eino_ops_agent_enterpr1s.Approvals.Settled.{IsOutcome, NotCreating, Settled, perform-Settled}
use eino_ops_agent_enterpr1s.Approvals.Once.{rejected-Settled}
use eino_ops_agent_enterpr1s.Approvals.Store.{get_approval, reject_pending_approval_and_run}
use eino_ops_agent_enterpr1s.ApprovalService.{ServiceState, Fault, store_fault, Answer, member}
use eino_ops_agent_enterpr1s.ApprovalService.Execution.{
  RawResult, Failure, finish_execution, end_approved_execution, cancel_approved_execution,
}
use eino_ops_agent_enterpr1s.ApprovalService.Decisions.{
  approve, decide_agent, reject, abort_approvals_for_session, approve_async, resume,
}
use eino_ops_agent_enterpr1s.ApprovalService.Explained.{
  Explained, executed, none_started, Explained-refl, Explained-Settled, Explained-once,
  cancel_approval_explanation-Explained,
}
use eino_ops_agent_enterpr1s.ApprovalService.Submission.{Route, submit, submit-Settled, submit-once}
use eino_ops_agent_enterpr1s.ApprovalService.Steps.{
  approve-Explained, decide_agent-Explained, reject-Explained, abort-Explained,
  finish_execution-Explained, approve_async-Explained, resume-Explained,
}

-- A call of the service, the end of an execution, or any other call of the store that writes or deletes runs or
-- approvals.
pub data Call : Type 0 where
  approving approving_later : Text → Text → Text → Call
  deciding : Text → ApprovalStatus → Text → Text → Call
  resuming : Text → Text → Call
  rejecting stopping : Text → Text → Text → Call
  finishing : RawResult → Option Failure → Bool → Text → Run → Call
  ending cancelling : Text → Call
  submitting : Route → Run → Text → Call
  storing : Op → Call

-- `UpdateRun` writes outcomes only.
abbrev pub IsFine : Call → Type 0
IsFine (storing op) = IsOutcome op
IsFine _ = Unit

-- The call does not create a run with this id.
abbrev pub Leaves : Text → Call → Type 0
Leaves id (submitting route run now) = run.id ≢ id
Leaves id (storing op) = NotCreating id op
Leaves id _ = Unit

module _ (decrypt : Text → Option Text) (digest : Text → Option Text)
    (refusal : Approval → Run → Option Failure) (redact : Text → Text)
    (encrypt : Text → Result Text Text) where
  abbrev answered : ServiceState × Result Fault Answer → ServiceState × (Text → ℕ)
  answered after = (after.0, λ id. executed id after.1)

  -- The service after a call, and how often the call executes a run.
  unfoldable pub call_service : Call → ServiceState → ServiceState × (Text → ℕ)
  unfolding approve decide_agent reject abort_approvals_for_session approve_async resume
      finish_execution end_approved_execution cancel_approved_execution submit perform
  call_service (approving id reason now) s = answered (approve decrypt digest id reason now s)
  call_service (approving_later id reason now) s =
      answered (approve_async decrypt digest refusal redact encrypt id reason now s)
  call_service (deciding id decision reason now) s =
      ((decide_agent decrypt digest id decision reason now s).0, none_started)
  call_service (resuming id now) s =
      answered (resume decrypt digest refusal redact encrypt id now s)
  call_service (rejecting id reason now) s =
      ((reject decrypt digest id reason now s).0, none_started)
  call_service (stopping session_id reason now) s =
      ((abort_approvals_for_session decrypt digest session_id reason now s).0, none_started)
  call_service (finishing raw failure over now run) s =
      (finish_execution redact encrypt raw failure over now run s, none_started)
  call_service (ending run_id) s = (end_approved_execution run_id s, none_started)
  call_service (cancelling run_id) s = ((cancel_approved_execution run_id s).0, none_started)
  call_service (submitting route run now) s = answered (submit route run now s)
  call_service (storing op) s =
      (record s { db = (outcome_of s.db false (perform op s.db)).0 }, none_started)

  abbrev pub executions : List Call → ServiceState → Text → ℕ
  executions [] s id = 0
  executions (call ∷ calls) s id =
      (call_service call s).1 id + executions calls (call_service call s).0 id

  abbrev pub call_all : List Call → ServiceState → ServiceState
  call_all [] s = s
  call_all (call ∷ calls) s = call_all calls (call_service call s).0

  cancel-db : (run_id : Text) (s : ServiceState) → (cancel_approved_execution run_id s).0.db ≡ s.db
  unfolding cancel_approved_execution
  cancel-db run_id s = elim (Bool-cases (is_empty run_id)) [
    | inl nothing ↦ rw nothing
    | inr a_run ↦ elim (Bool-cases (member run_id s.execution_cancels)) [
      | inl active ↦ rw (a_run, active)
      | inr waiting ↦ rw (a_run, waiting)
    ]
  ]

  -- After a call that executes the run, no call creates a run with its id.
  abbrev pub KeepsId : Text → List Call → ServiceState → Type 0
  KeepsId id [] s = Unit
  KeepsId id (call ∷ calls) s =
      (((call_service call s).1 id ≡ 0) ⊎ All (Leaves id) calls)
      × KeepsId id calls (call_service call s).0

  -- A call that does not create the run leaves it settled and unexecuted if it is settled, and a call that
  -- executes it does so once and leaves it settled.
  abbrev Effect : Text → Call → ServiceState → Type 0
  Effect id call s =
      (Leaves id call
        → Settled id s.db.runs
        → ((call_service call s).1 id ≡ 0) × Settled id (call_service call s).0.db.runs)
      × (((call_service call s).1 id ≡ 0)
          ⊎ (((call_service call s).1 id ≤ 1) × Settled id (call_service call s).0.db.runs))

  Explained-Effect :
      (id : Text) (call : Call) (s : ServiceState)
      → Explained (call_service call s).1 s.db (call_service call s).0.db
      → Effect id call s
  Explained-Effect id call s explained =
      (λ leaves. Explained-Settled _ s.db _ id explained, Explained-once _ s.db _ id explained)

  storing-Settled :
      (id : Text) (op : Op) (db : Db) (result : Result StoreError Db)
      → perform op db ≡ result
      → IsOutcome op
      → NotCreating id op
      → Settled id db.runs
      → Settled id (outcome_of db false result).0.runs
  storing-Settled id op db (err e) failed outcome other settled = settled
  storing-Settled id op db (ok after) done outcome other settled =
      perform-Settled id op db outcome other done settled

  call_service-Effect :
      (id : Text) (call : Call) (s : ServiceState) → IsFine call → Effect id call s
  unfolding call_service
  call_service-Effect id (approving key reason now) s fine =
      Explained-Effect id (approving key reason now) s
        (approve-Explained decrypt digest key reason now s)
  call_service-Effect id (approving_later key reason now) s fine =
      Explained-Effect id (approving_later key reason now) s
        (approve_async-Explained decrypt digest refusal redact encrypt key reason now s)
  call_service-Effect id (deciding key decision reason now) s fine =
      Explained-Effect id (deciding key decision reason now) s
        (decide_agent-Explained decrypt digest key decision reason now s)
  call_service-Effect id (resuming key now) s fine =
      Explained-Effect id (resuming key now) s
        (resume-Explained decrypt digest refusal redact encrypt key now s)
  call_service-Effect id (rejecting key reason now) s fine =
      Explained-Effect id (rejecting key reason now) s
        (reject-Explained decrypt digest key reason now s)
  call_service-Effect id (stopping session_id reason now) s fine =
      Explained-Effect id (stopping session_id reason now) s
        (abort-Explained decrypt digest session_id reason now s)
  call_service-Effect id (finishing raw failure over now run) s fine =
      Explained-Effect id (finishing raw failure over now run) s (
        finish_execution-Explained decrypt digest refusal redact encrypt raw failure over now run s)
  call_service-Effect id (ending run_id) s fine =
      Explained-Effect id (ending run_id) s (Explained-refl s.db)
  call_service-Effect id (cancelling run_id) s fine =
      Explained-Effect id (cancelling run_id) s
        (subst (Explained none_started s.db) (sym (cancel-db run_id s)) (Explained-refl s.db))
  call_service-Effect id (submitting route run now) s fine =
      (submit-Settled id route run now s, submit-once id route run now s)
  call_service-Effect id (storing op) s fine =
      (λ leaves settled. (refl, storing-Settled id op s.db _ refl fine leaves settled), inl refl)

  -- A settled run is not executed by calls that do not create it.
  executions-Settled :
      (calls : List Call) (s : ServiceState) (id : Text)
      → All IsFine calls
      → All (Leaves id) calls
      → Settled id s.db.runs
      → executions calls s id ≡ 0
  executions-Settled [] s id fine leaves settled = refl
  executions-Settled (call ∷ calls) s id (fine, fines) (leaves, others) settled =
      let (none, still) = (call_service-Effect id call s fine).0 leaves settled in
      omega (arith, none, executions-Settled calls (call_service call s).0 id fines others still)

  -- Whatever the state is, and whatever calls of the service, `Submit` included, ends of executions and other
  -- calls of the store that write or delete runs or approvals follow each other: if those of `UpdateRun` write
  -- outcomes only, and no call creates a run with the id after a call that executed it, the service executes the
  -- run with the id at most once.
  pub executions_at_most_once :
      (calls : List Call) (s : ServiceState) (id : Text)
      → All IsFine calls
      → KeepsId id calls s
      → executions calls s id ≤ 1
  executions_at_most_once [] s id fine keeps = omega arith
  executions_at_most_once (call ∷ calls) s id (fine, fines) (keep, keeps) =
      let next = (call_service call s).0 in
      let later = executions_at_most_once calls next id fines keeps in
      elim keep [
        | inl none ↦ omega (arith, none, later)
        | inr leaves ↦ elim (call_service-Effect id call s fine).1 [
          | inl none ↦ omega (arith, none, later)
          | inr (once, settled) ↦
              omega (arith, once, executions-Settled calls next id fines leaves settled)
        ]
      ]

  reject-done :
      (id reason now : Text) (s : ServiceState) (found : Approval × Text) (answer : Answer)
      → get_approval id s.db ≡ ok found
      → is_agent found.0 ≡ false
      → (reject decrypt digest id reason now s).1 ≡ ok answer
      → (db : Db) × (reject_pending_approval_and_run found.0.id found.0.run_id reason now s.db
          ≡ ok db)
        × Explained none_started db (reject decrypt digest id reason now s).0.db
  unfolding reject
  reject-done id reason now s found answer read operator succeeds =
      elim (Result-cases
        (reject_pending_approval_and_run found.0.id found.0.run_id reason now s.db)) [
          | inr (e, failed) ↦
              absurd (no_answer e (sym (rw (reject, read, operator, failed) refl) ∙ succeeds))
          | inl (db, done) ↦ (
            db,
            done,
            rw (reject, read, operator, done)
                (cancel_approval_explanation-Explained found.0.id found.0.run_id
                  (record s { db = db })),
          )
        ]
    where
      no_answer :
          (e : StoreError) → ◌≡◌ {A = Result Fault Answer} (err (store_fault e)) (ok answer) → ⊥
      no_answer e h = cc

  -- After the rejection of an approval that is not an Agent's has succeeded, no calls of the service, `Submit`
  -- included, ends of executions or other calls of the store that write or delete runs or approvals execute its
  -- run, if those of `UpdateRun` write outcomes only and none creates a run with its id again.
  pub reject-final :
      (id reason now : Text) (s : ServiceState) (found : Approval × Text) (answer : Answer)
      (calls : List Call)
      → get_approval id s.db ≡ ok found
      → is_agent found.0 ≡ false
      → (reject decrypt digest id reason now s).1 ≡ ok answer
      → All IsFine calls
      → All (Leaves found.0.run_id) calls
      → executions calls (reject decrypt digest id reason now s).0 found.0.run_id ≡ 0
  reject-final id reason now s found answer calls read operator succeeds fine leaves =
      let (db, done, first) = reject-done id reason now s found answer read operator succeeds in
      let next = (reject decrypt digest id reason now s).0 in
      let (_, settled) =
        Explained-Settled none_started db next.db found.0.run_id first
          (rejected-Settled found.0.id found.0.run_id reason now s.db done) in
      executions-Settled calls next found.0.run_id fine leaves settled
