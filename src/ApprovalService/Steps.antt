-- ===== src/ApprovalService/Steps.antt =====
-- What each call of the service does, as calls of the store (internal/service/approvals.go,
-- internal/service/approval_execution.go).
use mathlib.Core.Path.{subst}
use eino_ops_agent_enterpr1s.Base.{
  ℕ, Bool, false, Option, none, some, List, [], ◌∷◌, Text, equal, is_empty, trim_space,
  if◌then◌else◌, Result, ok, err, ◌>>=◌, >>=-eq-ok, ok-injective, ◌≡◌, inl, inr, refl, sym, ap,
  arith, Bool-cases, Option-cases, Result-cases,
}
use eino_ops_agent_enterpr1s.Approvals.{
  negsuc, Db, Approval, Run, is_awaiting, is_agent, is_pending, is_approved, is_rejected, rejected,
  ApprovalStatus, StoreError,
}
use eino_ops_agent_enterpr1s.Approvals.Calls.{
  Op, writing, approving, rejecting, deciding, claiming, stopping, perform, starts,
}
use eino_ops_agent_enterpr1s.Approvals.Store.{
  get_run, get_approval, approve_pending_and_start_run, decide_agent_approval,
  claim_agent_approval_run, update_run, reject_pending_approval_and_run,
}
use eino_ops_agent_enterpr1s.Approvals.Sessions.{
  abort_agent_approvals_for_session, list_pending_approvals_for_session,
}
use eino_ops_agent_enterpr1s.ApprovalService.{
  ServiceState, lift, member, cancel_approval_explanation,
}
use eino_ops_agent_enterpr1s.ApprovalService.Execution.{
  RawResult, Failure, is_terminal, is_zero, status_of, finished_run, finish_execution,
  finish_approved_execution_error, start_approved_execution,
}
use eino_ops_agent_enterpr1s.ApprovalService.Decisions.{
  load_approval_execution, approvable, approve_for_execution, approve, decidable, decide_agent,
  reject, reject_each, cancel_explanations, abort_approvals_for_session, failure_of, approve_async,
  resume_approved, resume,
}
use eino_ops_agent_enterpr1s.ApprovalService.Explained.{
  IsDecision, Explained, executed, none_started, Explained-refl, Explained-trans, Explained-le,
  Explained-op, cancel_approval_explanation-Explained,
}

lift-ok : {A : Type 0} (r : Result StoreError A) {a : A} → lift r ≡ ok a → r ≡ ok a
lift-ok (ok a) h = ap ok (ok-injective h)
lift-ok (err e) h = cc

one_if : Bool → ℕ
one_if b = if b then 1 else 0

-- A call of the store, and the end of the explanation that follows it.
after_op-Explained :
    (op : Op) (approval_id run_id : Text) (s : ServiceState) (db : Db)
    → IsDecision op
    → perform op s.db ≡ ok db
    → Explained
        (λ id. if starts id op then 1 else 0)
        s.db
        (cancel_approval_explanation approval_id run_id (record s { db = db })).db
after_op-Explained op approval_id run_id s db fine h =
    let after = cancel_approval_explanation approval_id run_id (record s { db = db }) in
    Explained-le _ _ s.db after.db (λ id. omega arith)
      (Explained-trans (λ id. if starts id op then 1 else 0) none_started s.db db after.db
        (Explained-op op s.db db fine h)
        (cancel_approval_explanation-Explained approval_id run_id (record s { db = db })))

nothing_executed :
    (f : Text → ℕ) (before after : Db)
    → Explained f before after
    → Explained none_started before after
nothing_executed f before after = Explained-le none_started f before after (λ id. omega arith)

module _ (decrypt : Text → Option Text) (digest : Text → Option Text) where
  approve_for_execution-Explained :
      (id reason now : Text) (s : ServiceState) {next : ServiceState} {run : Run}
      → approve_for_execution decrypt digest id reason now s ≡ ok (next, run)
      → Explained (λ k. if equal run.id k then 1 else 0) s.db next.db
  unfolding approve_for_execution perform starts
  approve_for_execution-Explained id reason now s {next} {run} h =
      let (found, read, h₁) = >>=-eq-ok (approvable decrypt digest id s.db) _ h in
      let (db, done, h₂) =
        >>=-eq-ok (lift (approve_pending_and_start_run found.0.id found.1.id reason now s.db)) _
          h₁ in
      let same = ok-injective h₂ in
      subst
        (λ (r : ServiceState × Run). Explained (λ k. if equal r.1.id k then 1 else 0) s.db r.0.db)
        same
        (after_op-Explained (approving found.0.id found.1.id reason now) found.0.id found.0.run_id s
          db tt (lift-ok _ done))

  pub approve-Explained :
      (id reason now : Text) (s : ServiceState)
      → let after = approve decrypt digest id reason now s in
        Explained (λ k. executed k after.1) s.db after.0.db
  unfolding approve
  approve-Explained id reason now s =
      elim (Result-cases (approve_for_execution decrypt digest id reason now s)) [
        | inr (e, failed) ↦ rw (approve, failed) (Explained-refl s.db)
        | inl (decided, done) ↦
            rw (approve, done) (approve_for_execution-Explained id reason now s done)
      ]

  pub decide_agent-Explained :
      (id : Text) (decision : ApprovalStatus) (reason now : Text) (s : ServiceState)
      → Explained none_started s.db (decide_agent decrypt digest id decision reason now s).0.db
  unfolding decide_agent perform
  decide_agent-Explained id decision reason now s =
      elim (Result-cases (decidable decrypt digest id decision s.db)) [
        | inr (e, failed) ↦ rw (decide_agent, failed) (Explained-refl s.db)
        | inl (a, fine) ↦
            elim (Result-cases (decide_agent_approval a.id decision reason now s.db)) [
              | inr (e, failed) ↦ rw (decide_agent, fine, failed) (Explained-refl s.db)
              | inl (db, done) ↦
                  rw (decide_agent, fine, done)
                    (nothing_executed _ s.db _ (
                      after_op-Explained (deciding a.id decision reason now) a.id a.run_id s db tt
                        done))
            ]
      ]

  pub reject-Explained :
      (id reason now : Text) (s : ServiceState)
      → Explained none_started s.db (reject decrypt digest id reason now s).0.db
  unfolding reject perform
  reject-Explained id reason now s = elim (Result-cases (get_approval id s.db)) [
    | inr (e, failed) ↦ rw (reject, failed) (Explained-refl s.db)
    | inl (found, read) ↦ elim (Bool-cases (is_agent found.0)) [
      | inl agent ↦
          rw (reject, read, agent) (decide_agent-Explained found.0.id rejected reason now s)
      | inr operator ↦
          elim (Result-cases
            (reject_pending_approval_and_run found.0.id found.0.run_id reason now s.db)) [
              | inr (e, failed) ↦ rw (reject, read, operator, failed) (Explained-refl s.db)
              | inl (db, done) ↦
                  rw (reject, read, operator, done)
                    (nothing_executed _ s.db _ (
                      after_op-Explained (rejecting found.0.id found.0.run_id reason now) found.0.id
                        found.0.run_id s db tt done))
            ]
    ]
  ]

  none_then :
      (a b c : Db)
      → Explained none_started a b
      → Explained none_started b c
      → Explained none_started a c
  none_then a b c h k =
      Explained-le none_started _ a c (λ id. omega arith)
        (Explained-trans none_started none_started a b c h k)

  reject_each-Explained :
      (approvals : List Approval) (reason now : Text) (s : ServiceState)
      → Explained none_started s.db (reject_each decrypt digest approvals reason now s).0.db
  unfolding reject_each
  reject_each-Explained [] reason now s = Explained-refl s.db
  reject_each-Explained (a ∷ approvals) reason now s =
      let next = (reject decrypt digest a.id reason now s).0 in
      let first = reject-Explained a.id reason now s in
      let later =
        none_then s.db next.db _ first (reject_each-Explained approvals reason now next) in
      elim (Result-cases (reject decrypt digest a.id reason now s).1) [
        | inl (answer, done) ↦ rw (reject_each, done) later
        | inr (e, failed) ↦ elim (Result-cases (get_approval a.id next.db)) [
          | inr (f, gone) ↦ rw (reject_each, failed, gone) first
          | inl (found, read) ↦ elim (Bool-cases (is_pending found.0.status)) [
            | inl still ↦ rw (reject_each, failed, read, still) first
            | inr decided ↦ rw (reject_each, failed, read, decided) later
          ]
        ]
      ]

  cancel_explanations-Explained :
      (approvals : List Approval) (s : ServiceState)
      → Explained none_started s.db (cancel_explanations decrypt digest approvals s).db
  unfolding cancel_explanations
  cancel_explanations-Explained [] s = Explained-refl s.db
  cancel_explanations-Explained (a ∷ approvals) s =
      none_then s.db (cancel_approval_explanation a.id a.run_id s).db _
        (cancel_approval_explanation-Explained a.id a.run_id s)
        (cancel_explanations-Explained approvals (cancel_approval_explanation a.id a.run_id s))

  pub abort-Explained :
      (session_id reason now : Text) (s : ServiceState)
      → Explained none_started s.db
          (abort_approvals_for_session decrypt digest session_id reason now s).0.db
  unfolding abort_approvals_for_session perform
  abort-Explained session_id reason now s =
      elim (Result-cases (abort_agent_approvals_for_session session_id reason now s.db)) [
        | inr (e, failed) ↦ rw (abort_approvals_for_session, failed) (Explained-refl s.db)
        | inl (aborted, done) ↦
            let op = stopping session_id reason now in
            let first = record s { db = aborted.0 } in
            let next = cancel_explanations decrypt digest aborted.1 first in
            rw (abort_approvals_for_session, done)
              (none_then s.db next.db _
                (none_then s.db aborted.0 next.db
                  (nothing_executed _ s.db aborted.0 (
                    Explained-op op s.db aborted.0 tt
                      (ap (λ r. r >>= λ (found : Db × List Approval). ok found.0) done)))
                  (cancel_explanations-Explained aborted.1 first))
                (reject_each-Explained (list_pending_approvals_for_session session_id next.db)
                  reason now next))
      ]

  module _ (refusal : Approval → Run → Option Failure) (redact : Text → Text)
      (encrypt : Text → Result Text Text) where
    quiet_status :
        (raw : RawResult) (failure : Option Failure)
        → is_awaiting (status_of redact encrypt raw failure) ≡ false
    quiet_status raw (some f) = elim (Bool-cases f.is_context) [
      | inl over ↦ rw over
      | inr other ↦ rw other
    ]
    quiet_status raw none = elim (Bool-cases (is_zero raw.exit_code)) [
      | inl zero_code ↦ rw zero_code
      | inr code ↦ elim (Bool-cases (is_empty (trim_space raw.stdout))) [
        | inl nothing ↦ rw (code, nothing)
        | inr output ↦ rw (code, output)
      ]
    ]

    pub finish_execution-Explained :
        (raw : RawResult) (failure : Option Failure) (over : Bool) (now : Text) (run : Run)
        (s : ServiceState)
        → Explained none_started s.db
            (finish_execution redact encrypt raw failure over now run s).db
    unfolding finish_execution perform finished_run
    finish_execution-Explained raw failure over now run s =
        let given = finished_run redact encrypt raw failure over now run in
        nothing_executed _ s.db (update_run given s.db)
          (Explained-op (writing given) s.db (update_run given s.db) (quiet_status raw _) refl)

    finish_error-Explained :
        (run_id : Text) (cause : Failure) (now : Text) (s : ServiceState)
        → let after = finish_approved_execution_error redact encrypt run_id cause now s in
          Explained (λ k. executed k after.1) s.db after.0.db
    unfolding finish_approved_execution_error
    finish_error-Explained run_id cause now s = elim (Result-cases (get_run run_id s.db)) [
      | inr (e, failed) ↦ rw (finish_approved_execution_error, failed) (Explained-refl s.db)
      | inl (run, read) ↦ elim (Bool-cases (is_terminal run.status)) [
        | inl over ↦ rw (finish_approved_execution_error, read, over) (Explained-refl s.db)
        | inr live ↦
            rw (finish_approved_execution_error, read, live)
              (finish_execution-Explained
                (record { exit_code = negsuc 0; stdout = []; stderr = [] }) (some cause)
                cause.is_context now run s)
      ]
    ]

    start-db : (run_id : Text) (s : ServiceState) → (start_approved_execution run_id s).0.db ≡ s.db
    unfolding start_approved_execution
    start-db run_id s = elim (Bool-cases s.execution_closed) [
      | inl closed ↦ rw closed
      | inr opened ↦ elim (Bool-cases (member run_id s.cancelled_executions)) [
        | inl stopped ↦ rw (opened, stopped)
        | inr fine ↦ rw (opened, fine)
      ]
    ]

    stopped-Explained :
        (f : Text → ℕ) (before : Db) (run : Run) (cause : Failure) (now : Text) (s : ServiceState)
        → Explained f before s.db
        → let after = finish_approved_execution_error redact encrypt run.id cause now s in
          Explained (λ k. executed k after.1) before after.0.db
    stopped-Explained f before run cause now s first =
        let after = finish_approved_execution_error redact encrypt run.id cause now s in
        Explained-le _ _ before after.0.db (λ id. omega arith)
          (Explained-trans none_started (λ k. executed k after.1) before s.db after.0.db
            (nothing_executed f before s.db first) (finish_error-Explained run.id cause now s))

    pub approve_async-Explained :
        (id reason now : Text) (s : ServiceState)
        → let after = approve_async decrypt digest refusal redact encrypt id reason now s in
          Explained (λ k. executed k after.1) s.db after.0.db
    unfolding approve_async
    approve_async-Explained id reason now s =
        elim (Result-cases (approve_for_execution decrypt digest id reason now s)) [
          | inr (e, failed) ↦ rw (approve_async, failed) (Explained-refl s.db)
          | inl (decided, done) ↦
              let (next, run) = decided in
              let started = start_approved_execution run.id next in
              let first : Explained (λ k. if equal run.id k then 1 else 0) s.db started.0.db =
                subst (λ (t : Db). Explained (λ k. if equal run.id k then 1 else 0) s.db t)
                  (sym (start-db run.id next))
                  (approve_for_execution-Explained id reason now s done) in
              elim (Option-cases started.1) [
                | inl fine ↦ rw (approve_async, done, fine) first
                | inr (fault, refused) ↦
                    rw (approve_async, done, refused)
                      (stopped-Explained (λ k. if equal run.id k then 1 else 0) s.db run
                        (failure_of decrypt digest refusal redact encrypt fault) now started.0
                        first)
              ]
        ]

    resume_approved-Explained :
        (a : Approval) (now : Text) (s : ServiceState)
        → let after = resume_approved decrypt digest refusal redact encrypt a now s in
          Explained (λ k. executed k after.1) s.db after.0.db
    unfolding resume_approved perform starts
    resume_approved-Explained a now s =
        elim (Result-cases (load_approval_execution decrypt digest a s.db)) [
          | inr (e, failed) ↦ rw (resume_approved, failed) (Explained-refl s.db)
          | inl (run, read) ↦ elim (Bool-cases (is_terminal run.status)) [
            | inl over ↦ rw (resume_approved, read, over) (Explained-refl s.db)
            | inr live ↦ elim (Option-cases (refusal a run)) [
              | inr (cause, refused) ↦
                  rw (resume_approved, read, live, refused)
                    (finish_error-Explained run.id cause now s)
              | inl allowed ↦ elim (Result-cases (claim_agent_approval_run a.id run.id s.db)) [
                | inr (e, failed) ↦
                    rw (resume_approved, read, live, allowed, failed) (Explained-refl s.db)
                | inl (db, done) ↦
                    rw (resume_approved, read, live, allowed, done)
                      (Explained-op (claiming a.id run.id) s.db db tt done)
              ]
            ]
          ]
        ]

    pub resume-Explained :
        (id now : Text) (s : ServiceState)
        → let after = resume decrypt digest refusal redact encrypt id now s in
          Explained (λ k. executed k after.1) s.db after.0.db
    unfolding resume
    resume-Explained id now s = elim (Result-cases (get_approval id s.db)) [
      | inr (e, failed) ↦ rw (resume, failed) (Explained-refl s.db)
      | inl (found, read) ↦ elim (Bool-cases (is_agent found.0)) [
        | inr operator ↦ rw (resume, read, operator) (Explained-refl s.db)
        | inl agent ↦ elim (Bool-cases (is_rejected found.0.status)) [
          | inl refused ↦ elim (Result-cases (get_run found.0.run_id s.db)) [
            | inr (e, gone) ↦ rw (resume, read, agent, refused, gone) (Explained-refl s.db)
            | inl (run, there) ↦ rw (resume, read, agent, refused, there) (Explained-refl s.db)
          ]
          | inr other ↦ elim (Bool-cases (is_approved found.0.status)) [
            | inl granted ↦
                rw (resume, read, agent, other, granted) (resume_approved-Explained found.0 now s)
            | inr waiting ↦ rw (resume, read, agent, other, waiting) (Explained-refl s.db)
          ]
        ]
      ]
    ]
