-- ===== src/ApprovalService/Submission.antt =====
-- The submission of a run (internal/service/execution.go, `Submit`).
use mathlib.Core.Path.{subst}
use eino_ops_agent_enterpr1s.Base.{
  ◌⊎◌, ◌≤◌, false, not, [], some, Text, equal, equal_iff, Result, ok, err, ◌≡◌, ◌≢◌, inl, inr, refl,
  sym, ◌∙◌, arith, Bool-cases, guard->>=-ok, ok-injective,
}
use eino_ops_agent_enterpr1s.Approvals.{
  Approval, Run, Db, StoreError, running, approval_required, run_rejected, exists_where,
  constraint_failed, is_awaiting,
}
use eino_ops_agent_enterpr1s.Approvals.Pairs.{In, In-snoc, exists_where-none}
use eino_ops_agent_enterpr1s.Approvals.Store.{create_run, create_approval, new_run}
use eino_ops_agent_enterpr1s.Approvals.Calls.{creating_run, creating_approval, perform}
use eino_ops_agent_enterpr1s.Approvals.Settled.{Settled, perform-Settled}
use eino_ops_agent_enterpr1s.ApprovalService.{
  ServiceState, Fault, store_fault, Answer, stored, executes,
}
use eino_ops_agent_enterpr1s.ApprovalService.Explained.{executed}

-- The branch that `Submit` takes by the mode and the review: the automatic review rejects with a reason, an
-- approval is required, or the run is executed at once.
pub data Route : Type 0 where
  refused : Text → Route
  asked : Approval → Text → Route
  allowed : Route

-- The run that `CreateRun` is given.
abbrev pub routed : Route → Text → Run → Run
routed (refused reason) now run = record run {
  status = run_rejected;
  error = reason;
  completed_at = some now;
}
routed (asked a session_id) now run = record run { status = approval_required }
routed allowed now run = record run { status = running }

-- What `Submit` answers after `CreateApproval`.
abbrev pub awaited : Run → ServiceState → Result StoreError Db → ServiceState × Result Fault Answer
awaited run s (err e) = (s, err (store_fault e))
awaited run s (ok db) = (record s { db = db }, ok (stored run []))

-- What `Submit` does after `CreateRun`.
abbrev pub submitted :
    Route → Run → ServiceState → Result StoreError Db → ServiceState × Result Fault Answer
submitted route run s (err e) = (s, err (store_fault e))
submitted (refused reason) run s (ok db) = (record s { db = db }, ok (stored run []))
submitted (asked a session_id) run s (ok db) =
    awaited run (record s { db = db })
      (create_approval (record a { run_id = run.id }) session_id db)
submitted allowed run s (ok db) = (record s { db = db }, ok (executes run))

-- `Submit`, from the choice of its branch on, for the run it has made.
unfoldable pub submit : Route → Run → Text → ServiceState → ServiceState × Result Fault Answer
submit route run now s =
    submitted route (routed route now run) s (create_run (routed route now run) s.db)

routed-id : (route : Route) (now : Text) (run : Run) → (routed route now run).id ≡ run.id
routed-id (refused reason) now run = refl
routed-id (asked a session_id) now run = refl
routed-id allowed now run = refl

awaited-executed :
    (id : Text) (run : Run) (s : ServiceState) (result : Result StoreError Db)
    → executed id (awaited run s result).1 ≡ 0
awaited-executed id run s (err e) = refl
awaited-executed id run s (ok db) = refl

awaited-Settled :
    (id : Text) (run : Run) (s : ServiceState) (a : Approval) (session_id : Text)
    (result : Result StoreError Db)
    → create_approval a session_id s.db ≡ result
    → Settled id s.db.runs
    → Settled id (awaited run s result).0.db.runs
unfolding perform
awaited-Settled id run s a session_id (err e) failed settled = settled
awaited-Settled id run s a session_id (ok db) done settled =
    perform-Settled id (creating_approval a session_id) s.db tt tt done settled

submitted-Settled :
    (id : Text) (route : Route) (run : Run) (s : ServiceState) (result : Result StoreError Db)
    → create_run run s.db ≡ result
    → run.id ≢ id
    → Settled id s.db.runs
    → (executed id (submitted route run s result).1 ≡ 0)
      × Settled id (submitted route run s result).0.db.runs
unfolding perform
submitted-Settled id route run s (err e) failed other settled = (refl, settled)
submitted-Settled id (refused reason) run s (ok db) done other settled =
    (refl, perform-Settled id (creating_run run) s.db tt other done settled)
submitted-Settled id (asked a session_id) run s (ok db) done other settled = (
  awaited-executed id run (record s { db = db }) _,
  awaited-Settled id run (record s { db = db }) (record a { run_id = run.id }) session_id _ refl
      (perform-Settled id (creating_run run) s.db tt other done settled),
)
submitted-Settled id allowed run s (ok db) done other settled =
    let apart : equal run.id id ≡ false = ground (arith, equal_iff run.id id) in
    (rw apart refl, perform-Settled id (creating_run run) s.db tt other done settled)

-- A submission with another id leaves a settled run settled, and does not execute it.
pub submit-Settled :
    (id : Text) (route : Route) (run : Run) (now : Text) (s : ServiceState)
    → run.id ≢ id
    → Settled id s.db.runs
    → (executed id (submit route run now s).1 ≡ 0) × Settled id (submit route run now s).0.db.runs
unfolding submit
submit-Settled id route run now s other settled =
    submitted-Settled id route (routed route now run) s _ refl
      (λ same. other (sym (routed-id route now run) ∙ same)) settled

-- `CreateRun` with a status that awaits nothing settles its id.
create_run-Settled :
    (run : Run) (db : Db) {after : Db}
    → is_awaiting run.status ≡ false
    → create_run run db ≡ ok after
    → Settled run.id after.runs
unfolding create_run
create_run-Settled run db quiet done s is same =
    let (fresh, done₁) =
      guard->>=-ok (not (exists_where (λ (s : Run). equal s.id run.id) db.runs)) constraint_failed _
        done in
    let (_, e) =
      guard->>=-ok (exists_where (λ host. equal host run.host_id) db.hosts) constraint_failed _
        done₁ in
    elim (In-snoc s db.runs (new_run run)
      (subst (λ (z : Db). In s z.runs) (sym (ok-injective e)) is)) [
        | inl old ↦ absurd (
            apart (exists_where-none (λ (s : Run). equal s.id run.id) s db.runs (ground arith) old))
        | inr new ↦ subst (λ (z : Run). is_awaiting z.status ≡ false) (sym new) quiet
      ]
  where
    apart : equal s.id run.id ≡ false → ⊥
    apart h = ground (arith, equal_iff s.id run.id)

submitted-once :
    (id : Text) (route : Route) (now : Text) (run : Run) (s : ServiceState)
    (result : Result StoreError Db)
    → create_run (routed route now run) s.db ≡ result
    → (executed id (submitted route (routed route now run) s result).1 ≡ 0)
      ⊎ ((executed id (submitted route (routed route now run) s result).1 ≤ 1)
          × Settled id (submitted route (routed route now run) s result).0.db.runs)
submitted-once id route now run s (err e) failed = inl refl
submitted-once id (refused reason) now run s (ok db) done = inl refl
submitted-once id (asked a session_id) now run s (ok db) done =
    inl (awaited-executed id (routed (asked a session_id) now run) (record s { db = db }) _)
submitted-once id allowed now run s (ok db) done = elim (Bool-cases (equal run.id id)) [
  | inr other ↦ inl (rw other refl)
  | inl same ↦ inr (
    rw same (omega arith),
    subst (λ key. Settled key db.runs) ((equal_iff run.id id).0 same)
        (create_run-Settled (routed allowed now run) s.db refl done),
  )
]

-- A submission executes a run at most once, and leaves it settled if it does.
pub submit-once :
    (id : Text) (route : Route) (run : Run) (now : Text) (s : ServiceState)
    → (executed id (submit route run now s).1 ≡ 0)
      ⊎ ((executed id (submit route run now s).1 ≤ 1)
          × Settled id (submit route run now s).0.db.runs)
unfolding submit
submit-once id route run now s = submitted-once id route now run s _ refl
