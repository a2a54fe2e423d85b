-- ===== src/Approvals/Sessions.antt =====
-- The transactions of internal/store/approvals.go over many approvals at once, and its queries.
use eino_ops_agent_enterpr1s.Base.{
  ℕ, Bool, true, false, not, ◌&&◌, ◌||◌, List, [], ◌∷◌, Option, none, some, Text, Bytes, equal,
  is_empty, ltb, ◌==◌, if◌then◌else◌, take, Result, ok, ◌>>=◌, ◌>>◌, guard,
}
use eino_ops_agent_enterpr1s.Approvals.{
  is_agent, ApprovalStatus, rejected, interrupted, run_rejected, Approval, Run, Db, StoreError,
  changed_while_stopped, is_preparing, is_pending, is_approved, is_rejected, is_awaiting,
  update_where, count_where, exists_where, publish,
}
use eino_ops_agent_enterpr1s.Approvals.Store.{decide, close_run, awaits}

-- The order of TEXT columns.
unfoldable pub text_leb : Text → Text → Bool
text_leb [] t = true
text_leb (x ∷ s) [] = false
text_leb (x ∷ s) (y ∷ t) = ltb x y || ((x == y) && text_leb s t)

unfoldable pub filter_where {ℓ} : {A : Type ℓ} → (A → Bool) → List A → List A
filter_where test [] = []
filter_where test (x ∷ xs) = let rest = filter_where test xs in if test x then x ∷ rest else rest

-- `ORDER BY`, as a stable insertion sort.
unfoldable pub insert_by {ℓ} : {A : Type ℓ} → (A → A → Bool) → A → List A → List A
insert_by before x [] = x ∷ []
insert_by before x (y ∷ ys) =
    let rest = insert_by before x ys in if before x y then x ∷ (y ∷ ys) else y ∷ rest

unfoldable pub sort_by {ℓ} : {A : Type ℓ} → (A → A → Bool) → List A → List A
unfolding insert_by
sort_by before [] = []
sort_by before (x ∷ xs) = insert_by before x (sort_by before xs)

-- `JOIN runs ON runs.id=approvals.run_id WHERE test`, with a condition on the run.
unfoldable pub joins_run : (Run → Bool) → Db → Approval → Bool
joins_run test db a = exists_where (λ (r : Run). equal r.id a.run_id && test r) db.runs

-- `ORDER BY approvals.created_at`.
unfoldable pub by_created : Approval → Approval → Bool
unfolding text_leb
by_created a b = text_leb a.created_at b.created_at

-- `ORDER BY approvals.created_at,approvals.id`.
unfoldable pub by_created_and_id : Approval → Approval → Bool
unfolding text_leb
by_created_and_id a b =
    if equal a.created_at b.created_at
    then text_leb a.id b.id
    else text_leb a.created_at b.created_at

abbrev fits_status : Option (ApprovalStatus → Bool) → Approval → Bool
fits_status none a = true
fits_status (some test) a = test a.status

-- `ListApprovals`; the empty status stands for all, as `none`.
unfoldable pub list_approvals : Option (ApprovalStatus → Bool) → ℕ → Db → List Approval
unfolding filter_where sort_by joins_run by_created
list_approvals status given db =
    let limit = if (given == 0) || ltb 500 given then 50 else given in
    take limit (
      sort_by (λ a b. by_created b a)
        (filter_where (λ (a : Approval). fits_status status a && joins_run (λ r. true) db a)
          db.approvals))

-- `ListPendingApprovalsForSession`.
unfoldable pub list_pending_approvals_for_session : Text → Db → List Approval
unfolding filter_where sort_by joins_run by_created
list_pending_approvals_for_session session_id db = sort_by by_created (
    filter_where
      (λ (a : Approval).
        is_pending a.status && joins_run (λ (r : Run). equal r.session_id session_id) db a)
      db.approvals)

-- `ListAgentApprovalsByCheckpoint`.
unfoldable pub list_agent_approvals_by_checkpoint : Text → Db → List Approval
unfolding filter_where sort_by joins_run by_created_and_id
list_agent_approvals_by_checkpoint checkpoint_id db = sort_by by_created_and_id (
    filter_where
      (λ (a : Approval).
        is_agent a && equal a.checkpoint_id checkpoint_id && joins_run (λ r. true) db a)
      db.approvals)

-- Whether an exposed approval of the checkpoint still waits.
unfoldable pub group_waits : Text → Db → Bool
group_waits checkpoint_id db =
    exists_where
      (λ (w : Approval).
        is_agent w
        && equal w.checkpoint_id checkpoint_id
        && not (is_empty w.interrupt_id)
        && is_pending w.status)
      db.approvals

abbrev decided_key : Approval → Text
decided_key a = elim (a.decided_at) [ none ↦ [] | some t ↦ t ]

-- `ORDER BY approvals.decided_at,approvals.created_at`; a NULL comes first.
unfoldable pub by_decided : Approval → Approval → Bool
unfolding text_leb
by_decided a b =
    if equal (decided_key a) (decided_key b)
    then text_leb a.created_at b.created_at
    else text_leb (decided_key a) (decided_key b)

unfoldable pub is_decided : Db → Approval → Bool
unfolding joins_run group_waits
is_decided db a =
    is_agent a
    && (is_approved a.status || is_rejected a.status)
    && not (is_empty a.checkpoint_id)
    && not (is_empty a.interrupt_id)
    && not (group_waits a.checkpoint_id db)
    && exists_where (λ (c : Text × Bytes). equal c.0 a.checkpoint_id) db.checkpoints
    && joins_run (λ r. true) db a

-- `ListDecidedAgentApprovals`.
unfoldable pub list_decided_agent_approvals : Db → List Approval
unfolding filter_where sort_by by_decided is_decided
list_decided_agent_approvals db = sort_by by_decided (filter_where (is_decided db) db.approvals)

-- `continuation_kind='agent' AND status='preparing'`.
abbrev pub is_unactivated : Approval → Bool
is_unactivated a = is_agent a && is_preparing a.status

-- `AbortUnactivatedAgentApprovals`.
unfoldable pub abort_unactivated_agent_approvals : Text → Text → Db → Db
unfolding filter_where
abort_unactivated_agent_approvals reason now db = publish [] (record db {
  checkpoints =
      filter_where
        (λ (c : Text × Bytes). not (
          exists_where
            (λ (a : Approval).
              is_unactivated a && not (is_empty a.checkpoint_id) && equal a.checkpoint_id c.0)
            db.approvals))
        db.checkpoints;
  runs =
      update_where
        (λ (r : Run).
          is_awaiting r.status
          && exists_where (λ (a : Approval). is_unactivated a && equal a.run_id r.id) db.approvals)
        (close_run interrupted reason now) db.runs;
  approvals = update_where is_unactivated (decide rejected reason now) db.approvals;
})

-- The row that one round of the loop of `AbortAgentApprovalsForSession` rejects.
abbrev pub is_stoppable : Approval → Approval → Bool
is_stoppable a b = equal b.id a.id && (is_pending b.status || is_approved b.status)

-- One round of that loop.
unfoldable pub abort_one : Text → Text → Approval → Db → Result StoreError Db
abort_one reason now a db = do
  guard (count_where (is_stoppable a) db.approvals == 1) (changed_while_stopped a.id)
  guard (count_where (awaits a.run_id) db.runs == 1) (changed_while_stopped a.run_id)
  ok (record db {
    approvals = update_where (is_stoppable a) (decide rejected reason now) db.approvals;
    runs = update_where (awaits a.run_id) (close_run run_rejected reason now) db.runs;
  })

unfoldable pub abort_each : Text → Text → List Approval → Db → Result StoreError Db
unfolding abort_one
abort_each reason now [] db = ok db
abort_each reason now (a ∷ selected) db =
    abort_one reason now a db >>= abort_each reason now selected

-- The rows that `AbortAgentApprovalsForSession` selects.
unfoldable pub unclaimed_of_session : Text → Db → List Approval
unfolding filter_where sort_by joins_run by_created_and_id
unclaimed_of_session session_id db = sort_by by_created_and_id (
    filter_where
      (λ (a : Approval).
        is_agent a
        && (is_pending a.status || is_approved a.status)
        && joins_run (λ (r : Run). equal r.session_id session_id && is_awaiting r.status) db a)
      db.approvals)

-- The rejected approvals that the transaction returns.
unfoldable pub as_rejected : Text → Text → List Approval → List Approval
as_rejected reason now [] = []
as_rejected reason now (a ∷ selected) =
    decide rejected reason now a ∷ as_rejected reason now selected

-- `AbortAgentApprovalsForSession`.
unfoldable pub abort_agent_approvals_for_session :
    Text → Text → Text → Db → Result StoreError (Db × List Approval)
unfolding unclaimed_of_session abort_each as_rejected
abort_agent_approvals_for_session session_id reason now db = do
  let selected = unclaimed_of_session session_id db
  stopped ← abort_each reason now selected db
  ok (
    if is_empty selected then stopped else publish session_id stopped,
    as_rejected reason now selected,
  )
