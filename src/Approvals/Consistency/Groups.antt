-- ===== src/Approvals/Consistency/Groups.antt =====
-- The transactions of internal/store over many rows keep the tables consistent.
use mathlib.Core.Path.{subst}
use eino_ops_agent_enterpr1s.Base.{
  Bool, true, false, not, ◌&&◌, ◌||◌, List, [], ◌∷◌, none, Text, equal, equal_iff, is_empty, ◌==◌,
  ◌≡◌, inl, inr, refl, sym, arith, Bool-cases, ok, >>=-eq-ok, guard->>=-ok, ok-injective,
}
use eino_ops_agent_enterpr1s.Approvals.{
  is_agent, rejected, interrupted, Approval, Run, Db, constraint_failed, empty_group,
  no_longer_resumable, count_where, exists_where, is_running, is_awaiting, is_preparing,
}
use eino_ops_agent_enterpr1s.Approvals.Pairs.{In, exists_where-none}
use eino_ops_agent_enterpr1s.Approvals.Store.{
  decide, close_run, is_resumable, expose, activate_one, activate_each, activate_agent_approvals,
  interrupt_active_runs, update_run, create_run, new_run, create_approval,
}
use eino_ops_agent_enterpr1s.Approvals.Sessions.{is_unactivated, abort_unactivated_agent_approvals}
use eino_ops_agent_enterpr1s.Approvals.Consistency.{Fits, IsConsistent}
use eino_ops_agent_enterpr1s.Approvals.Consistency.Updates.{
  updated-Fits, update_both-IsConsistent, update_runs-IsConsistent, update_approvals-IsConsistent,
  insert_run-IsConsistent, insert_approval-IsConsistent,
}
use eino_ops_agent_enterpr1s.Approvals.Consistency.Decisions.{IsDb}

-- An exposed approval still fits its run.
exposed :
    (interrupt_id : Text) (a : Approval) (r : Run)
    → Fits a.status r.status
    → Fits (expose interrupt_id a).status r.status
exposed interrupt_id a r old = elim (Bool-cases (is_preparing a.status)) [
  | inl new ↦ rw new (λ b. ground (arith, old.0 b), λ b. refl)
  | inr seen ↦ rw seen old
]

pub activate_each-IsConsistent :
    (checkpoint_id : Text) (interrupts : List (Text × Text)) (approvals : List Approval)
    (runs : List Run) {after : List Approval}
    → IsConsistent approvals runs
    → activate_each checkpoint_id interrupts approvals ≡ ok after
    → IsConsistent after runs
unfolding activate_each activate_one
activate_each-IsConsistent checkpoint_id [] approvals runs v h =
    subst (λ rows. IsConsistent rows runs) (ground arith) v
activate_each-IsConsistent checkpoint_id ((id, interrupt_id) ∷ interrupts) approvals runs v h =
    let (next, one, rest) = >>=-eq-ok (activate_one checkpoint_id id interrupt_id approvals) _ h in
    let (_, e) =
      guard->>=-ok (not (count_where (is_resumable checkpoint_id id) approvals == 0))
        (no_longer_resumable id) _ one in
    activate_each-IsConsistent checkpoint_id interrupts next runs
      (subst (λ rows. IsConsistent rows runs) (ok-injective e)
        (update_approvals-IsConsistent v (is_resumable checkpoint_id id) (expose interrupt_id)
          (λ a. refl) (λ a. refl) (λ a r ia ir linked x old. exposed interrupt_id a r old)))
      rest

-- If the tables are consistent and `ActivateAgentApprovals` succeeds, they are consistent afterwards.
pub activate-IsConsistent :
    (checkpoint_id : Text) (interrupts : List (Text × Text)) (db : Db) {after : Db}
    → IsDb db
    → activate_agent_approvals checkpoint_id interrupts db ≡ ok after
    → IsDb after
unfolding activate_agent_approvals
activate-IsConsistent checkpoint_id interrupts db v h =
    let (_, h₁) = guard->>=-ok (not (is_empty interrupts)) empty_group _ h in
    let (activated, each, last) = >>=-eq-ok (activate_each checkpoint_id interrupts _) _ h₁ in
    subst IsDb (ok-injective last) (
      activate_each-IsConsistent checkpoint_id interrupts _ db.runs
        (update_approvals-IsConsistent v
          (λ (a : Approval). is_agent a && equal a.checkpoint_id checkpoint_id)
          (λ (a : Approval). record a { interrupt_id = [] }) (λ a. refl) (λ a. refl)
          (λ a r ia ir linked x old. old))
        each)

-- The runs that `AbortUnactivatedAgentApprovals` interrupts.
abbrev is_orphan : List Approval → Run → Bool
is_orphan approvals r =
    is_awaiting r.status
    && exists_where (λ (a : Approval). is_unactivated a && equal a.run_id r.id) approvals

-- If the tables are consistent, they are so after `AbortUnactivatedAgentApprovals`: no run is left
-- awaiting an approval that it rejects.
pub abort_unactivated-IsConsistent :
    (reason now : Text) (db : Db) → IsDb db → IsDb (abort_unactivated_agent_approvals reason now db)
unfolding abort_unactivated_agent_approvals
abort_unactivated-IsConsistent reason now db v =
    update_both-IsConsistent v is_unactivated (decide rejected reason now) (is_orphan db.approvals)
      (close_run interrupted reason now) (λ a. refl) (λ a. refl) (λ r. refl)
      (λ a r ia ir e old.
        updated-Fits is_unactivated (decide rejected reason now) (is_orphan db.approvals)
          (close_run interrupted reason now) a r old
          (λ x y. (λ b. ground (arith, old.0 b), λ b. cc (orphan a r ia e x y, b)))
          (λ x y. (λ b. cc, λ b. cc)) (λ x y. (λ b. cc, λ b. cc)))
  where
    orphan :
        (a : Approval) (r : Run)
        → In a db.approvals
        → r.id ≡ a.run_id
        → is_unactivated a ≡ true
        → is_orphan db.approvals r ≡ false
        → is_awaiting r.status ≡ false
    orphan a r ia e x y =
        let test = λ (b : Approval). is_unactivated b && equal b.run_id r.id in
        elim (Bool-cases (exists_where test db.approvals)) [
          | inl some_row ↦ ground arith
          | inr no_row ↦ cc (
            exists_where-none test a db.approvals no_row ia,
            x,
            (equal_iff a.run_id r.id).1 (sym e),
          )
        ]

-- If the tables are consistent, they are so after `InterruptActiveRuns`.
pub interrupt_active_runs-IsConsistent :
    (reason now : Text) (db : Db) → IsDb db → IsDb (interrupt_active_runs reason now db)
unfolding interrupt_active_runs
interrupt_active_runs-IsConsistent reason now db v =
    update_runs-IsConsistent v _ _ (λ r. refl) (λ a r ia ir e x old. (λ b. cc, λ b. cc))

-- A run that is written as neither executing nor awaiting keeps the tables consistent.
pub update_run-IsConsistent :
    (given : Run) (db : Db)
    → IsDb db
    → is_running given.status ≡ false
    → is_awaiting given.status ≡ false
    → IsDb (update_run given db)
unfolding update_run
update_run-IsConsistent given db v stopped decided =
    update_runs-IsConsistent v _ _ (λ r. refl) (λ a r ia ir e x old. (λ b. cc, λ b. cc))

abbrev pub no_rows : Db
no_rows = record { approvals = []; runs = []; checkpoints = []; hosts = []; changes = [] }

-- The empty tables are consistent.
pub no_rows-IsConsistent : IsConsistent [] []
no_rows-IsConsistent = record {
  approval_keys = λ a b ia ib e. absurd ia;
  run_keys = λ r s ir is e. absurd ir;
  refs = λ a ia. absurd ia;
  fits = λ a r ia ir e. absurd ia;
}

-- If the tables are consistent and `CreateRun` succeeds, they are consistent afterwards.
pub create_run-IsConsistent :
    (given : Run) (db : Db) {after : Db} → IsDb db → create_run given db ≡ ok after → IsDb after
unfolding create_run
create_run-IsConsistent given db v h =
    let test = λ (s : Run). equal s.id given.id in
    let (fresh, h₁) = guard->>=-ok (not (exists_where test db.runs)) constraint_failed _ h in
    let (_, e) =
      guard->>=-ok (exists_where (λ host. equal host given.host_id) db.hosts) constraint_failed _
        h₁ in
    subst IsDb (ok-injective e) (insert_run-IsConsistent v (new_run given) (ground arith))

-- If the tables are consistent, the approval fits the run that it names, and `CreateApproval`
-- succeeds, they are consistent afterwards.
pub create_approval-IsConsistent :
    (a : Approval) (session_id : Text) (db : Db) {after : Db}
    → IsDb db
    → ((r : Run) → In r db.runs → r.id ≡ a.run_id → Fits a.status r.status)
    → create_approval a session_id db ≡ ok after
    → IsDb after
unfolding create_approval
create_approval-IsConsistent a session_id db v fit h =
    let test = λ (b : Approval). equal b.id a.id || equal b.run_id a.run_id in
    let (fresh, h₁) = guard->>=-ok (not (exists_where test db.approvals)) constraint_failed _ h in
    let (linked, h₂) =
      guard->>=-ok (exists_where (λ (r : Run). equal r.id a.run_id) db.runs) constraint_failed _
        h₁ in
    let (_, h₃) =
      guard->>=-ok (exists_where (λ host. equal host a.host_id) db.hosts) constraint_failed _ h₂ in
    subst IsDb (ok-injective h₃)
      (insert_approval-IsConsistent v (record a { decided_at = none }) (ground arith) linked fit)
