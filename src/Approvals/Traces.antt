-- ===== src/Approvals/Traces.antt =====
-- Sequences of calls of internal/store keep the tables of runs and approvals consistent.
use mathlib.Core.Path.{subst}
use eino_ops_agent_enterpr1s.Base.{
  Bool, true, false, not, ◌&&◌, ◌||◌, List, [], ◌∷◌, Text, Option, equal, equal_iff, arith, ◌==◌,
  ◌≡◌, inl, inr, refl, sym, Result-cases, ok, >>=-eq-ok, guard->>=-ok, ok-injective,
}
use eino_ops_agent_enterpr1s.Approvals.{
  Approval, Run, Db, is_running, is_awaiting, is_rejected, is_preparing, is_pending, exists_where,
  count_where, no_longer_pending, not_found,
}
use eino_ops_agent_enterpr1s.Approvals.Pairs.{In, exists_where-none}
use eino_ops_agent_enterpr1s.Approvals.Deletions.{
  is_of, In-delete_where, delete_where-In, delete_audit_runs, delete_host, delete_chat_session,
}
use eino_ops_agent_enterpr1s.Approvals.Consistency.{IsConsistent}
use eino_ops_agent_enterpr1s.Approvals.Store.{
  update_pending_approval_explanation, update_run_ai_review, awaits,
}
use eino_ops_agent_enterpr1s.Approvals.Sessions.{abort_agent_approvals_for_session}
use eino_ops_agent_enterpr1s.Approvals.Calls.{
  Op, creating_run, creating_approval, activating, deciding, claiming, rejecting, approving,
  explaining, reviewing, writing, interrupting, recovering, stopping, deleting_audit, deleting_host,
  deleting_session, perform, outcome_of,
}
use eino_ops_agent_enterpr1s.Approvals.Consistency.Updates.{update_runs-IsConsistent}
use eino_ops_agent_enterpr1s.Approvals.Consistency.Decisions.{
  IsDb, approve-IsConsistent, reject-IsConsistent,
}
use eino_ops_agent_enterpr1s.Approvals.Consistency.Agents.{
  decide_agent-IsConsistent, claim-IsConsistent,
}
use eino_ops_agent_enterpr1s.Approvals.Consistency.Groups.{
  activate-IsConsistent, abort_unactivated-IsConsistent, interrupt_active_runs-IsConsistent,
  update_run-IsConsistent, create_run-IsConsistent, create_approval-IsConsistent,
}
use eino_ops_agent_enterpr1s.Approvals.Consistency.Stops.{abort_session-IsConsistent}

-- What the callers in internal/service keep to: `UpdateRun` writes the end of a run, and an approval
-- is created undecided, for a run that does not execute.
abbrev pub Keeps : Op → Db → Type 0
Keeps (writing r) db = (is_running r.status ≡ false) × (is_awaiting r.status ≡ false)
Keeps (creating_approval a session_id) db =
    (is_rejected a.status ≡ false)
    × ((r : Run) → In r db.runs → r.id ≡ a.run_id → is_running r.status ≡ false)
Keeps _ db = Unit

-- The tables after a call; one that fails leaves the tables it had.
unfoldable pub perform_next : Op → Db → Db
perform_next op db = (outcome_of db false (perform op db)).0

unfoldable pub perform_all : List Op → Db → Db
unfolding perform_next
perform_all [] db = db
perform_all (op ∷ ops) db = perform_all ops (perform_next op db)

abbrev pub AllKeep : List Op → Db → Type 0
AllKeep [] db = Unit
AllKeep (op ∷ ops) db = Keeps op db × AllKeep ops (perform_next op db)

-- Fewer rows are consistent, if every approval that is left has its run.
fewer-IsConsistent :
    (db : Db) (approvals : List Approval) (runs : List Run)
    → IsDb db
    → ((a : Approval) → In a approvals → In a db.approvals)
    → ((r : Run) → In r runs → In r db.runs)
    → ((a : Approval) (r : Run) → In a approvals → In r db.runs → r.id ≡ a.run_id → In r runs)
    → IsConsistent approvals runs
fewer-IsConsistent db approvals runs v old_a old_r kept = record {
  approval_keys = λ a b ia ib e. v.approval_keys a b (old_a a ia) (old_a b ib) e;
  run_keys = λ r s ir is e. v.run_keys r s (old_r r ir) (old_r s is) e;
  refs = λ a ia. let (r, ir, e) = v.refs a (old_a a ia) in (r, kept a r ia ir e, e);
  fits = λ a r ia ir e. v.fits a r (old_a a ia) (old_r r ir) e;
}

-- The run of an approval that the deletion of some runs leaves is not one of them.
kept_run :
    (selected : Run → Bool) (runs : List Run) (a : Approval) (r : Run)
    → is_of selected runs a ≡ false
    → In r runs
    → r.id ≡ a.run_id
    → selected r ≡ false
kept_run selected runs a r kept ir e =
    let missed =
      exists_where-none (λ (s : Run). selected s && equal s.id a.run_id) r runs kept ir in
    ground (arith, missed, (equal_iff r.id a.run_id).1 e)

delete_audit-IsConsistent :
    (busy : Text → Bool) (session_id : Option Text) (db : Db)
    → IsDb db
    → IsDb (delete_audit_runs busy session_id db)
unfolding delete_audit_runs
delete_audit-IsConsistent busy session_id db v =
    fewer-IsConsistent db _ _ v (λ a ia. (In-delete_where _ a db.approvals ia).0)
      (λ r ir. (In-delete_where _ r db.runs ir).0)
      (λ a r ia ir e.
        delete_where-In _ r db.runs ir
          (kept_run _ db.runs a r (In-delete_where _ a db.approvals ia).1 ir e))

delete_host-IsConsistent :
    (id : Text) (db : Db) {after : Db} → IsDb db → delete_host id db ≡ ok after → IsDb after
unfolding delete_host
delete_host-IsConsistent id db v h =
    let (_, e) = guard->>=-ok (exists_where (λ host. equal host id) db.hosts) not_found _ h in
    subst IsDb (ok-injective e) (
      fewer-IsConsistent db _ _ v (λ a ia. (In-delete_where _ a db.approvals ia).0)
        (λ r ir. (In-delete_where _ r db.runs ir).0)
        (λ a r ia ir same. delete_where-In _ r db.runs ir (
          kept_run _ db.runs a r (second_false _ _ (In-delete_where _ a db.approvals ia).1) ir
            same)))
  where
    second_false : (x y : Bool) → (x || y) ≡ false → y ≡ false
    second_false true y e = cc
    second_false false y e = e

delete_session-IsConsistent :
    (session_id : Text) (known : Bool) (db : Db) {after : Db}
    → IsDb db
    → delete_chat_session session_id known db ≡ ok after
    → IsDb after
unfolding delete_chat_session
delete_session-IsConsistent session_id known db v h =
    let (_, e) = guard->>=-ok known not_found _ h in
    subst IsDb (ok-injective e) (
      fewer-IsConsistent db _ _ v (λ a ia. (In-delete_where _ a db.approvals ia).0) (λ r ir. ir)
        (λ a r ia ir same. ir))

explain-IsConsistent :
    (given run_id review : Text) (db : Db) {after : Db}
    → IsDb db
    → update_pending_approval_explanation given run_id review db ≡ ok after
    → IsDb after
unfolding update_pending_approval_explanation
explain-IsConsistent given run_id review db v h =
    let test = λ (r : Run).
      awaits run_id r
      && exists_where
          (λ (a : Approval).
            equal a.id given
            && equal a.run_id r.id
            && (is_preparing a.status || is_pending a.status))
          db.approvals in
    let (_, e) = guard->>=-ok (not (count_where test db.runs == 0)) no_longer_pending _ h in
    subst IsDb (ok-injective e) (
      update_runs-IsConsistent v test (λ (r : Run). record r { ai_review_json = review })
        (λ r. refl) (λ a r ia ir same hit old. old))

review-IsConsistent :
    (run_id review : Text) (db : Db) {after : Db}
    → IsDb db
    → update_run_ai_review run_id review db ≡ ok after
    → IsDb after
unfolding update_run_ai_review
review-IsConsistent run_id review db v h =
    let test = λ (r : Run). equal r.id run_id in
    let (_, e) = guard->>=-ok (not (count_where test db.runs == 0)) not_found _ h in
    subst IsDb (ok-injective e) (
      update_runs-IsConsistent v test (λ (r : Run). record r { ai_review_json = review })
        (λ r. refl) (λ a r ia ir same hit old. old))

perform-IsConsistent :
    (op : Op) (db : Db) {after : Db} → IsDb db → Keeps op db → perform op db ≡ ok after → IsDb after
unfolding perform
perform-IsConsistent (creating_run r) db v keeps h = create_run-IsConsistent r db v h
perform-IsConsistent (creating_approval a session_id) db v (open_one, idle) h =
    create_approval-IsConsistent a session_id db v
      (λ r ir e. ((λ b. absurd (clash (idle r ir e) b)), (λ b. open_one))) h
  where
    clash : {b : Bool} → b ≡ false → b ≡ true → ⊥
    clash n p = cc
perform-IsConsistent (activating checkpoint_id interrupts) db v keeps h =
    activate-IsConsistent checkpoint_id interrupts db v h
perform-IsConsistent (deciding id status reason now) db v keeps h =
    decide_agent-IsConsistent id reason now status db v h
perform-IsConsistent (claiming id run_id) db v keeps h = claim-IsConsistent id run_id db v h
perform-IsConsistent (rejecting id run_id reason now) db v keeps h =
    reject-IsConsistent id run_id reason now db v h
perform-IsConsistent (approving id run_id reason now) db v keeps h =
    approve-IsConsistent id run_id reason now db v h
perform-IsConsistent (explaining id run_id review) db v keeps h =
    explain-IsConsistent id run_id review db v h
perform-IsConsistent (reviewing run_id review) db v keeps h =
    review-IsConsistent run_id review db v h
perform-IsConsistent (writing r) db v (stopped, decided) h =
    subst IsDb (ok-injective h) (update_run-IsConsistent r db v stopped decided)
perform-IsConsistent (interrupting reason now) db v keeps h =
    subst IsDb (ok-injective h) (interrupt_active_runs-IsConsistent reason now db v)
perform-IsConsistent (recovering reason now) db v keeps h =
    subst IsDb (ok-injective h) (abort_unactivated-IsConsistent reason now db v)
perform-IsConsistent (stopping session_id reason now) db v keeps h =
    let (result, both, e) =
      >>=-eq-ok (abort_agent_approvals_for_session session_id reason now db) _ h in
    subst IsDb (ok-injective e) (abort_session-IsConsistent session_id reason now db v both)
perform-IsConsistent (deleting_audit busy session_id) db v keeps h =
    subst IsDb (ok-injective h) (delete_audit-IsConsistent busy session_id db v)
perform-IsConsistent (deleting_host id) db v keeps h = delete_host-IsConsistent id db v h
perform-IsConsistent (deleting_session session_id known) db v keeps h =
    delete_session-IsConsistent session_id known db v h

perform_next-IsConsistent : (op : Op) (db : Db) → IsDb db → Keeps op db → IsDb (perform_next op db)
unfolding perform_next
perform_next-IsConsistent op db v keeps = elim (Result-cases (perform op db)) [
  | inl (after, done) ↦
      subst (λ result. IsDb (outcome_of db false result).0) (sym done)
        (perform-IsConsistent op db v keeps done)
  | inr (e, failed) ↦ subst (λ result. IsDb (outcome_of db false result).0) (sym failed) v
]

-- The calls of the store that write or delete runs or approvals, one that fails leaving the tables,
-- keep them consistent: keys are unique, each approval has its run, a run that executes has no approval but an approved one, and a
-- run that awaits has none rejected. `UpdateRun` is to write the end of a run, and `CreateApproval`
-- an approval that is not rejected, for a run that does not execute.
pub perform_all-IsConsistent :
    (ops : List Op) (db : Db) → IsDb db → AllKeep ops db → IsDb (perform_all ops db)
unfolding perform_all
perform_all-IsConsistent [] db v keeps = v
perform_all-IsConsistent (op ∷ ops) db v (keeps, rest) =
    perform_all-IsConsistent ops (perform_next op db) (perform_next-IsConsistent op db v keeps) rest
