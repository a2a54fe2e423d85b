-- ===== src/Approvals/Consistency/Decisions.antt =====
-- The single decisions of internal/store/approvals.go keep the tables consistent.
use mathlib.Core.Path.{subst}
use eino_ops_agent_enterpr1s.Base.{
  Bool, true, false, not, List, [], Text, equal_iff, ◌==◌, ◌≡◌, inl, inr, refl, sym, ap, ◌∙◌, arith,
  ok, >>=-eq-ok, guard->>=-ok,
}
use eino_ops_agent_enterpr1s.Approvals.{
  ApprovalStatus, approved, rejected, running, run_rejected, Approval, Run, Db, StoreError,
  no_longer_pending, not_awaiting, update_where, count_where, is_awaiting, is_pending, publish,
}
use eino_ops_agent_enterpr1s.Approvals.Pairs.{In, count_where-In}
use eino_ops_agent_enterpr1s.Approvals.Store.{
  decide, close_run, awaits, is_pending_of, update_awaiting, approve_pending_and_start_run,
  reject_pending_approval_and_run,
}
use eino_ops_agent_enterpr1s.Approvals.Consistency.{Fits, IsConsistent}
use eino_ops_agent_enterpr1s.Approvals.Consistency.Updates.{updated-Fits, update_both-IsConsistent}

abbrev pub IsDb : Db → Type 0
IsDb db = IsConsistent db.approvals db.runs

pub update_awaiting-ok :
    (id : Text) (change : Run → Run) (problem : StoreError) (runs : List Run) {after : List Run}
    → update_awaiting id change problem runs ≡ ok after
    → ((r : Run) × In r runs × (awaits id r ≡ true))
      × (after ≡ update_where (awaits id) change runs)
unfolding update_awaiting
update_awaiting-ok id change problem runs h =
    let (hit, e) = guard->>=-ok (not (count_where (awaits id) runs == 0)) problem _ h in
    (count_where-In (awaits id) runs hit, ground arith)

-- What a decision about the pending approvals that pass `test`, and about the run `run_id`, writes.
abbrev pub decided : (Approval → Bool) → Text → ApprovalStatus → Text → Text → (Run → Run) → Db → Db
decided test run_id status reason now change db = publish [] (record db {
  approvals = update_where test (decide status reason now) db.approvals;
  runs = update_where (awaits run_id) change db.runs;
})

-- A transaction that decides has found one pending approval, and its awaiting run.
pub record Decided (test : Approval → Bool) (run_id : Text) (status : ApprovalStatus)
    (reason now : Text) (change : Run → Run) (db after : Db) : Type 0 where
  pub target : Approval
  pub target_in : In target db.approvals
  pub target_is : test target ≡ true
  pub linked : target.run_id ≡ run_id
  pub only : (a : Approval) → test a ≡ true → (a.id ≡ target.id) × (is_pending a.status ≡ true)
  pub run : Run
  pub run_in : In run db.runs
  pub run_awaits : awaits run_id run ≡ true
  pub after_is : after ≡ decided test run_id status reason now change db

pub is_pending_of-only :
    (id run_id : Text) (a : Approval)
    → is_pending_of id run_id a ≡ true
    → (a.id ≡ id) × (a.run_id ≡ run_id) × (is_pending a.status ≡ true)
is_pending_of-only id run_id a h =
    (ground (arith, equal_iff a.id id), ground (arith, equal_iff a.run_id run_id), ground arith)

-- The decision of an approval by its id and its run.
decide-Decided :
    (id run_id reason now : Text) (status : ApprovalStatus) (change : Run → Run) (db : Db)
    {after : Db} {runs : List Run}
    → not (count_where (is_pending_of id run_id) db.approvals == 0) ≡ true
    → update_awaiting run_id change not_awaiting db.runs ≡ ok runs
    → after
      ≡ publish [] (record db {
        approvals = update_where (is_pending_of id run_id) (decide status reason now) db.approvals;
        runs = runs;
      })
    → Decided (is_pending_of id run_id) run_id status reason now change db after
decide-Decided id run_id reason now status change db hit up last =
    let (t, it, et) = count_where-In (is_pending_of id run_id) db.approvals hit in
    let ((r, ir, er), e) = update_awaiting-ok run_id change not_awaiting db.runs up in
    let (is_id, is_run, _) = is_pending_of-only id run_id t et in
    record {
      target = t;
      target_in = it;
      target_is = et;
      linked = is_run;
      only = λ a h. let (i, _, p) = is_pending_of-only id run_id a h in (i ∙ sym is_id, p);
      run = r;
      run_in = ir;
      run_awaits = er;
      after_is = cc;
    }

pub approve-Decided :
    (id run_id reason now : Text) (db : Db) {after : Db}
    → approve_pending_and_start_run id run_id reason now db ≡ ok after
    → Decided
        (is_pending_of id run_id)
        run_id
        approved
        reason
        now
        (λ (r : Run). record r { status = running })
        db
        after
unfolding approve_pending_and_start_run
approve-Decided id run_id reason now db h =
    let (hit, rest) =
      guard->>=-ok (not (count_where (is_pending_of id run_id) db.approvals == 0)) no_longer_pending
        _ h in
    let (runs, up, last) =
      >>=-eq-ok
        (update_awaiting run_id (λ (r : Run). record r { status = running }) not_awaiting db.runs) _
        rest in
    decide-Decided id run_id reason now approved _ db hit up (cc)

pub reject-Decided :
    (id run_id reason now : Text) (db : Db) {after : Db}
    → reject_pending_approval_and_run id run_id reason now db ≡ ok after
    → Decided
        (is_pending_of id run_id)
        run_id
        rejected
        reason
        now
        (close_run run_rejected reason now)
        db
        after
unfolding reject_pending_approval_and_run
reject-Decided id run_id reason now db h =
    let (hit, rest) =
      guard->>=-ok (not (count_where (is_pending_of id run_id) db.approvals == 0)) no_longer_pending
        _ h in
    let (runs, up, last) =
      >>=-eq-ok (update_awaiting run_id (close_run run_rejected reason now) not_awaiting db.runs) _
        rest in
    decide-Decided id run_id reason now rejected _ db hit up (cc)

pub awaits-id : (run_id : Text) (r : Run) → awaits run_id r ≡ true → r.id ≡ run_id
awaits-id run_id r h = ground (arith, equal_iff r.id run_id)

pub missed-awaits :
    (run_id : Text) (r : Run)
    → r.id ≡ run_id
    → awaits run_id r ≡ false
    → is_awaiting r.status ≡ false
missed-awaits run_id r e y = ground (arith, (equal_iff r.id run_id).1 e)

-- Any decision keeps the tables consistent if it leaves the run and its approval fitting.
module _ {test : Approval → Bool} {run_id reason now : Text} {status : ApprovalStatus}
    {change : Run → Run} {db after : Db} (v : IsDb db)
    (d : Decided test run_id status reason now change db after) where
  pub Decided-IsConsistent :
      ((r : Run) → (change r).id ≡ r.id)
      → ((a : Approval) (r : Run)
          → Fits a.status r.status
          → is_pending a.status ≡ true
          → is_awaiting r.status ≡ false
          → Fits status r.status)
      → ((r : Run) → Fits status (change r).status)
      → IsDb after
  Decided-IsConsistent key alone together = subst IsDb (sym d.after_is) (
      update_both-IsConsistent v test (decide status reason now) (awaits run_id) change (λ a. refl)
        (λ a. refl) key
        (λ a r ia ir e old.
          updated-Fits test (decide status reason now) (awaits run_id) change a r old
            (λ x y. alone a r old (d.only a x).1 (missed-awaits run_id r (e ∙ run_of a ia x) y))
            (λ x y. absurd (found a r ia e x y)) (λ x y. together r)))
    where
      run_of : (a : Approval) → In a db.approvals → test a ≡ true → a.run_id ≡ run_id
      run_of a ia x =
          let same : a ≡ d.target =
            v.approval_keys a d.target ia d.target_in (inl (d.only a x).0) in
          ap (λ (b : Approval). b.run_id) same ∙ d.linked

      found :
          (a : Approval) (r : Run)
          → In a db.approvals
          → r.id ≡ a.run_id
          → test a ≡ false
          → awaits run_id r ≡ true
          → ⊥
      found a r ia e x y =
          let same : a ≡ d.target =
            v.approval_keys a d.target ia d.target_in
              (inr (sym e ∙ awaits-id run_id r y ∙ sym d.linked)) in
          cc (ap test same, d.target_is, x)

-- If the tables are consistent and `ApprovePendingAndStartRun` succeeds, they are consistent
-- afterwards: the run that it starts is the run of the approval that it approves.
pub approve-IsConsistent :
    (id run_id reason now : Text) (db : Db) {after : Db}
    → IsDb db
    → approve_pending_and_start_run id run_id reason now db ≡ ok after
    → IsDb after
approve-IsConsistent id run_id reason now db v h =
    Decided-IsConsistent v (approve-Decided id run_id reason now db h) (λ r. refl)
      (λ a r old x y. (λ b. refl, λ b. refl)) (λ r. (λ b. refl, λ b. refl))

-- If the tables are consistent and `RejectPendingApprovalAndRun` succeeds, they are consistent
-- afterwards: no run is left awaiting a rejected approval.
pub reject-IsConsistent :
    (id run_id reason now : Text) (db : Db) {after : Db}
    → IsDb db
    → reject_pending_approval_and_run id run_id reason now db ≡ ok after
    → IsDb after
reject-IsConsistent id run_id reason now db v h =
    Decided-IsConsistent v (reject-Decided id run_id reason now db h) (λ r. refl)
      (λ a r old x y. (λ b. ground (arith, old.0 b), λ b. cc)) (λ r. (λ b. cc, λ b. cc))
