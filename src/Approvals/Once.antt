-- ===== src/Approvals/Once.antt =====
-- A run is started at most once, and never after its rejection (internal/store/approvals.go).
use mathlib.Core.Path.{subst}
use eino_ops_agent_enterpr1s.Base.{
  Bool, true, false, ◌&&◌, List, [], ◌∷◌, Text, equal, equal_iff, ◌≤◌, ◌≡◌, ◌⊎◌, inl, inr, refl,
  sym, ap, ◌∙◌, arith, Bool-cases, All, ok, Result-cases,
}
use eino_ops_agent_enterpr1s.Approvals.{
  is_agent, ApprovalStatus, Approval, Run, Db, update_where, exists_where, is_awaiting, is_approved,
  running,
}
use eino_ops_agent_enterpr1s.Approvals.Pairs.{In, updated, In-update_where}
use eino_ops_agent_enterpr1s.Approvals.Store.{
  claim_agent_approval_run, reject_pending_approval_and_run, awaits,
}
use eino_ops_agent_enterpr1s.Approvals.Calls.{
  Op, creating_run, creating_approval, activating, deciding, claiming, rejecting, approving,
  explaining, reviewing, writing, interrupting, recovering, stopping, deleting_audit, deleting_host,
  deleting_session, perform, starts, performed, performed-ok, performed-err, count_starts,
}
use eino_ops_agent_enterpr1s.Approvals.Consistency.Decisions.{
  Decided, awaits-id, approve-Decided, reject-Decided,
}
use eino_ops_agent_enterpr1s.Approvals.Consistency.Agents.{is_claimed, claim-after}
use eino_ops_agent_enterpr1s.Approvals.Settled.{
  IsOutcome, NotCreating, Settled, awaiting-Settled, perform-Settled,
}

-- An update of the awaiting runs with an id that leaves none of them awaiting settles the run.
update-Settled :
    (id : Text) (runs : List Run) (test : Run → Bool) (change : Run → Run)
    → ((s : Run) → s.id ≡ id → is_awaiting s.status ≡ true → test s ≡ true)
    → ((s : Run) → (change s).id ≡ s.id)
    → ((s : Run) → is_awaiting (change s).status ≡ false)
    → Settled id (update_where test change runs)
update-Settled id runs test change hit key quiet s is es =
    let (t, it, et) = In-update_where test change s runs is in
    subst (λ (z : Run). is_awaiting z.status ≡ false) (sym et)
      (quiet_now t (sym (keys t) ∙ ap (λ (z : Run). z.id) (sym et) ∙ es))
  where
    keys : (x : Run) → (updated test change x).id ≡ x.id
    keys x = elim (Bool-cases (test x)) [ inl met ↦ rw met (key x) | inr failed ↦ rw failed ]

    quiet_now : (x : Run) → x.id ≡ id → is_awaiting (updated test change x).status ≡ false
    quiet_now x is_id = elim (Bool-cases (test x)) [
      | inl met ↦ rw met (quiet x)
      | inr failed ↦ rw failed (elim (Bool-cases (is_awaiting x.status)) [
        | inl waits ↦ cc (hit x is_id waits)
        | inr done ↦ done
      ])
    ]

-- What a start has found, and what it leaves.
abbrev Started : Text → Db → Db → Type 0
Started id db after = ((r : Run) × In r db.runs × (awaits id r ≡ true)) × Settled id after.runs

Decided-Started :
    {test : Approval → Bool} {run_id : Text} {status : ApprovalStatus} {reason now : Text}
    {change : Run → Run} {db after : Db}
    → Decided test run_id status reason now change db after
    → ((s : Run) → (change s).id ≡ s.id)
    → ((s : Run) → is_awaiting (change s).status ≡ false)
    → Started run_id db after
Decided-Started {run_id = run_id} {change = change} {db = db} d key quiet = (
  (d.run, d.run_in, d.run_awaits),
  subst (λ (z : Db). Settled run_id z.runs) (sym d.after_is)
      (update-Settled run_id db.runs (awaits run_id) change
        (λ s e w. ground (arith, equal_iff s.id run_id)) key quiet),
)

claim-Started :
    (id run_id : Text) (db : Db) {after : Db}
    → claim_agent_approval_run id run_id db ≡ ok after
    → Started run_id db after
claim-Started id run_id db h =
    let ((r, ir, er), e) = claim-after id run_id db h in
    let waits : awaits run_id r ≡ true = ground arith in
    (
      (r, ir, waits),
      subst (λ (z : Db). Settled run_id z.runs) (sym e)
          (update-Settled run_id db.runs (is_claimed id run_id db.approvals)
            (λ (s : Run). record s { status = running }) (λ s e w. hit r s er waits e w) (λ s. refl)
            (λ s. refl)),
    )
  where
    hit :
        (r s : Run)
        → is_claimed id run_id db.approvals r ≡ true
        → awaits run_id r ≡ true
        → s.id ≡ run_id
        → is_awaiting s.status ≡ true
        → is_claimed id run_id db.approvals s ≡ true
    hit r s er waits e w =
        let same : r.id ≡ s.id = awaits-id run_id r waits ∙ sym e in
        let approved_for = λ (key : Text).
          exists_where
            (λ (a : Approval).
              equal a.id id && equal a.run_id key && is_agent a && is_approved a.status)
            db.approvals in
        let first : approved_for r.id ≡ true = ground arith in
        let second : approved_for s.id ≡ true = subst (λ key. approved_for key ≡ true) same first in
        ground (arith, equal_iff s.id run_id)

start-Started :
    (id : Text) (op : Op) (db : Db) {after : Db}
    → starts id op ≡ true
    → perform op db ≡ ok after
    → Started id db after
unfolding perform starts
start-Started id (creating_run r) db s h = cc
start-Started id (creating_approval a t) db s h = cc
start-Started id (activating c i) db s h = cc
start-Started id (deciding a b c d) db s h = cc
start-Started id (claiming given run_id) db {after} s h =
    subst (λ key. Started key db after) ((equal_iff run_id id).0 s)
      (claim-Started given run_id db h)
start-Started id (rejecting a b c d) db s h = cc
start-Started id (approving given run_id reason now) db {after} s h =
    subst (λ key. Started key db after) ((equal_iff run_id id).0 s)
      (Decided-Started (approve-Decided given run_id reason now db h) (λ r. refl) (λ r. refl))
start-Started id (explaining a b c) db s h = cc
start-Started id (reviewing a b) db s h = cc
start-Started id (writing r) db s h = cc
start-Started id (interrupting a b) db s h = cc
start-Started id (recovering a b) db s h = cc
start-Started id (stopping a b c) db s h = cc
start-Started id (deleting_audit a b) db s h = cc
start-Started id (deleting_host a) db s h = cc
start-Started id (deleting_session a b) db s h = cc

-- A call that starts a run settles it, and no call starts a settled one.
pub start-Settled :
    (id : Text) (op : Op) (db : Db) {after : Db}
    → starts id op ≡ true
    → perform op db ≡ ok after
    → Settled id after.runs
start-Settled id op db start done = (start-Started id op db start done).1

pub not_started-Settled :
    (id : Text) (op : Op) (db : Db) {after : Db}
    → starts id op ≡ true
    → perform op db ≡ ok after
    → Settled id db.runs
    → ⊥
not_started-Settled id op db start done settled =
    let ((r, ir, waits), _) = start-Started id op db start done in
    awaiting-Settled id db.runs r settled ir waits

pub count_starts-Settled :
    (id : Text) (ops : List Op) (db : Db)
    → All IsOutcome ops
    → All (NotCreating id) ops
    → Settled id db.runs
    → count_starts id ops db ≡ 0
unfolding count_starts
count_starts-Settled id [] db _ _ settled = refl
count_starts-Settled id (op ∷ ops) db (outcome, outcomes) (other_id, others) settled =
    elim (Result-cases (perform op db)) [
      | inr (e, failed) ↦
          rw (performed-err id op db failed)
            (count_starts-Settled id ops db outcomes others settled)
      | inl (after, done) ↦ elim (Bool-cases (starts id op)) [
        | inl start ↦ absurd (not_started-Settled id op db start done settled)
        | inr other ↦
            rw (performed-ok id op db done, other)
              (count_starts-Settled id ops after outcomes others
                (perform-Settled id op db outcome other_id done settled))
      ]
    ]

-- After a call that starts the run, no `CreateRun` takes its id again.
abbrev pub KeepsIds : Text → List Op → Db → Type 0
KeepsIds id [] db = Unit
KeepsIds id (op ∷ ops) db =
    (((performed id op db).1 ≡ false) ⊎ All (NotCreating id) ops)
    × KeepsIds id ops (performed id op db).0

-- Whatever the tables are, and whatever calls of the store that write or delete runs or approvals follow each
-- other: if those of `UpdateRun` write outcomes only, and no `CreateRun` takes the id of the run after a call that started
-- it, the run is started at most once, by one `ApprovePendingAndStartRun` or one `ClaimAgentApprovalRun` that
-- succeeds.
pub at_most_once :
    (id : Text) (ops : List Op) (db : Db)
    → All IsOutcome ops
    → KeepsIds id ops db
    → count_starts id ops db ≤ 1
unfolding count_starts
at_most_once id [] db _ _ = omega arith
at_most_once id (op ∷ ops) db (outcome, outcomes) (new_id, new_ids) =
    elim (Result-cases (perform op db)) [
      | inr (e, failed) ↦ rw (performed-err id op db failed) (
          at_most_once id ops db outcomes (
            subst (KeepsIds id ops) (ap (λ (z : Db × Bool). z.0) (performed-err id op db failed))
              new_ids))
      | inl (after, done) ↦ elim (Bool-cases (starts id op)) [
        | inl start ↦
            let (_, settled) = start-Started id op db start done in
            let others =
              started_now (performed id op db) (starts id op)
                (ap (λ (z : Db × Bool). z.1) (performed-ok id op db done)) start new_id in
            rw
              (
                performed-ok id op db done,
                start,
                count_starts-Settled id ops after outcomes others settled,
              )
              (omega arith)
        | inr other ↦
            rw (performed-ok id op db done, other)
              (at_most_once id ops after outcomes (
                subst (KeepsIds id ops) (ap (λ (z : Db × Bool). z.0) (performed-ok id op db done))
                  new_ids))
      ]
    ]
  where
    started_now :
        (result : Db × Bool) (start : Bool)
        → result.1 ≡ start
        → start ≡ true
        → (result.1 ≡ false) ⊎ All (NotCreating id) ops
        → All (NotCreating id) ops
    started_now result start e s (inl missed) = cc
    started_now result start e s (inr others) = others

pub rejected-Settled :
    (id run_id reason now : Text) (db : Db) {after : Db}
    → reject_pending_approval_and_run id run_id reason now db ≡ ok after
    → Settled run_id after.runs
rejected-Settled id run_id reason now db h =
    (Decided-Started (reject-Decided id run_id reason now db h) (λ r. refl) (λ r. refl)).1

-- After `RejectPendingApprovalAndRun` has succeeded for a run, no sequence of calls of the store that write or
-- delete runs or approvals, in which `UpdateRun` writes outcomes only and `CreateRun` does not take the run's id
-- again, starts that run.
pub rejection_is_final :
    (id run_id reason now : Text) (db after : Db) (ops : List Op)
    → reject_pending_approval_and_run id run_id reason now db ≡ ok after
    → All IsOutcome ops
    → All (NotCreating run_id) ops
    → count_starts run_id ops after ≡ 0
rejection_is_final id run_id reason now db after ops h outcomes others =
    count_starts-Settled run_id ops after outcomes others
      (rejected-Settled id run_id reason now db h)
