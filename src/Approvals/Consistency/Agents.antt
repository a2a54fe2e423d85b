-- ===== src/Approvals/Consistency/Agents.antt =====
-- The decision and the claim of an Agent approval (internal/store/approvals.go) keep the tables
-- consistent.
use mathlib.Core.Path.{subst}
use eino_ops_agent_enterpr1s.Base.{
  Bool, true, not, ◌&&◌, ◌||◌, List, [], some, Option-cases, Text, equal, equal_iff, is_empty, ◌==◌,
  ◌≡◌, ◌⊎◌, inl, inr, refl, sym, ap, ◌∙◌, arith, Bool-cases, ok, >>=-eq-ok, guard->>=-ok,
}
use eino_ops_agent_enterpr1s.Approvals.{
  is_agent, ApprovalStatus, running, run_rejected, Approval, Run, Db, no_longer_pending,
  not_awaiting, invalid_decision, not_claimable, update_where, count_where, exists_where,
  find_where, is_approved, is_rejected, is_pending, publish,
}
use eino_ops_agent_enterpr1s.Approvals.Pairs.{
  In, updated, count_where-In, exists_where-In, find_where-In, In-update_where,
}
use eino_ops_agent_enterpr1s.Approvals.Store.{
  decide, close_run, awaits, decided_runs, decide_agent_approval, claim_agent_approval_run,
}
use eino_ops_agent_enterpr1s.Approvals.Consistency.Updates.{
  update_runs-IsConsistent, update_approvals-IsConsistent,
}
use eino_ops_agent_enterpr1s.Approvals.Consistency.Decisions.{
  IsDb, Decided, Decided-IsConsistent, update_awaiting-ok,
}

-- The rows that `DecideAgentApproval` updates.
abbrev pub is_decidable : Text → Approval → Bool
is_decidable id a =
    equal a.id id
    && is_agent a
    && is_pending a.status
    && not (is_empty a.checkpoint_id)
    && not (is_empty a.interrupt_id)

is_decidable-only :
    (id : Text) (a : Approval)
    → is_decidable id a ≡ true
    → (a.id ≡ id) × (is_pending a.status ≡ true)
is_decidable-only id a h = (ground (arith, equal_iff a.id id), ground arith)

-- The row that the subquery by `id` reads behind the update.
target_of :
    (id : Text) (change : Approval → Approval) (approvals : List Approval) {found : Approval}
    → ((a : Approval) → ((change a).id ≡ a.id) × ((change a).run_id ≡ a.run_id))
    → find_where (λ (a : Approval). equal a.id id) (update_where (is_decidable id) change approvals)
      ≡ some found
    → (a : Approval) × In a approvals × (a.id ≡ id) × (found.run_id ≡ a.run_id)
target_of id change approvals {found} keys h =
    let rows = update_where (is_decidable id) change approvals in
    let (there, is_id) = find_where-In (λ (a : Approval). equal a.id id) rows h in
    let (a, ia, e) = In-update_where (is_decidable id) change found approvals there in
    let same : ((updated (is_decidable id) change a).id ≡ a.id)
        × ((updated (is_decidable id) change a).run_id ≡ a.run_id) =
      elim (Bool-cases (is_decidable id a)) [
        | inl hit ↦ rw hit (keys a)
        | inr miss ↦ rw miss (refl, refl)
      ] in
    (
      a,
      ia,
      sym same.0 ∙ ap (λ (x : Approval). x.id) (sym e) ∙ (equal_iff found.id id).0 is_id,
      ap (λ (x : Approval). x.run_id) e ∙ same.1,
    )

-- What a decision that succeeds has done: an approval alone, or a rejection with its run.
pub decide_agent-cases :
    (id reason now : Text) (status : ApprovalStatus) (db : Db) {after : Db}
    → IsDb db
    → decide_agent_approval id status reason now db ≡ ok after
    → ((is_approved status ≡ true)
        × (after
            ≡ publish [] (record db {
              approvals = update_where (is_decidable id) (decide status reason now) db.approvals;
            })))
      ⊎ ((is_rejected status ≡ true)
          × ((run_id : Text) × Decided
                (is_decidable id)
                run_id
                status
                reason
                now
                (close_run run_rejected reason now)
                db
                after))
unfolding decide_agent_approval
decide_agent-cases id reason now status db {after} v h =
    let (valid, h₁) =
      guard->>=-ok (is_approved status || is_rejected status) invalid_decision _ h in
    let (hit, h₂) =
      guard->>=-ok (not (count_where (is_decidable id) db.approvals == 0)) no_longer_pending _ h₁ in
    let approvals = update_where (is_decidable id) (decide status reason now) db.approvals in
    let target = find_where (λ (a : Approval). equal a.id id) approvals in
    let (runs, up, last) = >>=-eq-ok (decided_runs status target reason now db.runs) _ h₂ in
    elim (Bool-cases (is_rejected status)) [
      | inr approves ↦ let same : ok db.runs ≡ ok runs = rw approves at up in inl (ground arith, cc)
      | inl rejects ↦
          let up' = rw rejects at up in
          elim (Option-cases target) [
            | inl nothing ↦ absurd (cc (rw nothing at up'))
            | inr (found, there) ↦
                let written = rw there at up' in
                let (a, ia, ea, run_of) =
                  target_of id (decide status reason now) db.approvals (λ x. (refl, refl)) there in
                let ((r, ir, er), updates) =
                  update_awaiting-ok found.run_id (close_run run_rejected reason now) not_awaiting
                    db.runs written in
                let (t, it, et) = count_where-In (is_decidable id) db.approvals hit in
                let same : a ≡ t =
                  v.approval_keys a t ia it (inl (ea ∙ sym (is_decidable-only id t et).0)) in
                inr (
                  rejects,
                  (
                    found.run_id,
                    record {
                      target = t;
                      target_in = it;
                      target_is = et;
                      linked = ap (λ (x : Approval). x.run_id) (sym same) ∙ sym run_of;
                      only = λ b x.
                          let (is_id, p) = is_decidable-only id b x in
                          (is_id ∙ sym (is_decidable-only id t et).0, p);
                      run = r;
                      run_in = ir;
                      run_awaits = er;
                      after_is = cc;
                    },
                  ),
                )
          ]
    ]

-- If the tables are consistent and `DecideAgentApproval` succeeds, with either decision, they are
-- consistent afterwards: a rejection closes the run together with the approval.
pub decide_agent-IsConsistent :
    (id reason now : Text) (status : ApprovalStatus) (db : Db) {after : Db}
    → IsDb db
    → decide_agent_approval id status reason now db ≡ ok after
    → IsDb after
decide_agent-IsConsistent id reason now status db v h =
    elim (decide_agent-cases id reason now status db v h) [
      | inl (approves, e) ↦ subst IsDb (sym e) (
          update_approvals-IsConsistent v (is_decidable id) (decide status reason now) (λ a. refl)
            (λ a. refl) (λ a r ia ir linked x old. (λ b. approves, λ b. ground arith)))
      | inr (rejects, (run_id, d)) ↦
          Decided-IsConsistent v d (λ r. refl)
            (λ a r old x y. (λ b. ground (arith, old.0 b), λ b. cc)) (λ r. (λ b. cc, λ b. cc))
    ]

-- The run that `ClaimAgentApprovalRun` starts.
abbrev pub is_claimed : Text → Text → List Approval → Run → Bool
is_claimed id run_id approvals r =
    awaits run_id r
    && exists_where
        (λ (a : Approval).
          equal a.id id && equal a.run_id r.id && is_agent a && is_approved a.status)
        approvals

pub claim-after :
    (id run_id : Text) (db : Db) {after : Db}
    → claim_agent_approval_run id run_id db ≡ ok after
    → ((r : Run) × In r db.runs × (is_claimed id run_id db.approvals r ≡ true))
      × (after ≡ record db {
        runs =
            update_where
              (is_claimed id run_id db.approvals)
              (λ (r : Run). record r { status = running })
              db.runs;
      })
unfolding claim_agent_approval_run
claim-after id run_id db h =
    let (hit, e) =
      guard->>=-ok (not (count_where (is_claimed id run_id db.approvals) db.runs == 0))
        not_claimable _ h in
    (count_where-In (is_claimed id run_id db.approvals) db.runs hit, cc)

-- If the tables are consistent (unique keys, each approval with its run, a running run only with an
-- approved approval, an awaiting run with none rejected) and `ClaimAgentApprovalRun` succeeds, they
-- are consistent afterwards: the run that it starts has an approved approval.
pub claim-IsConsistent :
    (id run_id : Text) (db : Db) {after : Db}
    → IsDb db
    → claim_agent_approval_run id run_id db ≡ ok after
    → IsDb after
claim-IsConsistent id run_id db v h =
    let (_, e) = claim-after id run_id db h in
    subst IsDb (sym e) (
      update_runs-IsConsistent v (is_claimed id run_id db.approvals)
        (λ (r : Run). record r { status = running }) (λ r. refl)
        (λ a r ia ir linked x old. (λ b. approved_for a r ia linked x, λ b. cc)))
  where
    approved_for :
        (a : Approval) (r : Run)
        → In a db.approvals
        → r.id ≡ a.run_id
        → is_claimed id run_id db.approvals r ≡ true
        → is_approved a.status ≡ true
    approved_for a r ia linked x =
        let test = λ (b : Approval).
          equal b.id id && equal b.run_id r.id && is_agent b && is_approved b.status in
        let (b, ib, eb) = exists_where-In test db.approvals (ground arith) in
        let run_is : b.run_id ≡ r.id = ground (arith, equal_iff b.run_id r.id) in
        let same : a ≡ b = v.approval_keys a b ia ib (inr (sym linked ∙ sym run_is)) in
        subst (λ (z : Approval). is_approved z.status ≡ true) (sym same) (ground arith)
