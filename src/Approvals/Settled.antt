-- ===== src/Approvals/Settled.antt =====
-- A run that no longer awaits its approval never awaits it again, whatever call of internal/store
-- follows.
use mathlib.Core.Path.{subst}
use eino_ops_agent_enterpr1s.Base.{
  Bool, true, false, not, ◌&&◌, ◌||◌, List, [], ◌∷◌, ◌++◌, Text, equal, ◌==◌, ◌≡◌, ◌≢◌, inl, inr,
  refl, sym, ap, ◌∙◌, arith, Bool-cases, is_empty, Option, Option-cases, ok, >>=-eq-ok,
  guard->>=-ok, ok-injective,
}
use eino_ops_agent_enterpr1s.Approvals.{
  ApprovalStatus, Approval, Run, Db, StoreError, constraint_failed, changed_while_stopped,
  not_awaiting, update_where, exists_where, count_where, is_awaiting, is_approved, is_rejected,
  is_preparing, is_pending, find_where, empty_group, invalid_decision, no_longer_pending, not_found,
  running, run_rejected,
}
use eino_ops_agent_enterpr1s.Approvals.Pairs.{In, updated, In-update_where, In-snoc}
use eino_ops_agent_enterpr1s.Approvals.Store.{
  create_run, new_run, create_approval, activate_agent_approvals, activate_each,
  decide_agent_approval, claim_agent_approval_run, reject_pending_approval_and_run,
  approve_pending_and_start_run, update_pending_approval_explanation, update_run_ai_review,
  update_run, interrupt_active_runs, update_awaiting, decided_runs, awaits, close_run, decide,
}
use eino_ops_agent_enterpr1s.Approvals.Sessions.{
  abort_one, abort_each, is_stoppable, unclaimed_of_session, abort_unactivated_agent_approvals,
  abort_agent_approvals_for_session,
}
use eino_ops_agent_enterpr1s.Approvals.Deletions.{
  delete_where, In-delete_where, delete_audit_runs, delete_host, delete_chat_session,
}
use eino_ops_agent_enterpr1s.Approvals.Calls.{
  Op, creating_run, creating_approval, activating, deciding, claiming, rejecting, approving,
  explaining, reviewing, writing, interrupting, recovering, stopping, deleting_audit, deleting_host,
  deleting_session, perform,
}
use eino_ops_agent_enterpr1s.Approvals.Consistency.Decisions.{
  update_awaiting-ok, awaits-id, approve-Decided, reject-Decided,
}
use eino_ops_agent_enterpr1s.Approvals.Consistency.Agents.{is_decidable, is_claimed, claim-after}

-- `finishExecution`, which alone calls `UpdateRun`, never writes `approval_required`.
abbrev pub IsOutcome : Op → Type 0
IsOutcome (writing r) = is_awaiting r.status ≡ false
IsOutcome _ = Unit

-- The call is not a `CreateRun` with this id.
abbrev pub NotCreating : Text → Op → Type 0
NotCreating id (creating_run r) = r.id ≢ id
NotCreating id _ = Unit

-- No run with the id awaits its approval.
abbrev pub Settled : Text → List Run → Type 0
Settled id runs = (r : Run) → In r runs → r.id ≡ id → is_awaiting r.status ≡ false

-- An update that keeps the ids, and awakens no run, leaves a settled run settled.
pub Settled-update :
    (id : Text) (runs : List Run) (test : Run → Bool) (change : Run → Run)
    → ((r : Run) → (change r).id ≡ r.id)
    → ((r : Run)
        → test r ≡ true
        → is_awaiting r.status ≡ false
        → is_awaiting (change r).status ≡ false)
    → Settled id runs
    → Settled id (update_where test change runs)
Settled-update id runs test change key still quiet s is es =
    let (t, it, et) = In-update_where test change s runs is in
    subst (λ (z : Run). is_awaiting z.status ≡ false) (sym et)
      (still_quiet t (quiet t it (sym (keys t) ∙ ap (λ (z : Run). z.id) (sym et) ∙ es)))
  where
    keys : (x : Run) → (updated test change x).id ≡ x.id
    keys x = elim (Bool-cases (test x)) [ inl hit ↦ rw hit (key x) | inr miss ↦ rw miss ]

    still_quiet :
        (x : Run)
        → is_awaiting x.status ≡ false
        → is_awaiting (updated test change x).status ≡ false
    still_quiet x h = elim (Bool-cases (test x)) [
      | inl hit ↦ rw hit (still x hit h)
      | inr miss ↦ rw miss h
    ]

Settled-create :
    (id : Text) (given : Run) (runs : List Run)
    → given.id ≢ id
    → Settled id runs
    → Settled id (runs ++ given ∷ [])
Settled-create id given runs other quiet s is es = elim (In-snoc s runs given is) [
  | inl old ↦ quiet s old es
  | inr new ↦ absurd (other (ap (λ (z : Run). z.id) (sym new) ∙ es))
]

Settled-delete :
    (id : Text) (test : Run → Bool) (runs : List Run)
    → Settled id runs
    → Settled id (delete_where test runs)
Settled-delete id test runs quiet s is es = quiet s (In-delete_where test s runs is).0 es

-- A row that the statements look for with `status='approval_required'` is not one of a settled run.
pub awaiting-Settled :
    (id : Text) (runs : List Run) (r : Run) → Settled id runs → In r runs → awaits id r ≡ true → ⊥
awaiting-Settled id runs r quiet ir h = let open_run = quiet r ir (awaits-id id r h) in ground arith

update_awaiting-Settled :
    (id run_id : Text) (change : Run → Run) (problem : StoreError) (runs : List Run)
    {after : List Run}
    → ((r : Run) → (change r).id ≡ r.id)
    → update_awaiting run_id change problem runs ≡ ok after
    → Settled id runs
    → Settled id after
update_awaiting-Settled id run_id change problem runs key h settled =
    let (_, e) = update_awaiting-ok run_id change problem runs h in
    subst (Settled id) (sym e)
      (Settled-update id runs (awaits run_id) change key (λ r x y. ground arith) settled)

decided_runs-Settled :
    (id : Text) (status : ApprovalStatus) (target : Option Approval) (reason now : Text)
    (runs : List Run) {after : List Run}
    → decided_runs status target reason now runs ≡ ok after
    → Settled id runs
    → Settled id after
unfolding decided_runs
decided_runs-Settled id status target reason now runs h settled =
    elim (Bool-cases (is_rejected status)) [
      | inr approves ↦ subst (Settled id) (ok-injective (rw approves at h)) settled
      | inl rejects ↦ elim (Option-cases target) [
        | inl nothing ↦ absurd (cc (rw nothing at rw rejects at h))
        | inr (a, there) ↦
            update_awaiting-Settled id a.run_id (close_run run_rejected reason now) not_awaiting
              runs (λ r. refl) (rw there at rw rejects at h) settled
      ]
    ]

abort_each-Settled :
    (id reason now : Text) (selected : List Approval) (db : Db) {after : Db}
    → abort_each reason now selected db ≡ ok after
    → Settled id db.runs
    → Settled id after.runs
unfolding abort_each abort_one
abort_each-Settled id reason now [] db h settled =
    subst (λ (z : Db). Settled id z.runs) (ok-injective h) settled
abort_each-Settled id reason now (a ∷ selected) db h settled =
    let (next, one, rest) = >>=-eq-ok (abort_one reason now a db) _ h in
    let (_, h₁) =
      guard->>=-ok (count_where (is_stoppable a) db.approvals == 1) (changed_while_stopped a.id) _
        one in
    let (_, h₂) =
      guard->>=-ok (count_where (awaits a.run_id) db.runs == 1) (changed_while_stopped a.run_id) _
        h₁ in
    abort_each-Settled id reason now selected next rest (
      subst (λ (z : Db). Settled id z.runs) (ok-injective h₂)
        (Settled-update id db.runs (awaits a.run_id) (close_run run_rejected reason now) (λ r. refl)
          (λ r x y. ground arith) settled))

abort_session-Settled :
    (id session_id reason now : Text) (db : Db) {result : Db × List Approval}
    → abort_agent_approvals_for_session session_id reason now db ≡ ok result
    → Settled id db.runs
    → Settled id result.0.runs
unfolding abort_agent_approvals_for_session
abort_session-Settled id session_id reason now db {result} h settled =
    let selected = unclaimed_of_session session_id db in
    let (kept, each, e) = >>=-eq-ok (abort_each reason now selected db) _ h in
    let runs_of : kept.runs ≡ result.0.runs = elim (Bool-cases (is_empty selected)) [
      | inl none_left ↦ ap (λ (z : Db × List Approval). z.0.runs) (ok-injective (rw none_left at e))
      | inr some_left ↦ ap (λ (z : Db × List Approval). z.0.runs) (ok-injective (rw some_left at e))
    ] in
    subst (Settled id) runs_of (abort_each-Settled id reason now selected db each settled)

-- No call awakens a settled run, but `CreateRun` with its id after it was deleted.
pub perform-Settled :
    (id : Text) (op : Op) (db : Db) {after : Db}
    → IsOutcome op
    → NotCreating id op
    → perform op db ≡ ok after
    → Settled id db.runs
    → Settled id after.runs
unfolding perform create_run create_approval activate_agent_approvals decide_agent_approval
    claim_agent_approval_run reject_pending_approval_and_run approve_pending_and_start_run
    update_pending_approval_explanation update_run_ai_review update_run interrupt_active_runs
    abort_unactivated_agent_approvals abort_agent_approvals_for_session delete_audit_runs
    delete_host delete_chat_session
perform-Settled id (creating_run r) db _ other h settled =
    let (fresh, h₁) =
      guard->>=-ok (not (exists_where (λ (s : Run). equal s.id r.id) db.runs)) constraint_failed _
        h in
    let (_, e) =
      guard->>=-ok (exists_where (λ host. equal host r.host_id) db.hosts) constraint_failed _ h₁ in
    subst (λ (z : Db). Settled id z.runs) (ok-injective e)
      (Settled-create id (new_run r) db.runs other settled)
perform-Settled id (creating_approval a session_id) db _ _ h settled =
    let test = λ (b : Approval). equal b.id a.id || equal b.run_id a.run_id in
    let (_, h₁) = guard->>=-ok (not (exists_where test db.approvals)) constraint_failed _ h in
    let (_, h₂) =
      guard->>=-ok (exists_where (λ (r : Run). equal r.id a.run_id) db.runs) constraint_failed _
        h₁ in
    let (_, h₃) =
      guard->>=-ok (exists_where (λ host. equal host a.host_id) db.hosts) constraint_failed _ h₂ in
    subst (λ (z : Db). Settled id z.runs) (ok-injective h₃) settled
perform-Settled id (activating checkpoint_id interrupts) db _ _ h settled =
    let (_, h₁) = guard->>=-ok (not (is_empty interrupts)) empty_group _ h in
    let (_, _, last) = >>=-eq-ok (activate_each checkpoint_id interrupts _) _ h₁ in
    subst (λ (z : Db). Settled id z.runs) (ok-injective last) settled
perform-Settled id (deciding given status reason now) db _ _ h settled =
    let (_, h₁) = guard->>=-ok (is_approved status || is_rejected status) invalid_decision _ h in
    let (_, h₂) =
      guard->>=-ok (not (count_where (is_decidable given) db.approvals == 0)) no_longer_pending _
        h₁ in
    let approvals = update_where (is_decidable given) (decide status reason now) db.approvals in
    let target = find_where (λ (a : Approval). equal a.id given) approvals in
    let (runs, up, last) = >>=-eq-ok (decided_runs status target reason now db.runs) _ h₂ in
    subst (λ (z : Db). Settled id z.runs) (ok-injective last)
      (decided_runs-Settled id status target reason now db.runs up settled)
perform-Settled id (claiming given run_id) db _ _ h settled =
    let (_, e) = claim-after given run_id db h in
    subst (λ (z : Db). Settled id z.runs) (sym e)
      (Settled-update id db.runs (is_claimed given run_id db.approvals)
        (λ (r : Run). record r { status = running }) (λ r. refl) (λ r x y. refl) settled)
perform-Settled id (rejecting given run_id reason now) db _ _ h settled =
    let d = reject-Decided given run_id reason now db h in
    subst (λ (z : Db). Settled id z.runs) (sym d.after_is)
      (Settled-update id db.runs (awaits run_id) (close_run run_rejected reason now) (λ r. refl)
        (λ r x y. refl) settled)
perform-Settled id (approving given run_id reason now) db _ _ h settled =
    let d = approve-Decided given run_id reason now db h in
    subst (λ (z : Db). Settled id z.runs) (sym d.after_is)
      (Settled-update id db.runs (awaits run_id) (λ (r : Run). record r { status = running })
        (λ r. refl) (λ r x y. refl) settled)
perform-Settled id (explaining given run_id review) db _ _ h settled =
    let test = λ (r : Run).
      awaits run_id r
      && exists_where
          (λ (a : Approval).
            equal a.id given
            && equal a.run_id r.id
            && (is_preparing a.status || is_pending a.status))
          db.approvals in
    let (_, e) = guard->>=-ok (not (count_where test db.runs == 0)) no_longer_pending _ h in
    subst (λ (z : Db). Settled id z.runs) (ok-injective e)
      (Settled-update id db.runs test (λ (r : Run). record r { ai_review_json = review })
        (λ r. refl) (λ r x y. y) settled)
perform-Settled id (reviewing run_id review) db _ _ h settled =
    let test = λ (r : Run). equal r.id run_id in
    let (_, e) = guard->>=-ok (not (count_where test db.runs == 0)) not_found _ h in
    subst (λ (z : Db). Settled id z.runs) (ok-injective e)
      (Settled-update id db.runs test (λ (r : Run). record r { ai_review_json = review })
        (λ r. refl) (λ r x y. y) settled)
perform-Settled id (writing given) db outcome _ h settled =
    subst (λ (z : Db). Settled id z.runs) (ok-injective h)
      (Settled-update id db.runs _ _ (λ r. refl) (λ r x y. outcome) settled)
perform-Settled id (interrupting reason now) db _ _ h settled =
    subst (λ (z : Db). Settled id z.runs) (ok-injective h)
      (Settled-update id db.runs _ _ (λ r. refl) (λ r x y. refl) settled)
perform-Settled id (recovering reason now) db _ _ h settled =
    subst (λ (z : Db). Settled id z.runs) (ok-injective h)
      (Settled-update id db.runs _ _ (λ r. refl) (λ r x y. refl) settled)
perform-Settled id (stopping session_id reason now) db _ _ h settled =
    let (result, both, e) =
      >>=-eq-ok (abort_agent_approvals_for_session session_id reason now db) _ h in
    subst (λ (z : Db). Settled id z.runs) (ok-injective e)
      (abort_session-Settled id session_id reason now db both settled)
perform-Settled id (deleting_audit busy session_id) db _ _ h settled =
    subst (λ (z : Db). Settled id z.runs) (ok-injective h) (Settled-delete id _ db.runs settled)
perform-Settled id (deleting_host host_id) db _ _ h settled =
    let (_, e) = guard->>=-ok (exists_where (λ host. equal host host_id) db.hosts) not_found _ h in
    subst (λ (z : Db). Settled id z.runs) (ok-injective e) (Settled-delete id _ db.runs settled)
perform-Settled id (deleting_session session_id known) db _ _ h settled =
    let (_, e) = guard->>=-ok known not_found _ h in
    subst (λ (z : Db). Settled id z.runs) (ok-injective e) settled
