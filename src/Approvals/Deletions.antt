-- ===== src/Approvals/Deletions.antt =====
-- The transactions that delete runs or approvals: `DeleteAuditRuns` (internal/store/audit.go), `DeleteHost`
-- (internal/store/hosts.go) and `DeleteChatSession` (internal/store/chat_sessions.go). Of the tables that are not in
-- `Db` there is what these transactions read: whether a run has a task or a shell that is active, and whether the
-- session is there. The statements of one transaction select the same runs, since they delete rows of these only.
use eino_ops_agent_enterpr1s.Base.{
  Bool, true, false, not, ◌&&◌, ◌||◌, Option, none, some, List, [], ◌∷◌, Text, Bytes, trim_space,
  equal, is_empty, if◌then◌else◌, Result, ok, ◌>>◌, guard, ◌≡◌, inl, inr, sym, ap, ◌∙◌, Bool-cases,
}
use eino_ops_agent_enterpr1s.Approvals.{
  Approval, RunStatus, created, approval_required, running, Run, Db, StoreError, not_found,
  is_pending, is_agent, exists_where, publish,
}
use eino_ops_agent_enterpr1s.Approvals.Pairs.{In}

-- `DELETE FROM … WHERE test`.
unfoldable pub delete_where : {A : Type 0} → (A → Bool) → List A → List A
delete_where test [] = []
delete_where test (x ∷ xs) = let rest = delete_where test xs in if test x then rest else x ∷ rest

-- The list of statuses of `deletableAuditRunSQL`; the other strings in it are never a run's.
abbrev pub is_closed : RunStatus → Bool
is_closed created = false
is_closed approval_required = false
is_closed running = false
is_closed _ = true

-- `deletableAuditRunSQL`; `busy` says that the run has an active task or shell.
abbrev pub is_deletable : (Text → Bool) → List Approval → Run → Bool
is_deletable busy approvals r =
    is_closed r.status
    && not (exists_where (λ (a : Approval). equal a.run_id r.id && is_pending a.status) approvals)
    && not (busy r.id)

-- `where`: all runs, or those of one session.
abbrev pub in_scope : Option Text → Run → Bool
in_scope none r = true
in_scope (some session_id) r = equal r.session_id (trim_space session_id)

-- `DELETE FROM approvals WHERE run_id IN (SELECT id FROM runs WHERE selected)`.
abbrev pub is_of : (Run → Bool) → List Run → Approval → Bool
is_of selected runs a = exists_where (λ (r : Run). selected r && equal r.id a.run_id) runs

unfoldable pub delete_audit_runs : (Text → Bool) → Option Text → Db → Db
delete_audit_runs busy session_id db =
    let selected = λ (r : Run). in_scope session_id r && is_deletable busy db.approvals r in
    record db {
      approvals = delete_where (is_of selected db.runs) db.approvals;
      runs = delete_where selected db.runs;
    }

unfoldable pub delete_host : Text → Db → Result StoreError Db
delete_host id db =
    let selected = λ (r : Run). equal r.host_id id in
    guard (exists_where (λ host. equal host id) db.hosts) not_found
    >> ok (
        publish [] (record db {
          approvals =
              delete_where (λ (a : Approval). equal a.host_id id || is_of selected db.runs a)
                db.approvals;
          runs = delete_where selected db.runs;
          hosts = delete_where (λ host. equal host id) db.hosts;
        }))

-- The runs of the session stay.
unfoldable pub delete_chat_session : Text → Bool → Db → Result StoreError Db
delete_chat_session session_id known db =
    let selected = λ (r : Run). equal r.session_id session_id in
    guard known not_found
    >> ok (
        publish [] (record db {
          checkpoints =
              delete_where
                (λ (checkpoint : Text × Bytes).
                  exists_where
                    (λ (a : Approval).
                      is_of selected db.runs a
                      && is_agent a
                      && not (is_empty a.checkpoint_id)
                      && equal checkpoint.0 a.checkpoint_id)
                    db.approvals)
                db.checkpoints;
          approvals = delete_where (is_of selected db.runs) db.approvals;
        }))

-- What is left stood there before, and did not pass the test.
pub In-delete_where :
    {A : Type 0} (test : A → Bool) (y : A) (xs : List A)
    → In y (delete_where test xs)
    → In y xs × (test y ≡ false)
unfolding delete_where
In-delete_where test y [] h = absurd h
In-delete_where test y (x ∷ xs) h = elim (Bool-cases (test x)) [
  | inl gone ↦ let (there, kept) = In-delete_where test y xs (rw gone at h) in (inr there, kept)
  | inr stays ↦ elim (rw stays at h) [
    | inl e ↦ (inl e, ap test e ∙ stays)
    | inr later ↦ let (there, kept) = In-delete_where test y xs later in (inr there, kept)
  ]
]

pub delete_where-In :
    {A : Type 0} (test : A → Bool) (y : A) (xs : List A)
    → In y xs
    → test y ≡ false
    → In y (delete_where test xs)
unfolding delete_where
delete_where-In test y [] h kept = absurd h
delete_where-In test y (x ∷ xs) h kept = elim (Bool-cases (test x)) [
  | inl gone ↦ rw gone (elim h [
    | inl e ↦ absurd (clash (sym (ap test e ∙ gone) ∙ kept))
    | inr later ↦ delete_where-In test y xs later kept
  ])
  | inr stays ↦
      rw stays (elim h [ inl e ↦ inl e | inr later ↦ inr (delete_where-In test y xs later kept) ])
]
  where
    clash : true ≡ false → ⊥
    clash e = cc
